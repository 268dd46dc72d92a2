-- ===== src/Server/Slots.antt =====
-- internal/server/server.go: `acquire`, `release` and `throttle`, under the mutex of `Server`.
use budge.Base.{
  ℕ, zero, suc, ◌*◌, ◌^◌, ◌+◌, ◌-◌, Bool, true, false, not, ◌||◌, List, [], ◌∷◌, ◌++◌, leb, ltb,
  if◌then◌else◌, length, select,
}
use budge.Base.Text.{Text, text_eq}

-- `global` and the map `active`: a missing key is 0.
pub record Slots : Type 0 where
  pub global : ℕ
  pub active : List (Text × ℕ)

unfoldable pub active_of : List (Text × ℕ) → Text → ℕ
active_of [] device = 0
active_of ((d, n) ∷ active) device =
    let rest = active_of active device in if text_eq d device then n else rest

-- `m[device] = n`, and `delete(m, device)` where `n` is 0.
abbrev pub drop_key : List (Text × ℕ) → Text → List (Text × ℕ)
drop_key active device = select (λ (e : Text × ℕ). not (text_eq e.0 device)) active

unfoldable pub set_active : List (Text × ℕ) → Text → ℕ → List (Text × ℕ)
set_active active device zero = drop_key active device
set_active active device (suc n) = (device, suc n) ∷ drop_key active device

-- `acquire`: whether a slot was free, and the slots after.
unfoldable pub acquire : Slots → Text → Bool × Slots
unfolding active_of set_active
acquire s device = if leb 32 s.global || leb 4 (active_of s.active device) then (false, s) else (
  true,
  record {
    global = suc s.global;
    active = set_active s.active device (suc (active_of s.active device));
  },
)

-- `release`, of a slot that was acquired: the counts are above 0.
unfoldable pub release : Slots → Text → Slots
unfolding active_of set_active
release s device = record {
  global = s.global - 1;
  active = set_active s.active device (active_of s.active device - 1);
}

-- `time.Minute`, in nanoseconds.
abbrev pub minute : ℕ
minute = 60 * 10 ^ 9

-- `throttle` on the times of one key: whether the call may go on, and the times that are kept.
unfoldable pub throttle : ℕ → List ℕ → ℕ → Bool × List ℕ
throttle now times limit =
    let live = select (λ t. ltb now (t + minute)) times in
    if leb limit (length live) then (false, times) else (true, live ++ (now ∷ []))
