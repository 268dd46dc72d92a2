-- ===== src/Server/Handler.antt =====
-- internal/server/server.go: what the handlers share, `Error`, `decode`, and `throttle` on the map of
-- times. A handler's answer is an `Outcome`: its error is `http status code`.
use budge.Base.{
  ℕ, Bool, true, false, Option, none, some, List, [], ◌∷◌, ltb, ◌==◌, ◌||◌, if◌then◌else◌, length,
  all, not, select,
}
use budge.Base.Text.{Text, codes, text_eq}
use budge.Requests.Types.{Code, http}
use budge.Server.Slots.{throttle}

-- `Error(w, 503, "storage_unavailable")`.
abbrev pub unavailable : Code
unavailable = http 503 (codes "storage_unavailable")

-- The space that JSON allows.
abbrev is_space : ℕ → Bool
is_space c = c == 32 || c == 9 || c == 10 || c == 13

abbrev whole {ℓ} : {A : Type ℓ} → Option (A × Text) → Option A
whole none = none
whole (some (a, rest)) = if all is_space rest then some a else none

-- `decode`; `parse` stands for the first `d.Decode`, with unknown fields not allowed: the value and
-- what it left unread. The second must find the end of the body, which is within the limit.
unfoldable pub decode {ℓ} : {A : Type ℓ} → (Text → Option (A × Text)) → ℕ → Text → Option A
decode parse limit body = if ltb limit (length body) then none else whole (parse body)

-- `s.throttles`: a missing key has no times.
abbrev pub Throttles : Type 0
Throttles = List (Text × List ℕ)

unfoldable pub times_of : Throttles → Text → List ℕ
times_of [] key = []
times_of ((k, times) ∷ m) key = let rest = times_of m key in if text_eq k key then times else rest

unfoldable pub set_times : Throttles → Text → List ℕ → Throttles
set_times m key times = (key, times) ∷ select (λ (e : Text × List ℕ). not (text_eq e.0 key)) m

abbrev throttled : Throttles → Text → Bool × List ℕ → Bool × Throttles
throttled m key (false, times) = (false, m)
throttled m key (true, times) = (true, set_times m key times)

-- `throttle`.
unfoldable pub throttle_key : ℕ → Text → ℕ → Throttles → Bool × Throttles
unfolding throttle times_of set_times
throttle_key now key limit m = throttled m key (throttle now (times_of m key) limit)
