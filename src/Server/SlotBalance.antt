-- ===== src/Server/SlotBalance.antt =====
-- A request that is passed on gives back the slot that it takes, on every path.
use budge.Base.{
  ℕ, zero, suc, ◌-◌, arith, ◌≡◌, refl, inl, inr, Bool, true, false, ◌||◌, Option, none, some, List,
  [], ◌∷◌, leb, Bool-cases, if_rule, if◌then◌else◌,
}
use budge.Base.Text.{Text, text_eq, text_eq_iff}
use budge.Requests.Environment.{Environment}
use budge.Store.Tables.{Db}
use budge.Access.Syntax.{route}
use budge.Server.Slots.{Slots, active_of, drop_key, set_active, acquire, release}
use budge.Server.Device.{Served, Incoming, Outside, exchange_of, after_route, handle_forward}

-- The slots of each device, and of all.
pub record IsBalanced (s t : Slots) : Type 0 where
  pub global : t.global ≡ s.global
  pub active : (device : Text) → active_of t.active device ≡ active_of s.active device

active_of-drop_key :
    (active : List (Text × ℕ)) (device t : Text)
    → active_of (drop_key active device) t ≡ (if text_eq t device then 0 else active_of active t)
unfolding active_of
active_of-drop_key [] device t = ground arith
active_of-drop_key ((d, n) ∷ active) device t = elim (Bool-cases (text_eq d device)) [
  | inl e ↦ rw e (
      ground (
        arith,
        active_of-drop_key active device t,
        text_eq_iff d device,
        text_eq_iff t device,
        text_eq_iff d t,
        e,
      ))
  | inr e ↦ rw e (
      ground (
        arith,
        active_of-drop_key active device t,
        text_eq_iff d device,
        text_eq_iff t device,
        text_eq_iff d t,
        e,
      ))
]

pub active_of-set_active :
    (active : List (Text × ℕ)) (device t : Text) (n : ℕ)
    → active_of (set_active active device n) t
      ≡ (if text_eq t device then n else active_of active t)
unfolding set_active active_of
active_of-set_active active device t zero = active_of-drop_key active device t
active_of-set_active active device t (suc n) =
    ground (arith, active_of-drop_key active device t, text_eq_iff device t, text_eq_iff t device)

-- A count that is raised and lowered again.
taken_back :
    (active : List (Text × ℕ)) (device t : Text)
    → active_of
        (set_active
          (set_active active device (suc (active_of active device)))
          device
          (active_of (set_active active device (suc (active_of active device))) device - 1))
        t
      ≡ active_of active t
taken_back active device t =
    go (active_of (set_active active device (suc (active_of active device))) device)
      (active_of-set_active active device device (suc (active_of active device)))
  where
    go :
        (n : ℕ)
        → n ≡ (
            if text_eq device device
            then suc (active_of active device)
            else active_of active device)
        → active_of
            (set_active (set_active active device (suc (active_of active device))) device (n - 1))
            t
          ≡ active_of active t
    go n e = ground (
      arith,
      active_of-set_active (set_active active device (suc (active_of active device))) device t
          (n - 1),
      active_of-set_active active device t (suc (active_of active device)),
      text_eq_iff device device,
      text_eq_iff t device,
      e,
    )

released :
    (s : Slots) (device : Text)
    → (acquire s device).0 ≡ true
    → IsBalanced s (release (acquire s device).1 device)
unfolding acquire release
released s device h = elim (Bool-cases (leb 32 s.global || leb 4 (active_of s.active device))) [
  | inl e ↦ let q : false ≡ true = rw e at h in cc
  | inr e ↦ rw e (record { global = ground arith; active = taken_back s.active device })
]

-- Whatever the answer of `DeviceHandler` to a request for a service, errors included, the slots of
-- every device and of all are afterwards what they were before.
pub handle_forward-IsBalanced :
    (env : Environment) (device : Text) (r : Incoming) (out : Outside) (elapsed : ℕ)
    (faults faults' : List Bool) (slots : Slots) (db : Db)
    → IsBalanced slots (handle_forward env device r out elapsed faults faults' (slots, db)).1
unfolding handle_forward
handle_forward-IsBalanced env device r out elapsed faults faults' slots db = go (route r.request)
  where
    go :
        (o : Option (Text × Text))
        → IsBalanced slots
            (after_route env device r o
              (exchange_of env out r.fields)
              elapsed
              faults
              faults'
              (slots, db)).1
    go none = record { global = refl; active = λ t. refl }
    go (some (service, path)) =
        if_rule (λ (o : Served × Slots). IsBalanced slots o.1) (acquire slots device).0 _ _
          (released slots device) (λ _. record { global = refl; active = λ t. refl })
