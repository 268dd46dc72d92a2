-- ===== src/Server/SlotBounds.antt =====
-- The slots of the dispatches: at most 32 in all and 4 of each device.
use budge.Base.{
  arith, subst, ℕ, zero, suc, ◌+◌, ◌-◌, ◌≤◌, ◌≡◌, refl, sym, ap, ◌∙◌, ◌⊎◌, inl, inr, ◌||◌, List, [],
  ◌∷◌, All, In, leb, leb_iff, Bool-cases, map,
}
use budge.Base.Text.{Text, text_eq, text_eq_iff}
use budge.Server.Lifecycle.{Distinct}
use budge.Server.Slots.{Slots, active_of, drop_key, set_active, acquire, release}

abbrev total : List (Text × ℕ) → ℕ
total [] = 0
total ((d, n) ∷ active) = n + total active

abbrev keys : List (Text × ℕ) → List Text
keys active = map (λ (e : Text × ℕ). e.0) active

-- The counts of the devices are between 1 and 4, and add up to the count of all, at most 32.
pub record IsBounded (s : Slots) : Type 0 where
  pub apart : Distinct (keys s.active)
  pub counts : All (λ (e : Text × ℕ). (1 ≤ e.1) × (e.1 ≤ 4)) s.active
  pub sum : total s.active ≡ s.global
  pub limit : s.global ≤ 32

drop_key-In :
    (active : List (Text × ℕ)) (device t : Text)
    → In t (keys (drop_key active device))
    → In t (keys active) × ¬ (t ≡ device)
drop_key-In [] device t m = elim m [ ]
drop_key-In ((d, n) ∷ active) device t m = elim (Bool-cases (text_eq d device)) [
  | inl e ↦
      let k : In t (keys (drop_key active device)) = rw e at m in
      let (there, ne) = drop_key-In active device t k in (inr there, ne)
  | inr e ↦
      let k : (t ≡ d) ⊎ In t (keys (drop_key active device)) = rw e at m in
      elim k [
        | inl q ↦ (inl q, λ same. ground (arith, text_eq_iff d device, sym q ∙ same))
        | inr m' ↦ let (there, ne) = drop_key-In active device t m' in (inr there, ne)
      ]
]

drop_key-Distinct :
    (active : List (Text × ℕ)) (device : Text)
    → Distinct (keys active)
    → Distinct (keys (drop_key active device))
drop_key-Distinct [] device d = d
drop_key-Distinct ((t, n) ∷ active) device (out, d) = elim (Bool-cases (text_eq t device)) [
  | inl e ↦ rw e (drop_key-Distinct active device d)
  | inr e ↦ rw e ((λ m. out (drop_key-In active device t m).0), drop_key-Distinct active device d)
]

drop_key-All :
    (P : Text × ℕ → Type 0) (active : List (Text × ℕ)) (device : Text)
    → All P active
    → All P (drop_key active device)
drop_key-All P [] device h = tt
drop_key-All P ((t, n) ∷ active) device (p, h) = elim (Bool-cases (text_eq t device)) [
  | inl e ↦ rw e (drop_key-All P active device h)
  | inr e ↦ rw e (p, drop_key-All P active device h)
]

-- A device that has no entry.
drop_key-absent :
    (active : List (Text × ℕ)) (device : Text)
    → ¬ In device (keys active)
    → total (drop_key active device) ≡ total active
drop_key-absent [] device out = refl
drop_key-absent ((t, n) ∷ active) device out = elim (Bool-cases (text_eq t device)) [
  | inl e ↦ absurd (out (inl (sym ((text_eq_iff t device).0 e))))
  | inr e ↦ rw e (ap (λ m. n + m) (drop_key-absent active device (λ m. out (inr m))))
]

-- The entry of a device is what dropping it takes from the sum.
total-drop_key :
    (active : List (Text × ℕ)) (device : Text)
    → Distinct (keys active)
    → active_of active device + total (drop_key active device) ≡ total active
unfolding active_of
total-drop_key [] device d = refl
total-drop_key ((t, n) ∷ active) device (out, d) = elim (Bool-cases (text_eq t device)) [
  | inl e ↦
      let q : t ≡ device = (text_eq_iff t device).0 e in
      rw e (
        ap (λ m. n + m)
          (drop_key-absent active device (λ m. out (subst (λ x. In x (keys active)) (sym q) m))))
  | inr e ↦ rw e (ground (arith, total-drop_key active device d))
]

active_of-bound :
    (active : List (Text × ℕ)) (device : Text)
    → All (λ (e : Text × ℕ). (1 ≤ e.1) × (e.1 ≤ 4)) active
    → active_of active device ≤ 4
unfolding active_of
active_of-bound [] device h = ground arith
active_of-bound ((t, n) ∷ active) device (p, h) = elim (Bool-cases (text_eq t device)) [
  | inl e ↦ rw e p.1
  | inr e ↦ rw e (active_of-bound active device h)
]

-- A new count of a device, in its bounds.
set_active-IsBounded :
    (s : Slots) (device : Text) (n global : ℕ)
    → IsBounded s
    → n ≤ 4
    → n + total (drop_key s.active device) ≡ global
    → global ≤ 32
    → IsBounded (record { global = global; active = set_active s.active device n })
unfolding set_active
set_active-IsBounded s device zero global h small sum limit = record {
  apart = drop_key-Distinct s.active device h.apart;
  counts = drop_key-All _ s.active device h.counts;
  sum = ground (arith, sum);
  limit = limit;
}
set_active-IsBounded s device (suc n) global h small sum limit = record {
  apart = (
    (λ m. (drop_key-In s.active device device m).1 refl),
    drop_key-Distinct s.active device h.apart,
  );
  counts = ((ground arith, small), drop_key-All _ s.active device h.counts);
  sum = sum;
  limit = limit;
}

-- `acquire` keeps the bounds: never more than 32 slots, nor more than 4 of a device, are taken.
pub acquire-IsBounded : (s : Slots) (device : Text) → IsBounded s → IsBounded (acquire s device).1
unfolding acquire
acquire-IsBounded s device h =
    elim (Bool-cases (leb 32 s.global || leb 4 (active_of s.active device))) [
      | inl e ↦ rw e h
      | inr e ↦ rw e (
          set_active-IsBounded s device (suc (active_of s.active device)) (suc s.global) h
            (ground (arith, e, leb_iff 4 (active_of s.active device)))
            (ground (arith, total-drop_key s.active device h.apart, h.sum))
            (ground (arith, e, leb_iff 32 s.global)))
    ]

-- `release` of a slot that a device holds keeps the bounds.
pub release-IsBounded :
    (s : Slots) (device : Text)
    → IsBounded s
    → 1 ≤ active_of s.active device
    → IsBounded (release s device)
unfolding release
release-IsBounded s device h held =
    set_active-IsBounded s device (active_of s.active device - 1) (s.global - 1) h
      (ground (arith, active_of-bound s.active device h.counts))
      (ground (arith, total-drop_key s.active device h.apart, h.sum, held))
      (ground (arith, h.limit))
