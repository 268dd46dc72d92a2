-- ===== src/Base/Lists.antt =====
-- Lists: measures by native numbers, Boolean quantifiers, and predicates by recursion.
use Prim.Native.Nat.{ℕ, zero, suc}
use mathlib.Core.Path.{◌≡◌, refl, sym, ap, subst}
use mathlib.Core.Logic.{◌⊎◌, ◌↔◌, inl, inr}
use mathlib.Core.Bool.{Bool, true, false, ◌&&◌, ◌||◌}
use mathlib.Core.List.{List, [], ◌∷◌, ◌++◌}
use mathlib.Core.Option.{Option, none, some}
use native.Mathlib.Omega.{arith}
use budge.Base.Tests.{if◌then◌else◌, Bool-cases}

module _ {ℓ} {A : Type ℓ} where
  abbrev pub length : List A → ℕ
  length [] = 0
  length (x ∷ xs) = suc (length xs)

  abbrev pub any : (A → Bool) → List A → Bool
  any p [] = false
  any p (x ∷ xs) = p x || any p xs

  abbrev pub all : (A → Bool) → List A → Bool
  all p [] = true
  all p (x ∷ xs) = p x && all p xs

  -- `SELECT … WHERE p`.
  abbrev pub select : (A → Bool) → List A → List A
  select p [] = []
  select p (x ∷ xs) = let rest = select p xs in if p x then x ∷ rest else rest

  -- `UPDATE … SET f WHERE p`.
  abbrev pub update : (A → Bool) → (A → A) → List A → List A
  update p f [] = []
  update p f (x ∷ xs) = (if p x then f x else x) ∷ update p f xs

  abbrev pub find : (A → Bool) → List A → Option A
  find p [] = none
  find p (x ∷ xs) = let rest = find p xs in if p x then some x else rest

  -- `xs[:n]`, of a slice that is at least as long.
  abbrev pub take : ℕ → List A → List A
  take zero xs = []
  take (suc n) [] = []
  take (suc n) (x ∷ xs) = x ∷ take n xs

module _ {ℓ κ} {A : Type ℓ} (P : A → Type κ) where
  -- Every element, by recursion, so that the tactics read and build it.
  abbrev pub All : List A → Type κ
  All [] = Unit
  All (x ∷ xs) = P x × All xs

-- Some element.
abbrev pub Any {ℓ} : {A : Type ℓ} → (A → Type 0) → List A → Type 0
Any P [] = ⊥
Any P (x ∷ xs) = P x ⊎ Any P xs

-- `x` stands in the list.
abbrev pub In : {A : Type 0} → A → List A → Type 0
In x xs = Any (λ y. x ≡ y) xs

pub any-Any {ℓ} :
    {A : Type ℓ} (p : A → Bool) (xs : List A) → (any p xs ≡ true) ↔ Any (λ x. p x ≡ true) xs
any-Any p [] = ground arith
any-Any p (x ∷ xs) = ground (arith, any-Any p xs)

pub all-All {ℓ} :
    {A : Type ℓ} (p : A → Bool) (xs : List A) → (all p xs ≡ true) ↔ All (λ x. p x ≡ true) xs
all-All p [] = ground arith
all-All p (x ∷ xs) = ground (arith, all-All p xs)

pub All-map {ℓ} :
    {A : Type ℓ} {P Q : A → Type 0} → ((x : A) → P x → Q x) → (xs : List A) → All P xs → All Q xs
All-map f [] h = tt
All-map f (x ∷ xs) (p, h) = (f x p, All-map f xs h)

pub Any-map {ℓ} :
    {A : Type ℓ} {P Q : A → Type 0} → ((x : A) → P x → Q x) → (xs : List A) → Any P xs → Any Q xs
Any-map f [] h = h
Any-map f (x ∷ xs) (inl p) = inl (f x p)
Any-map f (x ∷ xs) (inr h) = inr (Any-map f xs h)

-- An element of the list has what every element has.
pub All-Any {ℓ} :
    {A : Type ℓ} {P Q : A → Type 0} (xs : List A) → All P xs → Any Q xs → (x : A) × P x × Q x
All-Any [] h k = elim k [ ]
All-Any (x ∷ xs) (p, h) (inl q) = (x, p, q)
All-Any (x ∷ xs) (p, h) (inr k) = All-Any xs h k

pub All-In : {A : Type 0} (P : A → Type 0) (xs : List A) {x : A} → All P xs → In x xs → P x
All-In P [] h k = elim k [ ]
All-In P (y ∷ ys) (p, h) (inl e) = subst P (sym e) p
All-In P (y ∷ ys) (p, h) (inr k) = All-In P ys h k

pub All-of_In : {A : Type 0} (P : A → Type 0) (xs : List A) → ((x : A) → In x xs → P x) → All P xs
All-of_In P [] f = tt
All-of_In P (x ∷ xs) f = (f x (inl refl), All-of_In P xs (λ y h. f y (inr h)))

pub In-select :
    {A : Type 0} (p : A → Bool) (xs : List A) (x : A)
    → In x (select p xs) ↔ (In x xs × (p x ≡ true))
In-select p [] x = ground arith
In-select p (y ∷ ys) x = elim (Bool-cases (p y)) [
  | inl t ↦ rw t (ground (arith, In-select p ys x, ap p {x = x} {y = y}))
  | inr f ↦ rw f (ground (arith, In-select p ys x))
]

pub In-append : {A : Type 0} (x : A) (xs ys : List A) → In x (xs ++ ys) ↔ (In x xs ⊎ In x ys)
In-append x [] ys = ground arith
In-append x (y ∷ xs) ys = ground (arith, In-append x xs ys)

pub All-of_every {ℓ κ} : {A : Type ℓ} (P : A → Type κ) → ((x : A) → P x) → (xs : List A) → All P xs
All-of_every P f [] = tt
All-of_every P f (x ∷ xs) = (f x, All-of_every P f xs)

-- The rows after an UPDATE.
pub In-update :
    {A : Type 0} (p : A → Bool) (f : A → A) (xs : List A) (y : A)
    → In y (update p f xs)
    → (x : A) × In x xs × (((p x ≡ true) × (y ≡ f x)) ⊎ ((p x ≡ false) × (y ≡ x)))
In-update p f [] y h = elim h [ ]
In-update p f (x ∷ xs) y (inl e) = elim (Bool-cases (p x)) [
  | inl t ↦ (x, inl refl, inl (t, rw t at e))
  | inr t ↦ (x, inl refl, inr (t, rw t at e))
]
In-update p f (x ∷ xs) y (inr h) = let (z, there, how) = In-update p f xs y h in (z, inr there, how)
