-- ===== src/Base/Text.antt =====
-- Go strings: byte sequences, with the functions of package strings that the program calls.
use Prim.Native.Char.{code}
use Prim.Native.String.{String}
use Prim.Native.Nat.{ℕ, zero, suc, ◌+◌, ◌/◌, ◌%◌}
use mathlib.Core.Path.{◌≡◌, refl, ap, ◌∙◌}
use mathlib.Core.Logic.{◌↔◌, ◌≢◌, inl, inr}
use mathlib.Core.Bool.{Bool, true, false, ◌&&◌, ◌||◌}
use mathlib.Core.List.{List, [], ◌∷◌, ◌++◌, map}
use native.Mathlib.Omega.{arith}
use budge.Base.Tests.{◌==◌, ==_iff, and-true, and-intro, Bool-cases, leb, ltb, if◌then◌else◌}
use budge.Base.Lists.{any}

abbrev pub Text : Type 0
Text = List ℕ

-- The bytes of an ASCII literal.
abbrev pub codes : String → Text
codes String.[] = []
codes (String.◌∷◌ c s) = code c ∷ codes s

-- `s == t`.
unfoldable pub text_eq : Text → Text → Bool
text_eq [] [] = true
text_eq [] (y ∷ t) = false
text_eq (x ∷ s) [] = false
text_eq (x ∷ s) (y ∷ t) = x == y && text_eq s t

pub text_eq_iff : (s t : Text) → (text_eq s t ≡ true) ↔ (s ≡ t)
unfolding text_eq
text_eq_iff [] [] = ground arith
text_eq_iff [] (y ∷ t) = ground arith
text_eq_iff (x ∷ s) [] = ground arith
text_eq_iff (x ∷ s) (y ∷ t) = ground (arith, text_eq_iff s t)

pub text_eq_refl : (s : Text) → text_eq s s ≡ true
text_eq_refl s = (text_eq_iff s s).1 refl

-- `strings.HasPrefix(s, prefix)`.
unfoldable pub has_prefix : Text → Text → Bool
has_prefix s [] = true
has_prefix [] (y ∷ p) = false
has_prefix (x ∷ s) (y ∷ p) = x == y && has_prefix s p

-- `strings.TrimSuffix(s, "/")`.
unfoldable pub trim_slash : Text → Text
trim_slash [] = []
trim_slash (c ∷ []) = if c == b'/' then [] else c ∷ []
trim_slash (c ∷ d ∷ s) = c ∷ trim_slash (d ∷ s)

abbrev pub push_head : ℕ → List Text → List Text
push_head c [] = (c ∷ []) ∷ []
push_head c (s ∷ rest) = (c ∷ s) ∷ rest

-- `strings.Split(s, sep)` for a separator of one byte.
unfoldable pub split : ℕ → Text → List Text
split sep [] = [] ∷ []
split sep (c ∷ s) = let rest = split sep s in if c == sep then [] ∷ rest else push_head c rest

-- `strings.ContainsRune(s, c)` for an ASCII `s`, and `strings.IndexByte(s, c) >= 0`.
abbrev pub contains_byte : Text → ℕ → Bool
contains_byte s c = any (λ d. d == c) s

-- `strings.ToLower` on ASCII.
abbrev pub lower_byte : ℕ → ℕ
lower_byte c = if leb b'A' c && leb c b'Z' then c + 32 else c

unfoldable pub to_lower : Text → Text
to_lower s = map lower_byte s

-- `strings.EqualFold` on ASCII.
unfoldable pub equal_fold : Text → Text → Bool
unfolding to_lower
equal_fold s t = text_eq (to_lower s) (to_lower t)

-- `strings.Contains(s, pattern)`.
unfoldable pub contains : Text → Text → Bool
unfolding has_prefix
contains [] p = has_prefix [] p
contains (c ∷ s) p = has_prefix (c ∷ s) p || contains s p

-- `strings.Join(parts, sep)` for a separator of one byte.
unfoldable pub join : ℕ → List Text → Text
join sep [] = []
join sep (s ∷ []) = s
join sep (s ∷ t ∷ rest) = s ++ (sep ∷ join sep (t ∷ rest))

tail-eq : (x y : ℕ) (s t : Text) → ◌≡◌ {A = Text} (x ∷ s) (y ∷ t) → (x ≡ y) × (s ≡ t)
tail-eq x y s t e = ground arith

-- What `has_prefix` decides.
pub has_prefix_iff : (s p : Text) → (has_prefix s p ≡ true) ↔ ((r : Text) × (s ≡ p ++ r))
unfolding has_prefix
has_prefix_iff s [] = (λ _. (s, refl), λ _. refl)
has_prefix_iff [] (y ∷ p) = (λ h. cc, λ (r, e). cc)
has_prefix_iff (x ∷ s) (y ∷ p) = (
  λ h.
      let (same, rest) = and-true (x == y) (has_prefix s p) h in
      let (r, e) = (has_prefix_iff s p).0 rest in (r, cc ((==_iff x y).0 same)),
  λ (r, e).
      let (same, rest) = tail-eq x y s (p ++ r) e in
      and-intro ((==_iff x y).1 same) ((has_prefix_iff s p).1 (r, rest)),
)

split-ne-nil : (c : ℕ) (s : Text) → split c s ≢ []
unfolding split
split-ne-nil c [] = ground arith
split-ne-nil c (x ∷ s) = ground (arith, split-ne-nil c s)

join-nil : (c : ℕ) (l : List Text) → l ≢ [] → join c ([] ∷ l) ≡ c ∷ join c l
unfolding join
join-nil c [] h = absurd (h refl)
join-nil c (s ∷ l) h = refl

join-push_head : (c x : ℕ) (l : List Text) → join c (push_head x l) ≡ x ∷ join c l
unfolding join
join-push_head c x [] = refl
join-push_head c x (s ∷ []) = refl
join-push_head c x (s ∷ t ∷ l) = refl

push_head-append : (x : ℕ) (l k : List Text) → l ≢ [] → push_head x (l ++ k) ≡ push_head x l ++ k
push_head-append x [] k h = absurd (h refl)
push_head-append x (s ∷ l) k h = refl

-- Splitting is undone by joining.
pub join-split : (c : ℕ) (s : Text) → join c (split c s) ≡ s
unfolding split join
join-split c [] = refl
join-split c (x ∷ s) = elim (Bool-cases (x == c)) [
  | inl e ↦ rw e (ground (arith, join-split c s, join-nil c (split c s) (split-ne-nil c s)))
  | inr e ↦ rw e (join-push_head c x (split c s) ∙ ap (λ t. x ∷ t) (join-split c s))
]

-- A separator between two texts splits between them.
pub split-append : (c : ℕ) (s t : Text) → split c (s ++ (c ∷ t)) ≡ split c s ++ split c t
unfolding split
split-append c [] t = ground arith
split-append c (x ∷ s) t =
    ground
      (arith, split-append c s t, push_head-append x (split c s) (split c t) (split-ne-nil c s))

-- One digit of `strconv.Itoa`; the fuel is one more than the number, and each round divides by ten.
digits_from : ℕ → ℕ → Text → Text
digits_from zero n out = out
digits_from (suc fuel) n out =
    let rest = digits_from fuel (n / 10) ((b'0' + n % 10) ∷ out) in
    if ltb n 10 then (b'0' + n) ∷ out else rest

-- `strconv.Itoa`, of a number that is not negative.
unfoldable pub itoa : ℕ → Text
unfolding digits_from
itoa n = digits_from (suc n) n []
