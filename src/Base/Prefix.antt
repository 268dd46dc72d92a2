-- ===== src/Base/Prefix.antt =====
-- Prefixes of texts.
use budge.Base.Text.{Text, has_prefix, trim_slash}
use Prim.Native.Nat.{ℕ}
use mathlib.Core.Path.{◌≡◌, refl}
use mathlib.Core.Logic.{◌⊎◌, inl, inr}
use mathlib.Core.Bool.{true}
use mathlib.Core.List.{[], ◌∷◌, ◌++◌}
use native.Mathlib.Omega.{arith}

pub has_prefix_refl : (s : Text) → has_prefix s s ≡ true
unfolding has_prefix
has_prefix_refl [] = refl
has_prefix_refl (c ∷ s) = ground (arith, has_prefix_refl s)

pub has_prefix-append : (s t u : Text) → has_prefix s u ≡ true → has_prefix (s ++ t) u ≡ true
unfolding has_prefix
has_prefix-append s t [] h = refl
has_prefix-append [] t (d ∷ u) h = cc
has_prefix-append (c ∷ s) t (d ∷ u) h = ground (arith, has_prefix-append s t u)

-- Two prefixes of one text are comparable.
pub has_prefix_total :
    (s t u : Text)
    → has_prefix s t ≡ true
    → has_prefix s u ≡ true
    → (has_prefix t u ≡ true) ⊎ (has_prefix u t ≡ true)
unfolding has_prefix
has_prefix_total s t [] h k = inl refl
has_prefix_total s [] (d ∷ u) h k = inr refl
has_prefix_total [] (c ∷ t) (d ∷ u) h k = cc
has_prefix_total (b ∷ s) (c ∷ t) (d ∷ u) h k = ground (arith, has_prefix_total s t u)

-- A prefix of `t` and one byte more is all of it, or a prefix of `t`.
pub has_prefix-concat :
    (t u : Text) (c : ℕ)
    → has_prefix (t ++ (c ∷ [])) u ≡ true
    → (u ≡ t ++ (c ∷ [])) ⊎ (has_prefix t u ≡ true)
unfolding has_prefix
has_prefix-concat t [] c h = inr refl
has_prefix-concat [] (d ∷ []) c h = ground arith
has_prefix-concat [] (d ∷ e ∷ u) c h = ground arith
has_prefix-concat (b ∷ t) (d ∷ u) c h = ground (arith, has_prefix-concat t u c)

-- What `strings.TrimSuffix(s, "/")` took away.
pub trim_slash-cases : (s : Text) → (s ≡ trim_slash s) ⊎ (s ≡ trim_slash s ++ (b'/' ∷ []))
unfolding trim_slash
trim_slash-cases [] = inl refl
trim_slash-cases (c ∷ []) = ground arith
trim_slash-cases (c ∷ d ∷ s) = ground (arith, trim_slash-cases (d ∷ s))
