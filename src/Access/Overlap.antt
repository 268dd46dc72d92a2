-- ===== src/Access/Overlap.antt =====
-- When two permissions overlap: exactly when some method and path matches both.
use budge.Base.{
  ◌≡◌, sym, subst, ◌∙◌, ◌↔◌, ◌⊎◌, inl, inr, Bool, true, List, [], ◌∷◌, ◌++◌, arith, any, Any,
  any-Any, and-true, Bool-cases, Any-map, All, All-of_In, All-Any,
}
use budge.Base.Text.{Text, text_eq, text_eq_iff, text_eq_refl, has_prefix, trim_slash, split}
use mathlib.Core.List.{append_cancel_right}
use budge.Base.Prefix.{
  has_prefix_refl, has_prefix-append, has_prefix_total, has_prefix-concat, trim_slash-cases,
}
use budge.Access.Scope.{
  Permission, subtree, has_method, match_path, matches, overlap_method, overlap,
}

pub any_intro {ℓ} :
    {A : Type ℓ} (p : A → Bool) (xs : List A) → Any (λ x. p x ≡ true) xs → any p xs ≡ true
any_intro p xs h = (any-Any p xs).1 h

match_path_self : (p : Permission) → match_path p p.path ≡ true
unfolding match_path
match_path_self p = rw (text_eq_refl p.path)

-- A subtree with the slash added to its trimmed path.
abbrev stem : Permission → Text
stem p = trim_slash p.path ++ (b'/' ∷ [])

match_path-subtree :
    (p : Permission) (t : Text)
    → p.kind ≡ subtree
    → has_prefix t (stem p) ≡ true
    → match_path p t ≡ true
unfolding match_path
match_path-subtree p t k h = ground arith

abbrev Meets : Permission → Permission → Type 0
Meets a b = (match_path a b.path ≡ true) ⊎ (match_path b a.path ≡ true)

has_prefix-trim_slash : (s u : Text) → has_prefix (trim_slash s) u ≡ true → has_prefix s u ≡ true
has_prefix-trim_slash s u h = elim (trim_slash-cases s) [
  | inl e ↦ subst (λ x. has_prefix x u ≡ true) (sym e) h
  | inr e ↦ subst (λ x. has_prefix x u ≡ true) (sym e) (has_prefix-append (trim_slash s) _ u h)
]

equal_stems_meet :
    (a b : Permission) → a.kind ≡ subtree → b.kind ≡ subtree → stem a ≡ stem b → Meets a b
equal_stems_meet a b ka kb e = elim (trim_slash-cases b.path) [
  | inr eb ↦ inl (match_path-subtree a b.path ka (covers b.path (stem a) (eb ∙ sym e)))
  | inl eb ↦ elim (trim_slash-cases a.path) [
    | inr ea ↦ inr (match_path-subtree b a.path kb (covers a.path (stem b) (ea ∙ e)))
    | inl ea ↦
        let same : a.path ≡ b.path = ea ∙ append_cancel_right _ _ _ e ∙ sym eb in
        inl (subst (λ t. match_path a t ≡ true) same (match_path_self a))
  ]
]
  where
    covers : (s u : Text) → s ≡ u → has_prefix s u ≡ true
    covers s u q = subst (λ x. has_prefix x u ≡ true) (sym q) (has_prefix_refl u)

-- Where one stem is a prefix of the other.
stems_meet :
    (a b : Permission)
    → a.kind ≡ subtree
    → b.kind ≡ subtree
    → has_prefix (stem b) (stem a) ≡ true
    → Meets a b
stems_meet a b ka kb h = elim (has_prefix-concat (trim_slash b.path) (stem a) b'/' h) [
  | inl e ↦ equal_stems_meet a b ka kb e
  | inr q ↦ inl (match_path-subtree a b.path ka (has_prefix-trim_slash b.path (stem a) q))
]

-- What a matched path says of the permission.
match_path-cases :
    (p : Permission) (t : Text)
    → match_path p t ≡ true
    → (t ≡ p.path) ⊎ ((p.kind ≡ subtree) × (has_prefix t (stem p) ≡ true))
unfolding match_path
match_path-cases p t h = ground (arith, text_eq_iff t p.path)

Meets-swap : (a b : Permission) → Meets a b → Meets b a
Meets-swap a b (inl h) = inr h
Meets-swap a b (inr h) = inl h

-- Two permissions that match one path: one of them matches the other's own path.
pub match_path-Meets :
    (a b : Permission) (t : Text) → match_path a t ≡ true → match_path b t ≡ true → Meets a b
match_path-Meets a b t ma mb = elim (match_path-cases a t ma) [
  | inl e ↦ inr (subst (λ x. match_path b x ≡ true) e mb)
  | inr (ka, pa) ↦ elim (match_path-cases b t mb) [
    | inl e ↦ inl (subst (λ x. match_path a x ≡ true) e ma)
    | inr (kb, pb) ↦ elim (has_prefix_total t (stem a) (stem b) pa pb) [
      | inl h ↦ Meets-swap b a (stems_meet b a kb ka h)
      | inr h ↦ stems_meet a b ka kb h
    ]
  ]
]

Any-overlap_method :
    (a b : Permission) (m t : Text)
    → matches a m t ≡ true
    → matches b m t ≡ true
    → overlap_method a b m ≡ true
unfolding overlap_method matches
Any-overlap_method a b m t ma mb =
    let (hma, pa) = and-true (has_method a.method m) (match_path a t) ma in
    let (hmb, pb) = and-true (has_method b.method m) (match_path b t) mb in
    ground (arith, match_path-Meets a b t pa pb)

matches_method : (p : Permission) (m t : Text) → matches p m t ≡ true → has_method p.method m ≡ true
unfolding matches
matches_method p m t h = (and-true (has_method p.method m) (match_path p t) h).0

Any-has_method :
    (methods m : Text)
    → has_method methods m ≡ true
    → Any (λ n. text_eq n m ≡ true) (split b',' methods)
unfolding has_method
Any-has_method methods m h = (any-Any _ _).0 h

overlap_complete :
    (a b : Permission) (m t : Text)
    → matches a m t ≡ true
    → matches b m t ≡ true
    → overlap a b ≡ true
unfolding overlap
overlap_complete a b m t ma mb =
    any_intro _ _ (Any-map found _ (Any-has_method a.method m (matches_method a m t ma)))
  where
    found : (n : Text) → text_eq n m ≡ true → overlap_method a b n ≡ true
    found n e =
        subst (λ k. overlap_method a b k ≡ true) (sym ((text_eq_iff n m).0 e))
          (Any-overlap_method a b m t ma mb)

-- The listed methods are methods of the list.
has_method-All : (methods : Text) → All (λ m. has_method methods m ≡ true) (split b',' methods)
unfolding has_method
has_method-All methods = All-of_In _ _ λ m h. any_intro _ _ (Any-map (λ n e. listed m n e) _ h)
  where
    listed : (m n : Text) → m ≡ n → text_eq n m ≡ true
    listed m n e = (text_eq_iff n m).1 (sym e)

overlap_method_sound :
    (a b : Permission) (m : Text)
    → has_method a.method m ≡ true
    → overlap_method a b m ≡ true
    → (t : Text) × (matches a m t ≡ true) × (matches b m t ≡ true)
unfolding overlap_method matches
overlap_method_sound a b m h o = elim (Bool-cases (matches a m b.path)) [
  | inl there ↦ (b.path, there, ground (arith, match_path_self b))
  | inr away ↦ (a.path, ground (arith, match_path_self a), ground arith)
]

-- `Overlap` answers true exactly when some method and path is matched by both permissions.
pub overlap_iff :
    (a b : Permission)
    → (overlap a b ≡ true)
      ↔ ((m : Text) × (t : Text) × (matches a m t ≡ true) × (matches b m t ≡ true))
unfolding overlap
overlap_iff a b = (
  λ h.
      let (m, listed, meets) = All-Any _ (has_method-All a.method) ((any-Any _ _).0 h) in
      let (t, ma, mb) = overlap_method_sound a b m listed meets in (m, t, ma, mb),
  λ (m, t, ma, mb). overlap_complete a b m t ma mb,
)
