-- ===== src/Server/HeaderLists.antt =====
-- The header lists that `headerList` stores.
use budge.Base.{
  arith, ◌≡◌, sym, subst, inl, inr, true, false, not, ◌||◌, List, [], ◌∷◌, ◌++◌, All, In, In-append,
  any, any-Any, Any-map, Bool-cases,
}
use budge.Base.Text.{Text, text_eq, text_eq_iff, split, equal_fold}
use budge.Upstream.Header.{reserved, header_name, canonical_key, trim_space}
use budge.Requests.Types.{Outcome, ok, err, invalid_header_list}
use budge.Server.Lifecycle.{Distinct}
use budge.Server.Services.{collect_names, header_list}

-- A name that an application may pass on beside the credential's header.
pub record IsSafeName (credential name : Text) : Type 0 where
  pub valid : header_name name ≡ true
  pub free : reserved name ≡ false
  pub other : equal_fold name credential ≡ false

pub Distinct-snoc : (l : List Text) (k : Text) → Distinct l → ¬ In k l → Distinct (l ++ (k ∷ []))
Distinct-snoc [] k d out = ((λ m. m), tt)
Distinct-snoc (x ∷ l) k (o, d) out = (
  (λ m. elim ((In-append x l (k ∷ [])).0 m) [
    | inl i ↦ o i
    | inr j ↦ elim j [ inl e ↦ out (inl (sym e)) | inr z ↦ z ]
  ]),
  Distinct-snoc l k d (λ m. out (inr m)),
)

All-snoc : (P : Text → Type 0) (l : List Text) (k : Text) → All P l → P k → All P (l ++ (k ∷ []))
All-snoc P [] k h p = (p, tt)
All-snoc P (x ∷ l) k (q, h) p = (q, All-snoc P l k h p)

pub any-In : (l : List Text) (k : Text) → any (λ m. text_eq m k) l ≡ false → ¬ In k l
any-In l k h m =
    let t = (any-Any (λ x. text_eq x k) l).1 (Any-map (λ x e. (text_eq_iff x k).1 (sym e)) l m) in
    cc

collect_names-IsSafeName :
    (credential : Text) (out names res : List Text)
    → All (IsSafeName credential) out
    → Distinct out
    → collect_names credential out names ≡ ok res
    → All (IsSafeName credential) res × Distinct res
unfolding collect_names
collect_names-IsSafeName credential out [] res safe d h =
    let e : out ≡ res = ground arith in
    (subst (All (IsSafeName credential)) e safe, subst Distinct e d)
collect_names-IsSafeName credential out (n ∷ names) res safe d h =
    elim (Bool-cases (not (header_name k) || reserved k || equal_fold k credential)) [
      | inl bad ↦
          let q : ◌≡◌ {A = Outcome (List Text)} (err invalid_header_list) (ok res) =
            rw (collect_names, bad) at h in
          cc
      | inr good ↦ elim (Bool-cases (any (λ m. text_eq m k) out)) [
        | inl old ↦
            let q : collect_names credential out names ≡ ok res =
              rw (collect_names, good, old) at h in
            collect_names-IsSafeName credential out names res safe d q
        | inr new ↦
            let q : collect_names credential (out ++ (k ∷ [])) names ≡ ok res =
              rw (collect_names, good, new) at h in
            collect_names-IsSafeName credential (out ++ (k ∷ [])) names res
              (All-snoc (IsSafeName credential) out k safe (kept good))
              (Distinct-snoc out k d (any-In out k new)) q
      ]
    ]
  where
    k : Text
    k = canonical_key (trim_space n)

    kept :
        (not (header_name k) || reserved k || equal_fold k credential) ≡ false
        → IsSafeName credential k
    kept g = record {
      valid = ground (arith, g);
      free = ground (arith, g);
      other = ground (arith, g);
    }

-- The list that `headerList` makes of a raw list or of the defaults has valid names only, none of
-- them reserved, equal to the credential's header or twice in the list.
pub header_list-IsSafeName :
    (raw credential : Text) (defaults res : List Text)
    → header_list raw defaults credential ≡ ok res
    → All (IsSafeName credential) res × Distinct res
unfolding header_list
header_list-IsSafeName [] credential defaults res h =
    collect_names-IsSafeName credential [] defaults res tt tt h
header_list-IsSafeName (c ∷ raw) credential defaults res h =
    collect_names-IsSafeName credential [] (split b',' (c ∷ raw)) res tt tt h
