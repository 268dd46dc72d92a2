-- ===== src/Upstream/Filter.antt =====
-- What the header filter `Headers` of internal/upstream/http.go lets through.
use budge.Base.{
  ◌≡◌, sym, subst, ◌↔◌, inl, inr, true, false, List, [], ◌∷◌, arith, In, Any, In-append, Bool-cases,
  any,
}
use budge.Base.Text.{Text, text_eq, text_eq_iff, equal_fold}
use budge.Upstream.Header.{
  Field, reserved, header_name, header_value, canonical_key, values, nominated, passes, add_values,
  headers_from, headers,
}

In-values : (src : List Field) (n v : Text) → In v (values src n) ↔ In (n, v) src
unfolding values
In-values [] n v = ground arith
In-values ((m, w) ∷ src) n v = ground (arith, In-values src n v, text_eq_iff m n)

In-add_values :
    (n : Text) (vs : List Text) (m v : Text)
    → In (m, v) (add_values n vs) ↔ ((m ≡ n) × In v vs × (header_value v ≡ true))
In-add_values n [] m v = ground arith
In-add_values n (w ∷ vs) m v = elim (Bool-cases (header_value w)) [
  | inl good ↦ rw good (ground (arith, In-add_values n vs m v))
  | inr bad ↦ rw bad (ground (arith, In-add_values n vs m v))
]

-- What a field of the result has to satisfy, besides standing in the source and being allowed.
pub record IsForwarded (src : List Field) (credential_header n v : Text) : Type 0 where
  pub name_ok : header_name n ≡ true
  pub unreserved : reserved n ≡ false
  pub no_credential : equal_fold n credential_header ≡ false
  pub not_nominated : ¬ In n (nominated src)
  pub value_ok : header_value v ≡ true
  pub sent : In (n, v) src

any-text_eq : (n : Text) (names : List Text) → (any (λ m. text_eq m n) names ≡ true) ↔ In n names
any-text_eq n [] = ground arith
any-text_eq n (m ∷ names) = ground (arith, any-text_eq n names, text_eq_iff m n)

passes-tests :
    (src : List Field) (credential_header n : Text)
    → (passes src credential_header n ≡ true) ↔ (
        (header_name n ≡ true)
        × (reserved n ≡ false)
        × (equal_fold n credential_header ≡ false)
        × (any (λ m. text_eq m n) (nominated src) ≡ false))
unfolding passes
passes-tests src credential_header n = ground arith

not-any : (n : Text) (names : List Text) → (any (λ m. text_eq m n) names ≡ false) ↔ ¬ In n names
not-any n names = ground (arith, any-text_eq n names)

passes_iff :
    (src : List Field) (credential_header n v : Text)
    → ((passes src credential_header n ≡ true) × In (n, v) src × (header_value v ≡ true))
      ↔ IsForwarded src credential_header n v
passes_iff src credential_header n v = (
  λ (p, sent, good).
      let (a, b, c, d) = (passes-tests src credential_header n).0 p in
      record {
        name_ok = a;
        unreserved = b;
        no_credential = c;
        not_nominated = (not-any n (nominated src)).0 d;
        value_ok = good;
        sent = sent;
      },
  λ f. (
    (passes-tests src credential_header n).1
        (f.name_ok, f.unreserved, f.no_credential, (not-any n (nominated src)).1 f.not_nominated),
    f.sent,
    f.value_ok,
  ),
)

-- The fields of one allowed name.
In-passed :
    (src : List Field) (n0 n v : Text)
    → In (n, v) (add_values n0 (values src n0))
      ↔ ((n ≡ n0) × In (n, v) src × (header_value v ≡ true))
In-passed src n0 n v = (
  λ h.
      let (e, there, good) = (In-add_values n0 (values src n0) n v).0 h in
      (e, subst (λ k. In (k, v) src) (sym e) ((In-values src n0 v).0 there), good),
  λ (e, there, good).
      (In-add_values n0 (values src n0) n v).1
        (e, (In-values src n0 v).1 (subst (λ k. In (k, v) src) e there), good),
)

In-headers_from :
    (src : List Field) (credential_header : Text) (allowed : List Text) (n v : Text)
    → In (n, v) (headers_from src credential_header allowed) ↔ (
        Any (λ a. canonical_key a ≡ n) allowed
        × ((passes src credential_header n ≡ true) × In (n, v) src × (header_value v ≡ true)))
unfolding headers_from
In-headers_from src credential_header [] n v = ground arith
In-headers_from src credential_header (name ∷ allowed) n v =
    elim (Bool-cases (passes src credential_header (canonical_key name))) [
      | inl good ↦ rw good (
          ground (
            arith,
            In-append (n, v) (add_values (canonical_key name) (values src (canonical_key name)))
                (headers_from src credential_header allowed),
            In-passed src (canonical_key name) n v,
            In-headers_from src credential_header allowed n v,
          ))
      | inr bad ↦ rw bad (ground (arith, In-headers_from src credential_header allowed n v))
    ]

-- The filter forwards exactly the source's fields whose name is the canonical form of an allowed
-- name, is a valid name, is not reserved, is not the credential's header and is not nominated by a
-- Connection header, and whose value is valid.
pub headers_iff :
    (src : List Field) (allowed : List Text) (credential_header n v : Text)
    → In (n, v) (headers src allowed credential_header)
      ↔ (Any (λ a. canonical_key a ≡ n) allowed × IsForwarded src credential_header n v)
unfolding headers
headers_iff src allowed credential_header n v =
    let (to, from) = In-headers_from src credential_header allowed n v in
    let (into, back) = passes_iff src credential_header n v in
    (λ h. ((to h).0, into (to h).1), λ (a, f). from (a, back f))
