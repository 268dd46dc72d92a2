-- ===== src/Requests/Normal.antt =====
-- What `Normalize` returns.
use budge.Base.{
  arith, ℕ, ◌+◌, ◌*◌, ◌≤◌, ◌≡◌, refl, sym, ap, subst, ◌∙◌, inl, inr, true, false, List, [], ◌∷◌,
  ◌++◌, length, ltb, ltb_iff, Bool-cases, Bool-ext,
}
use budge.Base.Text.{Text, text_eq, text_eq_iff}
use budge.Access.Syntax.{path, method, slug, target}
use budge.Upstream.Header.{Field, header_value, canonical_key}
use budge.Requests.Types.{
  Submission, invalid_submission, invalid_idempotency_key, invalid_query, invalid_header,
  duplicate_header, headers_too_large, Outcome, ok, err,
}
use budge.Requests.Environment.{Environment}
use budge.Requests.Normalize.{
  is_none, with_headers, example_url, submission_ok, key_ok, header_ok, has_field, collect_headers,
  normalize,
}

-- The bytes of the names and the values.
abbrev pub fields_size : List Field → ℕ
fields_size [] = 0
fields_size ((n, v) ∷ fs) = length n + length v + fields_size fs

-- Each name stands once, and each value is valid.
abbrev pub IsClean : List Field → Type 0
IsClean [] = Unit
IsClean ((n, v) ∷ fs) = (has_field fs n ≡ false) × (header_value v ≡ true) × IsClean fs

text_eq_comm : (s t : Text) → text_eq s t ≡ text_eq t s
text_eq_comm s t =
    Bool-ext (text_eq s t) (text_eq t s) (λ h. (text_eq_iff t s).1 (sym ((text_eq_iff s t).0 h)))
      (λ h. (text_eq_iff s t).1 (sym ((text_eq_iff t s).0 h)))

IsClean-snoc :
    (fs : List Field) (n v : Text)
    → IsClean fs
    → has_field fs n ≡ false
    → header_value v ≡ true
    → IsClean (fs ++ ((n, v) ∷ []))
IsClean-snoc [] n v c h k = (refl, k, tt)
IsClean-snoc ((m, w) ∷ fs) n v (o, q, c) h k =
    (absent fs o (ground (arith, h)), q, IsClean-snoc fs n v c (ground (arith, h)) k)
  where
    absent :
        (l : List Field)
        → has_field l m ≡ false
        → text_eq m n ≡ false
        → has_field (l ++ ((n, v) ∷ [])) m ≡ false
    absent [] a b = ground (arith, b, text_eq_comm n m)
    absent ((x, y) ∷ l) a b = ground (arith, a, absent l (ground (arith, a)) b)

fields_size-append :
    (fs : List Field) (n v : Text)
    → fields_size (fs ++ ((n, v) ∷ [])) ≡ fields_size fs + (length n + length v)
fields_size-append [] n v = ground arith
fields_size-append ((m, w) ∷ fs) n v = ground (arith, fields_size-append fs n v)

abbrev small : ℕ
small = 16 * 1024

collect_headers-IsClean :
    (out : List Field) (size : ℕ) (fs res : List Field)
    → IsClean out
    → fields_size out ≡ size
    → collect_headers out size fs ≡ ok res
    → IsClean res × (fields_size res ≤ small)
unfolding collect_headers header_ok
collect_headers-IsClean out size [] res c e h = elim (Bool-cases (ltb small size)) [
  | inl big ↦ let q : err headers_too_large ≡ ok res = rw (collect_headers, big) at h in cc
  | inr fits ↦
      let q : ok out ≡ ok res = rw (collect_headers, fits) at h in
      let same : out ≡ res = ground arith in
      (
        subst IsClean same c,
        subst (λ l. fields_size l ≤ small) same (ground (arith, e, fits, ltb_iff small size)),
      )
]
collect_headers-IsClean out size ((n, v) ∷ fs) res c e h = elim (Bool-cases (header_ok (n, v))) [
  | inr bad ↦
      let q : ◌≡◌ {A = Outcome (List Field)} (err invalid_header) (ok res) =
        rw (collect_headers, bad) at h in
      cc
  | inl good ↦ elim (Bool-cases (has_field out (canonical_key n))) [
    | inl twice ↦
        let q : ◌≡◌ {A = Outcome (List Field)} (err duplicate_header) (ok res) =
          rw (collect_headers, good, twice) at h in
        cc
    | inr new ↦
        collect_headers-IsClean (out ++ ((canonical_key n, v) ∷ []))
          (size + (length (canonical_key n) + length v)) fs res
          (IsClean-snoc out (canonical_key n) v c new (ground (arith, good)))
          (fields_size-append out (canonical_key n) v
            ∙ ap (λ k. k + (length (canonical_key n) + length v)) e)
          (rw (collect_headers, good, new) at h)
  ]
]

-- The fields of a submission that `Normalize` accepts.
abbrev pub IsNormal : Submission → Type 0
IsNormal s =
    (slug s.service ≡ true)
    × (method s.method ≡ true)
    × (path s.path ≡ true)
    × (key_ok s.idempotency_key ≡ true)
    × (length s.body ≤ 64 * 1024)
    × (1 ≤ length s.idempotency_key)
    × (length s.idempotency_key ≤ 128)
    × IsClean s.headers
    × (fields_size s.headers ≤ 16 * 1024)

accepted :
    (env : Environment) (given : Submission) (res : List Field)
    → submission_ok env given ≡ true
    → key_ok given.idempotency_key ≡ true
    → IsClean res × (fields_size res ≤ small)
    → IsNormal (record given { headers = res })
unfolding submission_ok
accepted env given res good key (clean, size) = (
  ground (arith, good),
  ground (arith, good),
  ground (arith, good),
  key,
  ground (arith, good, ltb_iff (64 * 1024) (length given.body)),
  ground (arith, good, ltb_iff (length given.idempotency_key) 1),
  ground (arith, good, ltb_iff 128 (length given.idempotency_key)),
  clean,
  size,
)

with_headers-IsNormal :
    (env : Environment) (given s : Submission) (o : Outcome (List Field))
    → submission_ok env given ≡ true
    → key_ok given.idempotency_key ≡ true
    → collect_headers [] 0 given.headers ≡ o
    → with_headers given o ≡ ok s
    → (s ≡ record given { headers = s.headers }) × IsNormal s
with_headers-IsNormal env given s (err x) good key e h = cc
with_headers-IsNormal env given s (ok res) good key e h =
    let same : record given { headers = res } ≡ s = ground arith in
    subst (λ (x : Submission). (x ≡ record given { headers = x.headers }) × IsNormal x) same
      (
        refl,
        accepted env given res good key (collect_headers-IsClean [] 0 given.headers res tt refl e),
      )

-- What `Normalize` returns is the submission with other headers. Its service, method, path and key
-- are valid, its body has 64 KiB at most and its key 1 to 128 bytes; no header name stands twice,
-- each header value is valid, and the names and values have 16 KiB at most.
pub normalize-IsNormal :
    (env : Environment) (given s : Submission)
    → normalize env given ≡ ok s
    → (s ≡ record given { headers = s.headers }) × IsNormal s
unfolding normalize
normalize-IsNormal env given s h = elim (Bool-cases (submission_ok env given)) [
  | inr bad ↦
      let q : ◌≡◌ {A = Outcome Submission} (err invalid_submission) (ok s) =
        rw (normalize, bad) at h in
      cc
  | inl good ↦ elim (Bool-cases (key_ok given.idempotency_key)) [
    | inr bad ↦
        let q : ◌≡◌ {A = Outcome Submission} (err invalid_idempotency_key) (ok s) =
          rw (normalize, good, bad) at h in
        cc
    | inl key ↦
        elim (Bool-cases (is_none (target env.parse_url example_url given.path given.query))) [
          | inl bad ↦
              let q : ◌≡◌ {A = Outcome Submission} (err invalid_query) (ok s) =
                rw (normalize, good, key, bad) at h in
              cc
          | inr aimed ↦
              with_headers-IsNormal env given s (collect_headers [] 0 given.headers) good key refl
                (rw (normalize, good, key, aimed) at h)
        ]
  ]
]
