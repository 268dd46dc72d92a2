-- ===== src/Requests/Normalize.antt =====
-- internal/requests/types.go: `Normalize` and `ApplicationHeaders`.
use budge.Base.{
  ℕ, ◌+◌, ◌*◌, Bool, true, false, not, ◌&&◌, ◌||◌, Option, none, some, List, [], ◌∷◌, ◌++◌, ltb,
  if◌then◌else◌, length, any, all, select,
}
use budge.Base.Text.{Text, codes, text_eq, equal_fold}
use budge.Access.Syntax.{Url, path, method, slug, target}
use budge.Upstream.Header.{Field, reserved, header_name, header_value, canonical_key}
use budge.Requests.Types.{
  Submission, Service, invalid_submission, invalid_idempotency_key, invalid_query, invalid_header,
  duplicate_header, headers_too_large, header_not_allowed, Outcome, ok, err,
}
use budge.Requests.Environment.{Environment}

-- The first guard of `Normalize`.
unfoldable pub submission_ok : Environment → Submission → Bool
submission_ok env s =
    slug s.service
    && method s.method
    && path s.path
    && env.valid_utf8 s.body
    && not (ltb (64 * 1024) (length s.body))
    && not (ltb (length s.idempotency_key) 1)
    && not (ltb 128 (length s.idempotency_key))

-- The loop over the bytes of the key.
unfoldable pub key_ok : Text → Bool
key_ok key = all (λ c. not (ltb c 33 || ltb 126 c)) key

unfoldable pub header_ok : Field → Bool
header_ok (n, v) = header_name n && header_value v && not (reserved n)

abbrev pub has_field : List Field → Text → Bool
has_field out n = any (λ f. text_eq f.0 n) out

-- The loop over the headers; `out` is the map that it fills.
unfoldable pub collect_headers : List Field → ℕ → List Field → Outcome (List Field)
unfolding header_ok
collect_headers out size [] = if ltb (16 * 1024) size then err headers_too_large else ok out
collect_headers out size ((n, v) ∷ rest) =
    let k = canonical_key n in
    let next = collect_headers (out ++ ((k, v) ∷ [])) (size + (length k + length v)) rest in
    if not (header_ok (n, v))
    then err invalid_header
    else if has_field out k
    then err duplicate_header
    else next

abbrev pub with_headers : Submission → Outcome (List Field) → Outcome Submission
with_headers s (ok out) = ok (record s { headers = out })
with_headers s (err e) = err e

-- The URL that `Normalize` tries the path and the query at.
abbrev pub example_url : Text
example_url = codes "https://example.invalid"

abbrev pub is_none : Option Url → Bool
is_none none = true
is_none (some u) = false

unfoldable pub normalize : Environment → Submission → Outcome Submission
unfolding submission_ok key_ok collect_headers
normalize env s =
    if not (submission_ok env s)
    then err invalid_submission
    else if not (key_ok s.idempotency_key)
    then err invalid_idempotency_key
    else if is_none (target env.parse_url example_url s.path s.query)
    then err invalid_query
    else with_headers s (collect_headers [] 0 s.headers)

-- The guard of the loop of `ApplicationHeaders`.
unfoldable pub header_allowed : Service → Text → Bool
header_allowed svc n =
    any (λ a. equal_fold n a) svc.request_headers && not (equal_fold n svc.auth_header)

-- `h.Set(n, v)`.
unfoldable pub set_field : List Field → Text → Text → List Field
set_field h n v = let k = canonical_key n in select (λ f. not (text_eq f.0 k)) h ++ ((k, v) ∷ [])

-- The loop of `ApplicationHeaders`; `h` is the header that it fills.
unfoldable pub allow_headers : Service → List Field → List Field → Outcome (List Field)
unfolding header_allowed set_field
allow_headers svc h [] = ok h
allow_headers svc h ((n, v) ∷ rest) =
    let next = allow_headers svc (set_field h n v) rest in
    if not (header_allowed svc n) then err header_not_allowed else next

unfoldable pub application_headers : Submission → Service → Outcome (List Field)
unfolding allow_headers
application_headers s svc = allow_headers svc [] s.headers
