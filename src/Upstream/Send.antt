-- ===== src/Upstream/Send.antt =====
-- internal/upstream/http.go: `Send`. What it takes from net/http are parameters: whether
-- `NewRequestWithContext` takes the method and the target, and how the exchange of `Do` ends.
use budge.Base.{
  Bool, true, false, not, Option, none, some, List, [], ◌∷◌, ◌++◌, select, if◌then◌else◌,
}
use budge.Base.Text.{Text, codes, text_eq, contains_byte}
use budge.Upstream.Header.{Field, headers, canonical_key}

-- `h.Set(name, value)`.
unfoldable pub set_header : Text → Text → List Field → List Field
set_header name value fields =
    select (λ (f : Field). not (text_eq f.0 (canonical_key name))) fields
    ++ ((canonical_key name, value) ∷ [])

abbrev basic : (Text → Text) → Text → List Field → Option (List Field)
basic base64 credential fields =
    if contains_byte credential b':'
    then some (set_header (codes "Authorization") (codes "Basic " ++ base64 credential) fields)
    else none

-- The `switch` over the kinds of authentication; `none` is an error. `strings.Cut` finds a user and
-- a password where the credential has a colon, and `SetBasicAuth` puts them together again.
unfoldable pub with_credential :
    (Text → Text) → Text → Text → Text → List Field → Option (List Field)
unfolding set_header
with_credential base64 auth auth_header credential fields =
    if text_eq auth (codes "bearer")
    then some (set_header (codes "Authorization") (codes "Bearer " ++ credential) fields)
    else if text_eq auth (codes "header")
    then some (set_header auth_header credential fields)
    else if text_eq auth (codes "basic")
    then basic base64 credential fields
    else if text_eq auth (codes "none")
    then some fields
    else none

-- How `Do` ends, `got_conn` being whether the trace's `GotConn` ran before.
pub data Trip {ℓ} (A : Type ℓ) : Type ℓ where
  answered : A → Trip A
  broken : (got_conn : Bool) → Trip A

-- What `Send` returns: its error is `ErrNotSent` or another.
pub data Sent {ℓ} (A : Type ℓ) : Type ℓ where
  received : A → Sent A
  err_not_sent : Sent A
  err_other : Sent A

abbrev pub classified {ℓ} : {A : Type ℓ} → Trip A → Sent A
classified (answered a) = received a
classified (broken false) = err_not_sent
classified (broken true) = err_other

abbrev pub sent_with {ℓ} : {A : Type ℓ} → (List Field → Trip A) → Option (List Field) → Sent A
sent_with trip none = err_not_sent
sent_with trip (some fields) = classified (trip fields)

-- `Send`: the request has the filtered fields and the credential.
unfoldable pub send {ℓ} :
    {A : Type ℓ}
    → (Text → Text)
    → Text
    → Text
    → List Text
    → Bool
    → List Field
    → Text
    → (List Field → Trip A)
    → Sent A
unfolding with_credential headers
send base64 auth auth_header allowed valid h credential trip =
    if valid
    then sent_with trip
        (with_credential base64 auth auth_header credential (headers h allowed auth_header))
    else err_not_sent
