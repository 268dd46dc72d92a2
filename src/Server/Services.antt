-- ===== src/Server/Services.antt =====
-- internal/server/owner.go: `addService` and `headerList`; `CIDR` of internal/access/access.go.
use budge.Base.{
  ℕ, suc, Bool, true, false, not, ◌&&◌, ◌||◌, Option, none, some, List, [], ◌∷◌, ◌++◌, ltb, ◌==◌,
  if◌then◌else◌, any, find, update, length,
}
use budge.Base.Text.{Text, codes, text_eq, split, contains_byte, equal_fold}
use budge.Access.Syntax.{slug, base}
use budge.Upstream.Header.{reserved, header_name, header_value, canonical_key, trim_space}
use budge.Requests.Types.{
  Service, sql_error, storage_unavailable, not_found, invalid_service, invalid_credential,
  invalid_header_list, invalid_cidr, Outcome, ok, err,
}
use budge.Requests.Environment.{AddressPrefix, Environment}
use budge.Store.Tables.{ServiceRow, Db}
use budge.Store.Transaction.{
  Tx, ◌>>=◌, ◌>>◌, return, lift, guard, query, exec, exec_checked, audit, begin, commit,
}
use budge.Server.Authorize.{or_else}
use budge.Server.Snapshot.{credential_ref}
use budge.Server.Maintenance.{service_id, cancel_requests}

-- The form of `/service` and `/service-revise`; `revise` tells them apart.
pub record ServiceForm : Type 0 where
  pub revise : Bool
  pub id : Text
  pub label : Text
  pub base_url : Text
  pub auth : Text
  pub credential : Text
  pub auth_header : Text
  pub request_headers : Text
  pub response_headers : Text
  pub private_cidr : Text

abbrev private_prefix : Option AddressPrefix → Bool
private_prefix none = false
private_prefix (some p) = p.private && not (ltb p.bits 8)

-- `CIDR`.
unfoldable pub cidr : Environment → Text → Bool
cidr env [] = true
cidr env (c ∷ s) = private_prefix (env.parse_prefix (c ∷ s))

abbrev empty : Text → Bool
empty [] = true
empty (c ∷ s) = false

-- The `switch` over the kinds of authentication: the credential that is stored.
unfoldable pub stored_credential : Text → Text → Text → Outcome Text
stored_credential auth credential header =
    if text_eq auth (codes "none")
    then ok []
    else if text_eq auth (codes "bearer")
    then (if empty credential then err invalid_credential else ok credential)
    else if text_eq auth (codes "header")
    then (if empty credential || not (header_name header) || reserved header
        then err invalid_credential
        else ok credential)
    else if text_eq auth (codes "basic")
    then (if contains_byte credential b':' then ok credential else err invalid_credential)
    else err invalid_credential

-- The loop of `headerList`; `out` holds what the map `seen` holds.
unfoldable pub collect_names : Text → List Text → List Text → Outcome (List Text)
collect_names credential out [] = ok out
collect_names credential out (n ∷ names) =
    let k = canonical_key (trim_space n) in
    let next =
      collect_names credential (if any (λ m. text_eq m k) out then out else out ++ (k ∷ []))
        names in
    if not (header_name k) || reserved k || equal_fold k credential
    then err invalid_header_list
    else next

unfoldable pub header_list : Text → List Text → Text → Outcome (List Text)
unfolding collect_names
header_list [] defaults credential = collect_names credential [] defaults
header_list (c ∷ raw) defaults credential = collect_names credential [] (split b',' (c ∷ raw))

-- `INSERT INTO services`, which the primary key may refuse.
unfoldable pub insert_service : Service → Db → Option Db
insert_service svc db =
    if any (λ (s : ServiceRow). text_eq s.id svc.id) db.services
    then none
    else some
        (record db { services = db.services ++ (record { service = svc; enabled = true } ∷ []) })

-- `UPDATE services SET …,revision=?,enabled=1 WHERE id=?`.
unfoldable pub revise_service : Service → Db → Db
revise_service svc db = record db {
  services =
      update (λ (s : ServiceRow). text_eq s.id svc.id)
        (λ s. record { service = svc; enabled = true }) db.services;
}

abbrev revision_of : Option ServiceRow → Option ℕ
revision_of none = none
revision_of (some s) = some s.revision

-- `SELECT revision FROM services WHERE id=?`.
unfoldable pub service_revision : Text → Db → Option ℕ
service_revision id db = revision_of (find (λ (s : ServiceRow). text_eq s.id id) db.services)

-- The revision that is written: 1, or the next of the service.
abbrev pub next_revision : ServiceForm → Bool → Tx ℕ
next_revision f false = return 1
next_revision f true = do
  found ← query not_found (service_revision f.id)
  revision ← lift (or_else not_found found)
  return (suc revision)

abbrev saved_kind : Bool → Text
saved_kind false = codes "service_created"
saved_kind true = codes "service_revised"

abbrev pub write_service : Service → Tx (Unit {0})
write_service svc =
    if svc.revision == 1
    then exec_checked invalid_service (insert_service svc)
    else exec invalid_service (revise_service svc)

abbrev pub cancel_revised : Environment → Service → Tx (Unit {0})
cancel_revised env svc =
    if ltb 1 svc.revision
    then cancel_requests env service_id svc.id (codes "service_revised")
    else return tt

-- The statements of `addService` once its fields are checked.
unfoldable pub save_service : Environment → Text → Bool → Service → Tx (Unit {0})
unfolding insert_service revise_service
save_service env owner revise svc = do
  write_service svc
  cancel_revised env svc
  audit sql_error (record { owner = owner; device = []; kind = saved_kind revise; entity = svc.id })
  commit sql_error

unfoldable pub add_service_tx : Environment → Text → ServiceForm → Tx (Unit {0})
unfolding cidr stored_credential header_list service_revision save_service
add_service_tx env owner f = do
  guard (slug f.id && not (ltb 100 (length f.label))) invalid_service
  parsed ← lift (or_else invalid_service (base env.parse_url f.base_url))
  guard (header_value f.credential) invalid_credential
  credential ← lift (stored_credential f.auth f.credential (canonical_key f.auth_header))
  let header = if text_eq f.auth (codes "header") then canonical_key f.auth_header else []
  requests ←
      lift (header_list f.request_headers (codes "Accept" ∷ codes "Content-Type" ∷ []) header)
  responses ← lift (
      header_list f.response_headers
        (codes "Content-Type" ∷ codes "Content-Encoding" ∷ codes "Retry-After" ∷ []) header)
  guard (cidr env f.private_cidr) invalid_cidr
  begin storage_unavailable
  revision ← next_revision f f.revise
  save_service env owner f.revise (record {
    id = f.id;
    label = f.label;
    base_url = f.base_url;
    auth = f.auth;
    auth_header = header;
    private_cidr = f.private_cidr;
    revision = revision;
    credential = env.seal env.nonce (credential_ref f.id revision) credential;
    request_headers = requests;
    response_headers = responses;
  })
