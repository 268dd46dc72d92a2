-- ===== src/Server/Snapshot.antt =====
-- internal/server/requests.go: `snapshot` and `validSnapshot`.
use budge.Base.{ℕ, Bool, not, ◌&&◌, Option, none, some, [], ◌++◌, leb, ◌==◌, if◌then◌else◌, find}
use budge.Base.Text.{Text, codes, text_eq, itoa}
use budge.Access.Syntax.{Url, target}
use budge.Access.Scope.{Permission}
use budge.Requests.Types.{
  Snapshot, Service, sql_error, snapshot_integrity_failed, authorization_changed_or_expired,
  Outcome, ok, err,
}
use budge.Requests.Environment.{Environment, digest}
use budge.Store.Tables.{RequestRow, has_id, Db}
use budge.Store.Transaction.{Tx, ◌>>=◌, ◌>>◌, lift, guard, query, or_throw}
use budge.Server.Authorize.{authorize, or_else}

-- `SELECT … FROM requests WHERE id=?`.
unfoldable pub request_row : Text → Db → Option RequestRow
request_row id db = find (has_id id) db.requests

-- The purposes under which the vault seals.
abbrev pub request_purpose : Text → Text
request_purpose id = codes "request:" ++ id

abbrev pub result_purpose : Text → Text
result_purpose id = codes "result:" ++ id

unfoldable pub credential_ref : Text → ℕ → Text
credential_ref service revision = codes "service:" ++ (service ++ (codes ":" ++ itoa revision))

-- The columns that the snapshot repeats.
unfoldable pub same_columns : Snapshot → RequestRow → Bool
unfolding credential_ref
same_columns snap row =
    snap.version == 1
    && text_eq snap.device_id row.device_id
    && text_eq snap.service_id row.service_id
    && text_eq snap.permission_id row.permission_id
    && snap.revision == row.revision
    && snap.expires == row.expires
    && text_eq snap.credential_ref (credential_ref row.service_id row.revision)

abbrev pub text_of : Option Text → Text
text_of none = []
text_of (some b) = b

abbrev decoded : Option Snapshot → RequestRow → Outcome Snapshot
decoded none row = err sql_error
decoded (some snap) row = if same_columns snap row then ok snap else err snapshot_integrity_failed

abbrev opened : Environment → Option Text → RequestRow → Outcome Snapshot
opened env none row = err snapshot_integrity_failed
opened env (some b) row =
    if text_eq (digest env b) row.snapshot_digest
    then decoded (env.unmarshal_snapshot b) row
    else err snapshot_integrity_failed

-- The checks of `snapshot` on the row that it read.
unfoldable pub open_snapshot : Environment → RequestRow → Outcome Snapshot
unfolding same_columns
open_snapshot env row = opened env (env.unseal (request_purpose row.id) (text_of row.snapshot)) row

-- `snapshot`.
unfoldable pub snapshot : Environment → Text → Tx Snapshot
unfolding request_row open_snapshot
snapshot env id = do
  found ← query sql_error (request_row id)
  row ← lift (or_else sql_error found)
  lift (open_snapshot env row)

-- The first guard of `validSnapshot`.
unfoldable pub still_authorized : ℕ → Snapshot → Service → Permission → Bool
still_authorized now snap svc p =
    svc.revision == snap.revision && text_eq p.id snap.permission_id && not (leb snap.expires now)

-- Equality of URLs in the form in which `Target` prints them.
unfoldable pub same_url : Url → Url → Bool
same_url u v =
    text_eq u.scheme v.scheme
    && text_eq u.hostname v.hostname
    && text_eq u.port v.port
    && text_eq u.path v.path
    && text_eq u.raw_query v.raw_query

abbrev pub same_target : Snapshot → Service → Option Url → Outcome Service
same_target snap svc none = err snapshot_integrity_failed
same_target snap svc (some u) =
    if same_url u snap.url && text_eq snap.private_cidr svc.private_cidr
    then ok svc
    else err snapshot_integrity_failed

-- `validSnapshot`.
unfoldable pub valid_snapshot : Environment → Snapshot → Tx Service
unfolding authorize still_authorized same_url
valid_snapshot env snap = do
  (svc, p) ←
      or_throw authorization_changed_or_expired
        (authorize env.now snap.device_id snap.service_id snap.method snap.path)
  guard (still_authorized env.now snap svc p) authorization_changed_or_expired
  lift (same_target snap svc (target env.parse_url svc.base_url snap.path snap.url.raw_query))
