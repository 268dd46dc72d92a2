-- ===== src/Server/Submit.antt =====
-- internal/server/requests.go: `Submit`, and the statuses that `submit` answers with.
use budge.Base.{
  ℕ, ◌+◌, Bool, not, ◌&&◌, ◌||◌, Option, none, some, List, [], ◌∷◌, ◌++◌, leb, ltb, if◌then◌else◌,
  find, select, length, any,
}
use budge.Base.Text.{Text, codes, text_eq}
use budge.Access.Syntax.{Url, target}
use budge.Access.Scope.{Permission, Mode, standing, approval_required}
use budge.Upstream.Header.{Field}
use budge.Requests.Types.{
  Submission, Snapshot, Service, Code, storage_unavailable, permission_denied, idempotency_conflict,
  invalid_target, pending_limit,
}
use budge.Requests.Environment.{Environment, digest, submission_digest}
use budge.Requests.Normalize.{normalize, application_headers}
use budge.Store.Tables.{Status, pending_approval, queued, is_pending, RequestRow, Db}
use budge.Store.Transaction.{
  Tx, ◌>>=◌, ◌>>◌, return, throw, lift, guard, query, exec_checked, or_throw, audit, begin, commit,
}
use budge.Server.Authorize.{active_device, authorize, or_else}
use budge.Server.Snapshot.{request_purpose, credential_ref}

-- `SELECT id,submission_digest FROM requests WHERE device_id=? AND key_hash=?`.
abbrev pub has_key : Text → Text → RequestRow → Bool
has_key device key_hash r = text_eq r.device_id device && text_eq r.key_hash key_hash

unfoldable pub request_by_key : Text → Text → Db → Option RequestRow
request_by_key device key_hash db = find (has_key device key_hash) db.requests

-- `SELECT count(*) … WHERE device_id=? AND status='pending_approval' AND expires>?`.
abbrev pub awaits_decision : ℕ → Text → RequestRow → Bool
awaits_decision now device r =
    text_eq r.device_id device && is_pending r.status && ltb now r.expires

unfoldable pub pending_count : ℕ → Text → Db → ℕ
pending_count now device db = length (select (awaits_decision now device) db.requests)

-- A row that the primary key or UNIQUE(device_id,key_hash) does not let in beside `row`.
abbrev pub conflicts : RequestRow → RequestRow → Bool
conflicts row r = text_eq r.id row.id || has_key row.device_id row.key_hash r

-- `INSERT INTO requests`, which the primary key or UNIQUE(device_id,key_hash) may refuse.
unfoldable pub insert_request : RequestRow → Db → Option Db
insert_request row db =
    if any (conflicts row) db.requests
    then none
    else some (record db { requests = db.requests ++ (row ∷ []) })

abbrev pub initial_status : Mode → Status
initial_status standing = queued
initial_status approval_required = pending_approval

abbrev pub lifetime : Mode → ℕ
lifetime standing = 60
lifetime approval_required = 600

-- The limit of requests that wait for a decision.
abbrev pub below_limit : Environment → Text → Mode → Tx (Unit {0})
below_limit env device standing = return tt
below_limit env device approval_required = do
  n ← query storage_unavailable (pending_count env.now device)
  guard (not (leb 20 n)) pending_limit

-- The snapshot that `Submit` stores.
unfoldable pub new_snapshot :
    Environment → Text → Submission → Service → Permission → List Field → Url → Snapshot
unfolding credential_ref
new_snapshot env device s svc p headers url = record {
  version = 1;
  device_id = device;
  service_id = svc.id;
  service_label = svc.label;
  revision = svc.revision;
  permission_id = p.id;
  credential_ref = credential_ref svc.id svc.revision;
  url = url;
  method = s.method;
  path = s.path;
  headers = headers;
  body = s.body;
  expires = env.now + lifetime p.mode;
  private_cidr = svc.private_cidr;
}

unfoldable pub new_request :
    Environment → Text → Submission → Service → Permission → Snapshot → RequestRow
unfolding digest submission_digest
new_request env device s svc p snap =
    let b = env.marshal_snapshot snap in
    record {
      id = env.new_id;
      device_id = device;
      service_id = svc.id;
      revision = svc.revision;
      permission_id = p.id;
      key_hash = env.hash s.idempotency_key;
      submission_digest = submission_digest env s;
      snapshot_digest = digest env b;
      snapshot = some (env.seal env.nonce (request_purpose env.new_id) b);
      status = initial_status p.mode;
      expires = env.now + lifetime p.mode;
      finished = none;
      result = none;
      reason = [];
    }

abbrev pub submitted : Mode → Text
submitted standing = codes "request_queued"
submitted approval_required = codes "request_pending_approval"

-- The part of `Submit` after the look-up by key has found no row.
unfoldable pub create_request : Environment → Text → Submission → Tx Text
unfolding pending_count insert_request new_snapshot new_request
create_request env device s = do
  (svc, p) ← or_throw permission_denied (authorize env.now device s.service s.method s.path)
  headers ← lift (application_headers s svc)
  url ← lift (or_else invalid_target (target env.parse_url svc.base_url s.path s.query))
  below_limit env device p.mode
  let row = new_request env device s svc p (new_snapshot env device s svc p headers url)
  exec_checked storage_unavailable (insert_request row)
  audit storage_unavailable
      (record { owner = []; device = device; kind = submitted p.mode; entity = env.new_id })
  commit storage_unavailable
  return env.new_id

-- A row with the same key: the same submission is answered with its identifier.
abbrev pub resume : Environment → Text → Submission → Option RequestRow → Tx Text
resume env device s none = create_request env device s
resume env device s (some row) =
    if text_eq (submission_digest env s) row.submission_digest
    then return row.id
    else throw idempotency_conflict

unfoldable pub submit_tx : Environment → Text → Submission → Tx Text
unfolding request_by_key
submit_tx env device given = do
  s ← lift (normalize env given)
  begin storage_unavailable
  active ← active_device device
  guard active permission_denied
  found ← query storage_unavailable (request_by_key device (env.hash s.idempotency_key))
  resume env device s found

-- The HTTP status of the error of `Submit`, in `submit`.
unfoldable pub submit_status : Code → ℕ
submit_status idempotency_conflict = 409
submit_status permission_denied = 403
submit_status pending_limit = 429
submit_status _ = 400
