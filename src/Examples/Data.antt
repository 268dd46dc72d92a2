-- ===== src/Examples/Data.antt =====
-- A device that may read below `/docs` by standing permission and write `/docs/a` with approval.
use budge.Base.{arith, true, false, none, some, List, [], ◌∷◌, ◌++◌}
use budge.Base.Text.{codes}
use budge.Access.Syntax.{Url}
use budge.Access.Scope.{Permission, exact, subtree, standing, approval_required}
use budge.Requests.Types.{Submission, Snapshot, Service}
use budge.Requests.Environment.{Environment}
use budge.Server.Lifecycle.{Distinct}
use budge.Store.Tables.{
  Status, pending_approval, queued, completed, Approval, approve, Device, ServiceRow, RequestRow,
  Db,
}

abbrev pub root_url : Url
root_url = record {
  scheme = codes "https";
  hostname = codes "api.test";
  port = [];
  user = false;
  path = [];
  raw_path = [];
  raw_query = [];
  force_query = false;
  fragment = [];
  opaque = [];
}

abbrev pub docs_url : Url
docs_url = record root_url { path = codes "/docs/a" }

abbrev pub docs : Service
docs = record {
  id = codes "docs";
  label = codes "Docs";
  base_url = codes "https://api.test";
  auth = codes "bearer";
  auth_header = codes "Authorization";
  private_cidr = [];
  revision = 1;
  credential = codes "secret";
  request_headers = codes "Accept" ∷ [];
  response_headers = codes "Content-Type" ∷ [];
}

abbrev pub reads : Permission
reads = record {
  id = codes "p1";
  device_id = codes "d1";
  service_id = codes "docs";
  revision = 1;
  method = codes "GET,HEAD";
  path = codes "/docs";
  kind = subtree;
  mode = standing;
  owner = codes "o1";
  expires = none;
}

abbrev pub writes : Permission
writes = record reads {
  id = codes "p2";
  method = codes "POST,PUT";
  path = codes "/docs/a";
  kind = exact;
  mode = approval_required;
  expires = some 900;
}

abbrev pub heads : Permission
heads = record reads {
  id = codes "p3";
  method = codes "HEAD";
  path = codes "/docs/b";
  kind = exact;
}

-- What the owner approves: `PUT /docs/a`.
abbrev pub put_docs : Snapshot
put_docs = record {
  version = 1;
  device_id = codes "d1";
  service_id = codes "docs";
  service_label = codes "Docs";
  revision = 1;
  permission_id = codes "p2";
  credential_ref = codes "service:docs:1";
  url = docs_url;
  method = codes "PUT";
  path = codes "/docs/a";
  headers = [];
  body = codes "new";
  expires = 700;
  private_cidr = [];
}

-- The vault and the hash leave their input as it is; every snapshot reads as `put_docs`.
abbrev pub env : Environment
env = record {
  now = 100;
  new_id = codes "r9";
  nonce = [];
  hash = λ b. b;
  seal = λ n p b. b;
  unseal = λ p b. some b;
  marshal_snapshot = λ s. s.method ++ s.path;
  unmarshal_snapshot = λ b. some put_docs;
  marshal_submission = λ s. s.method ++ s.path;
  marshal_result = λ r. r.body;
  unmarshal_result = λ b. none;
  parse_url = λ b. some root_url;
  parse_prefix = λ b. none;
  valid_utf8 = λ b. true;
  parse_time = λ b. none;
  base64 = λ b. b;
  quoted_length = λ b. 0;
}

abbrev pub get_docs : Submission
get_docs = record {
  service = codes "docs";
  method = codes "GET";
  path = codes "/docs/a";
  query = [];
  headers = (codes "accept", codes "*/*") ∷ [];
  body = [];
  idempotency_key = codes "k9";
}

abbrev pub normal : Submission
normal = record get_docs { headers = (codes "Accept", codes "*/*") ∷ [] }

abbrev pub put_row : Status → RequestRow
put_row status = record {
  id = codes "r1";
  device_id = codes "d1";
  service_id = codes "docs";
  revision = 1;
  permission_id = codes "p2";
  key_hash = codes "k1";
  submission_digest = codes "sha256-v1:PUT/docs/a";
  snapshot_digest = codes "sha256-v1:PUT/docs/a";
  snapshot = some (codes "PUT/docs/a");
  status = status;
  expires = 700;
  finished = none;
  result = none;
  reason = [];
}

-- A request of another device that has ended.
abbrev pub ended_row : RequestRow
ended_row = record (put_row completed) {
  id = codes "r0";
  device_id = codes "d0";
  key_hash = codes "k0";
  finished = some 50;
}

abbrev pub approval : Approval
approval = record {
  request_id = codes "r1";
  owner = codes "o1";
  digest = codes "sha256-v1:PUT/docs/a";
  decision = approve;
}

abbrev pub device : Device
device = record {
  id = codes "d1";
  label = codes "agent";
  revoked = false;
  certificate_serial = codes "01";
  certificate_expires = 1000;
}

abbrev pub docs_row : ServiceRow
docs_row = record { service = docs; enabled = true }

-- The request stands in the table with the status.
abbrev pub tables : Status → List Approval → Db
tables status approvals = record {
  metadata = [];
  owners = record { id = codes "o1"; password_hash = codes "pw" } ∷ [];
  devices = device ∷ [];
  invitations =
      record { hash = codes "invite"; device_id = codes "d1"; expires = 400; used = false } ∷ [];
  services = docs_row ∷ [];
  permissions =
      record { permission = reads; revoked = false }
      ∷ record { permission = writes; revoked = false }
      ∷ [];
  requests = ended_row ∷ put_row status ∷ [];
  approvals = approvals;
  sessions = [];
  audit = [];
  http_events = [];
}

abbrev pub queued_db : Db
queued_db = tables queued (approval ∷ [])

abbrev pub pending_db : Db
pending_db = tables pending_approval []

-- The identifiers of the requests of these tables differ.
pub Distinct-ids : Distinct (codes "r0" ∷ codes "r1" ∷ [])
Distinct-ids = ((λ m. ground (arith, m)), ((λ m. m), tt))
