-- ===== src/Server/Device.antt =====
-- internal/server/server.go: `device` and `DeviceHandler`, `httpAudit`, and the listing `services`;
-- `submit` and `status` of requests.go.
use budge.Base.{
  ℕ, ◌*◌, ◌^◌, Bool, true, false, not, ◌&&◌, Option, none, some, List, [], ◌∷◌, ◌++◌, ltb, leb,
  if◌then◌else◌, length, select,
}
use budge.Base.Text.{Text, codes, text_eq}
use budge.Access.Syntax.{Url, Request, target, route}
use budge.Access.Scope.{Permission, Mode, standing, approval_required}
use budge.Upstream.Header.{Field, canonical_key}
use budge.Upstream.Send.{Trip, Sent, send, received}
use budge.Upstream.Stream.{Round, stream}
use budge.Requests.Types.{Service, Code, http, Outcome, ok, err}
use budge.Requests.Environment.{Environment}
use budge.Store.Tables.{HttpEvent, Db}
use budge.Store.Transaction.{
  Tx, ◌>>=◌, ◌>>◌, return, throw, lift, guard, try_exec, or_throw, audit, begin, commit, transact,
}
use budge.Server.Authorize.{active_device, authorize, or_else}
use budge.Server.Snapshot.{credential_ref}
use budge.Server.Slots.{Slots, acquire, release}
use budge.Server.Handler.{unavailable}

-- The leaf of the verified chain that a client has shown.
pub record Shown : Type 0 where
  pub subject : Text
  pub not_before : ℕ
  pub not_after : ℕ

-- `device`: the clock is in the certificate's validity, and the device is active.
unfoldable pub device_tx : Environment → Option Shown → Tx Text
device_tx env none = throw (http 401 (codes "device_unauthenticated"))
device_tx env (some c) = do
  guard (leb c.not_before env.now && ltb env.now c.not_after) (http 401 (codes "device_revoked"))
  active ← active_device c.subject
  guard active (http 401 (codes "device_revoked"))
  return c.subject

abbrev pub is_standing : Mode → Bool
is_standing standing = true
is_standing approval_required = false

-- What a request may be sent with.
pub record Forward : Type 0 where
  pub service : Service
  pub permission : Permission
  pub url : Url

-- The transaction of `DeviceHandler`.
unfoldable pub forward_tx : Environment → Text → Text → Text → Text → Text → Tx Forward
forward_tx env device service method path raw_query = do
  begin unavailable
  (svc, p) ←
      or_throw (http 403 (codes "permission_denied")) (authorize env.now device service method path)
  guard (is_standing p.mode) (http 403 (codes "approval_required"))
  url ← lift (
      or_else (http 400 (codes "invalid_request"))
        (target env.parse_url svc.base_url path raw_query))
  audit unavailable
      (record { owner = []; device = device; kind = codes "http_claim"; entity = p.id })
  commit unavailable
  return (record { service = svc; permission = p; url = url })

-- A response of the upstream: its status, its fields, and the rounds in which its body is streamed.
pub record Upstream : Type 0 where
  pub status : ℕ
  pub fields : List Field
  pub rounds : List Round

-- The answer of the handler; `aborted` is `panic(http.ErrAbortHandler)` after a part of the body.
pub data Answer : Type 0 where
  failed : Code → Answer
  streamed : (status : ℕ) (fields : List Field) (body : Text) → Answer
  aborted : (status : ℕ) (fields : List Field) (body : Text) → Answer

-- `res.Header.Del(svc.AuthHeader)`.
unfoldable pub delete_header : Text → List Field → List Field
delete_header name fields = select (λ (f : Field). not (text_eq f.0 (canonical_key name))) fields

unfoldable pub insert_http_event : HttpEvent → Db → Db
insert_http_event e db = record db { http_events = db.http_events ++ (e ∷ []) }

-- `httpAudit`, with the milliseconds that have passed: its error is dropped.
unfoldable pub http_audit : Text → Forward → Text → ℕ → ℕ → ℕ → ℕ → List Bool → Db → Db
unfolding insert_http_event
http_audit device f method status elapsed req res faults db =
    (transact
      (try_exec (
        insert_http_event (record {
          device_id = device;
          service_id = f.service.id;
          permission_id = f.permission.id;
          method = method;
          status = status;
          duration_ms = elapsed;
          request_bytes = req;
          response_bytes = res;
        })))
      faults db).1

-- What the handler leaves: its answer, the tables, and with which grant and secret `Send` was called,
-- if it was.
pub record Served : Type 0 where
  pub answer : Answer
  pub db : Db
  pub sent : Option (Forward × Text)

abbrev pub finished : Bool → ℕ → List Field → Text → Answer
finished true status fields body = streamed status fields body
finished false status fields body = aborted status fields body

-- The part of the request that the handler reads after the routes of the devices' own pages; `body`
-- is `none` where reading it fails.
pub record Incoming : Type 0 where
  pub request : Request
  pub raw_query : Text
  pub fields : List Field
  pub body : Option Text

-- After `Send`. `faults` are those of `httpAudit`.
unfoldable pub answered :
    Text → Text → Text → Forward → Text → ℕ → List Bool → Db → Sent Upstream → Served
unfolding http_audit delete_header stream
answered device method body f secret elapsed faults db (received r) =
    let (fields, s) =
      stream (delete_header f.service.auth_header r.fields) f.service.response_headers r.rounds in
    record {
      answer = finished s.complete r.status fields s.written;
      db = http_audit device f method r.status elapsed (length body) s.total faults db;
      sent = some (f, secret);
    }
answered device method body f secret elapsed faults db e = record {
  answer = failed (http 502 (codes "upstream_unavailable"));
  db = http_audit device f method 502 elapsed (length body) 0 faults db;
  sent = some (f, secret);
}

-- The upstream: whether `NewRequestWithContext` takes the method and the target, and the exchange of
-- a request with some fields.
pub record Outside : Type 0 where
  pub valid : Forward → Bool
  pub trip : Forward → List Field → Trip Upstream

-- The call of `Send`.
abbrev pub exchange_of : Environment → Outside → List Field → Forward → Text → Sent Upstream
exchange_of env out fields f secret =
    send env.base64 f.service.auth f.service.auth_header f.service.request_headers (out.valid f)
      fields secret (out.trip f)

-- After the transaction.
abbrev pub after_commit :
    Environment
    → Text
    → Text
    → Text
    → (Forward → Text → Sent Upstream)
    → ℕ
    → List Bool
    → Outcome Forward × Db
    → Served
after_commit env device method body exchange elapsed faults (err e, db) = record {
  answer = failed e;
  db = db;
  sent = none;
}
after_commit env device method body exchange elapsed faults (ok f, db) =
    elim (env.unseal (credential_ref f.service.id f.service.revision) f.service.credential) [
      | none ↦ record {
        answer = failed (http 500 (codes "credential_unavailable"));
        db = db;
        sent = none;
      }
      | some secret ↦ answered device method body f secret elapsed faults db (exchange f secret)
    ]

abbrev pub after_body :
    Environment
    → Text
    → Text
    → Text
    → Incoming
    → Option Text
    → (Forward → Text → Sent Upstream)
    → ℕ
    → List Bool
    → List Bool
    → Db
    → Served
after_body env device service path r none exchange elapsed faults faults' db = record {
  answer = failed (http 413 (codes "body_too_large"));
  db = db;
  sent = none;
}
after_body env device service path r (some body) exchange elapsed faults faults' db =
    after_commit env device r.request.method body exchange elapsed faults'
      (transact (forward_tx env device service r.request.method path r.raw_query) faults db)

-- `http.MaxBytesReader(w, r.Body, 8<<20)`.
abbrev pub limited : Option Text → Option Text
limited none = none
limited (some body) = if ltb (8 * 2 ^ 20) (length body) then none else some body

abbrev pub after_route :
    Environment
    → Text
    → Incoming
    → Option (Text × Text)
    → (Forward → Text → Sent Upstream)
    → ℕ
    → List Bool
    → List Bool
    → Slots × Db
    → Served × Slots
after_route env device r none exchange elapsed faults faults' (slots, db) =
    (record { answer = failed (http 400 (codes "invalid_request")); db = db; sent = none }, slots)
after_route env device r (some (service, path)) exchange elapsed faults faults' (slots, db) =
    let (free, held) = acquire slots device in
    if free
    then (
      after_body env device service path r (limited r.body) exchange elapsed faults faults' db,
      release held device,
    )
    else (record { answer = failed (http 429 (codes "overloaded")); db = db; sent = none }, slots)

-- `DeviceHandler` for `/s/{service}/{path}`, of a device that is authenticated. The slots are those
-- before the call and after it, with no other call between.
unfoldable pub handle_forward :
    Environment
    → Text
    → Incoming
    → Outside
    → ℕ
    → List Bool
    → List Bool
    → Slots × Db
    → Served × Slots
unfolding route acquire release forward_tx answered send
handle_forward env device r out elapsed faults faults' s =
    after_route env device r (route r.request) (exchange_of env out r.fields) elapsed faults faults'
      s
