-- ===== src/Server/Dispatch.antt =====
-- internal/server/requests.go: `dispatch`, `finish` and `finishTx`.
-- A dispatch is a transaction that claims the request, the exchange with the upstream, and a
-- transaction that records the outcome; other operations may run between them.
use budge.Base.{
  ℕ, ◌+◌, ◌*◌, ◌/◌, ◌^◌, Bool, true, false, not, ◌&&◌, Option, none, some, List, [], ◌++◌, leb, ltb,
  ◌==◌, if◌then◌else◌, update, find, select, length, take,
}
use budge.Base.Text.{Text, codes, text_eq}
use budge.Access.Scope.{Mode, standing, approval_required}
use budge.Upstream.Header.{Field, headers}
use budge.Requests.Types.{Snapshot, Service, Result, sql_error}
use budge.Requests.Environment.{Environment}
use budge.Store.Tables.{
  Status, dispatching, completed, failed, outcome_unknown, cancelled, is_queued, Decision, approve,
  deny, RequestRow, has_id, PermissionRow, Approval, Event, Db,
}
use budge.Store.Transaction.{
  Tx, ◌>>=◌, ◌>>◌, return, lift, guard, query, exec, catch, audit, begin, commit, transact,
}
use budge.Server.Authorize.{or_else}
use budge.Server.Snapshot.{request_row, snapshot, valid_snapshot, result_purpose}

abbrev pub event : Text → Text → Text → Event
event device kind id = record { owner = []; device = device; kind = kind; entity = id }

abbrev pub status_name : Status → Text
status_name completed = codes "completed"
status_name failed = codes "failed"
status_name outcome_unknown = codes "outcome_unknown"
status_name cancelled = codes "cancelled"
status_name _ = []

abbrev pub sealed_result : Environment → Text → Option Result → Option Text
sealed_result env id none = none
sealed_result env id (some r) = some (env.seal env.nonce (result_purpose id) (env.marshal_result r))

abbrev pub finish_row : Environment → Text → Status → Text → Option Result → RequestRow → RequestRow
finish_row env id state reason result r = record r {
  status = state;
  finished = some env.now;
  result = sealed_result env id result;
  reason = reason;
}

-- `UPDATE requests SET status=?,reason=?,result=?,finished=? WHERE id=?`: no test of the status.
unfoldable pub mark_finished : Environment → Text → Status → Text → Option Result → Db → Db
mark_finished env id state reason result db = record db {
  requests = update (has_id id) (finish_row env id state reason result) db.requests;
}

-- `finishTx`.
unfoldable pub finish_tx : Environment → Text → Status → Text → Option Result → Tx (Unit {0})
unfolding mark_finished
finish_tx env id state reason result = do
  exec sql_error (mark_finished env id state reason result)
  audit sql_error (event [] (codes "request_" ++ status_name state) id)
  commit sql_error

-- `finish`: a transaction of its own; an error leaves the tables alone.
unfoldable pub finish : Environment → Text → Status → Text → Option Result → List Bool → Db → Db
unfolding finish_tx
finish env id state reason result faults db =
    (transact (begin sql_error >> finish_tx env id state reason result) faults db).1

-- What the claiming transaction ends in: nothing is left to send, or the request may be sent.
pub data Claim : Type 0 where
  dropped : Claim
  claimed : Snapshot → Service → Claim

abbrev pub finish_dropped : Environment → Text → Status → Text → Tx Claim
finish_dropped env id state reason = do finish_tx env id state reason none; return dropped

-- `UPDATE requests SET status='dispatching' WHERE id=? AND status='queued'`.
unfoldable pub mark_dispatching : Text → Db → Db
mark_dispatching id db = record db {
  requests =
      update (λ (r : RequestRow). has_id id r && is_queued r.status)
        (λ r. record r { status = dispatching }) db.requests;
}

abbrev pub is_approve : Decision → Bool
is_approve approve = true
is_approve deny = false

-- `count(*)` of the approvals of the request, of its digest, that approve.
unfoldable pub approval_count : Text → Db → ℕ
unfolding request_row
approval_count id db = elim (request_row id db) [
  | none ↦ 0
  | some row ↦ length (
      select
        (λ (a : Approval).
          text_eq a.request_id id && is_approve a.decision && text_eq a.digest row.snapshot_digest)
        db.approvals)
]

-- `SELECT mode FROM permissions WHERE id=?`.
unfoldable pub permission_row : Text → Db → Option PermissionRow
permission_row id db = find (λ (p : PermissionRow). text_eq p.id id) db.permissions

-- The claim proper.
unfoldable pub start_dispatch : Text → Snapshot → Service → Tx Claim
unfolding mark_dispatching
start_dispatch id snap svc = do
  exec sql_error (mark_dispatching id)
  audit sql_error (event snap.device_id (codes "request_dispatching") id)
  commit sql_error
  return (claimed snap svc)

abbrev pub check_approval : Environment → Text → Snapshot → Service → Mode → Tx Claim
check_approval env id snap svc standing = start_dispatch id snap svc
check_approval env id snap svc approval_required = do
  n ← query sql_error (approval_count id)
  (if n == 1
      then start_dispatch id snap svc
      else finish_dropped env id failed (codes "approval_digest_mismatch"))

-- After `validSnapshot`: its error cancels the request.
abbrev pub after_valid : Environment → Text → Snapshot → Option Service → Tx Claim
after_valid env id snap none =
    finish_dropped env id cancelled (codes "authorization_changed_or_expired")
after_valid env id snap (some svc) = do
  found ← query sql_error (permission_row snap.permission_id)
  p ← lift (or_else sql_error found)
  check_approval env id snap svc p.mode

-- After `snapshot`: its error fails the request.
abbrev pub after_snapshot : Environment → Text → Option Snapshot → Tx Claim
after_snapshot env id none = finish_dropped env id failed (codes "snapshot_integrity_failed")
after_snapshot env id (some snap) = do
  valid ← catch (valid_snapshot env snap)
  after_valid env id snap valid

-- The transaction of `dispatch`.
unfoldable pub claim_tx : Environment → Text → Tx Claim
unfolding approval_count permission_row start_dispatch finish_tx catch
claim_tx env id = do
  begin sql_error
  found ← query sql_error (request_row id)
  row ← lift (or_else sql_error found)
  guard (is_queued row.status) sql_error
  snap ← catch (snapshot env id)
  after_snapshot env id snap

-- What the exchange with the upstream ends in: an error before or after a connection was there,
-- or a response, whose body may have been cut short by an error.
pub data Exchange : Type 0 where
  not_sent : Exchange
  lost : Exchange
  response : (status : ℕ) (fields : List Field) (body : Text) (complete : Bool) → Exchange

abbrev max_body : ℕ
max_body = 2 ^ 20

-- `io.LimitReader(res.Body, (1<<20)+1)` and the cut to `1<<20` bytes.
abbrev stored_body : Text → Text
stored_body body = take max_body body

-- Whether the body is kept as text: valid UTF-8 whose JSON form is not much longer.
abbrev keeps_text : Environment → Text → Bool
keeps_text env b = env.valid_utf8 b && leb (env.quoted_length b) (length b * 4 / 3 + 16)

unfoldable pub result_of : Environment → Service → ℕ → List Field → Text → Bool → Result
result_of env svc status fields body complete =
    let b = stored_body body in
    let text = keeps_text env b in
    record {
      http_status = status;
      headers = headers fields svc.response_headers svc.auth_header;
      body = if text then b else env.base64 b;
      encoding = if text then codes "utf-8" else codes "base64";
      truncated = ltb max_body (length body);
      incomplete = not complete;
    }

-- The status, the reason and the result that `dispatch` passes to `finish`.
pub record Verdict : Type 0 where
  pub status : Status
  pub reason : Text
  pub result : Option Result

unfoldable pub verdict : Environment → Service → Exchange → Verdict
unfolding result_of
verdict env svc not_sent = record {
  status = failed;
  reason = codes "request_not_sent";
  result = none;
}
verdict env svc lost = record {
  status = outcome_unknown;
  reason = codes "connection_lost_check_provider";
  result = none;
}
verdict env svc (response status fields body complete) = record {
  status = if complete then completed else outcome_unknown;
  reason = if complete then [] else codes "incomplete_response_check_provider";
  result = some (result_of env svc status fields body complete);
}

-- The rest of `dispatch` after the claim; a credential that does not open ends it before `Send`.
unfoldable pub outcome_of : Environment → Snapshot → Service → Exchange → Verdict
unfolding verdict
outcome_of env snap svc exchange = elim (env.unseal snap.credential_ref svc.credential) [
  | none ↦ record { status = failed; reason = codes "credential_unavailable"; result = none }
  | some secret ↦ verdict env svc exchange
]
