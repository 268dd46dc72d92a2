-- ===== src/Server/Decide.antt =====
-- internal/server/requests.go: `Decide`.
use budge.Base.{◌&&◌, Option, none, some, [], ◌∷◌, ◌++◌, if◌then◌else◌, any, update}
use budge.Base.Text.{Text, codes, text_eq}
use budge.Requests.Types.{sql_error, invalid_decision, request_digest_mismatch, request_not_pending}
use budge.Requests.Environment.{Environment}
use budge.Store.Tables.{
  Status, queued, denied, is_pending, Decision, approve, deny, RequestRow, has_id, Approval, Db,
}
use budge.Store.Transaction.{
  Tx, ◌>>=◌, ◌>>◌, lift, guard, query, exec, exec_checked, audit, begin, commit,
}
use budge.Server.Authorize.{or_else}
use budge.Server.Snapshot.{request_row, snapshot, valid_snapshot}

abbrev pub parse_decision : Text → Option Decision
parse_decision d =
    if text_eq d (codes "approve")
    then some approve
    else if text_eq d (codes "deny")
    then some deny
    else none

abbrev pub next_status : Decision → Status
next_status approve = queued
next_status deny = denied

abbrev decided : Decision → Text
decided approve = codes "request_queued"
decided deny = codes "request_denied"

-- `INSERT INTO approvals`, whose primary key is the request.
unfoldable pub insert_approval : Approval → Db → Option Db
insert_approval a db =
    if any (λ (b : Approval). text_eq b.request_id a.request_id) db.approvals
    then none
    else some (record db { approvals = db.approvals ++ (a ∷ []) })

abbrev pub decide_row : Environment → Decision → RequestRow → RequestRow
decide_row env approve r = record r { status = queued; finished = none }
decide_row env deny r = record r { status = denied; finished = some env.now }

-- `UPDATE requests SET status=?,finished=? WHERE id=? AND status='pending_approval'`.
unfoldable pub mark_decided : Environment → Text → Decision → Db → Db
mark_decided env id d db = record db {
  requests =
      update (λ (r : RequestRow). has_id id r && is_pending r.status) (decide_row env d)
        db.requests;
}

unfoldable pub decide_tx : Environment → Text → Text → Text → Text → Tx (Unit {0})
unfolding insert_approval mark_decided
decide_tx env owner id digest decision = do
  d ← lift (or_else invalid_decision (parse_decision decision))
  begin sql_error
  found ← query request_digest_mismatch (request_row id)
  row ← lift (or_else request_digest_mismatch found)
  guard (text_eq digest row.snapshot_digest) request_digest_mismatch
  guard (is_pending row.status) request_not_pending
  snap ← snapshot env id
  svc ← valid_snapshot env snap
  exec_checked sql_error
      (insert_approval (record { request_id = id; owner = owner; digest = digest; decision = d }))
  exec sql_error (mark_decided env id d)
  audit sql_error (record { owner = owner; device = snap.device_id; kind = decided d; entity = id })
  commit sql_error
