-- ===== src/Server/Maintenance.antt =====
-- internal/server/requests.go: `maintenance`, `recoverDispatches`, `cancelRequests` and
-- `RecoverRestored`.
use budge.Base.{
  ℕ, ◌*◌, ◌-◌, Bool, true, false, not, ◌&&◌, Option, none, some, List, [], map, leb, ltb, update,
  select,
}
use budge.Base.Text.{Text, codes, text_eq}
use budge.Requests.Types.{sql_error}
use budge.Requests.Environment.{Environment}
use budge.Store.Tables.{
  Status, expired, outcome_unknown, cancelled, is_waiting, is_dispatching, terminal, RequestRow,
  has_id, Device, Session, Db,
}
use budge.Store.Transaction.{Tx, ◌>>=◌, ◌>>◌, query, exec, try_exec, for_each, audit, begin, commit}
use budge.Server.Dispatch.{event}

-- `SELECT id FROM requests WHERE …`.
unfoldable pub request_ids : (RequestRow → Bool) → Db → List Text
request_ids p db = map (λ (r : RequestRow). r.id) (select p db.requests)

abbrev pub ended_as : Status → Text → ℕ → RequestRow → RequestRow
ended_as state reason now r = record r { status = state; reason = reason; finished = some now }

-- `UPDATE requests SET status=?,reason=?,finished=? WHERE id=?`.
unfoldable pub mark_ended : Status → Text → ℕ → Text → Db → Db
mark_ended state reason now id db = record db {
  requests = update (has_id id) (ended_as state reason now) db.requests;
}

-- The body of the loops over identifiers: the update and its audit record.
unfoldable pub end_request : Status → Text → Text → ℕ → Text → Tx (Unit {0})
unfolding mark_ended
end_request state kind reason now id = do
  exec sql_error (mark_ended state reason now id)
  audit sql_error (event [] kind id)

-- The query for the identifiers of some rows, and the loop over them.
unfoldable pub end_requests : (RequestRow → Bool) → Status → Text → Text → ℕ → Tx (Unit {0})
unfolding request_ids end_request
end_requests p state kind reason now = do
  ids ← query sql_error (request_ids p)
  for_each ids (end_request state kind reason now)

abbrev pub overdue : ℕ → RequestRow → Bool
overdue now r = is_waiting r.status && leb r.expires now

-- `finished IS NOT NULL AND finished<?`.
abbrev finished_before : ℕ → Option ℕ → Bool
finished_before t none = false
finished_before t (some f) = ltb f t

abbrev pub purgeable : ℕ → RequestRow → Bool
purgeable now r = finished_before (now - 24 * 3600) r.finished && terminal r.status

-- `UPDATE requests SET snapshot=NULL,result=NULL WHERE …`.
unfoldable pub purge : ℕ → Db → Db
purge now db = record db {
  requests = update (purgeable now) (λ r. record r { snapshot = none; result = none }) db.requests;
}

-- `DELETE FROM sessions WHERE expires<=?`.
unfoldable pub drop_sessions : ℕ → Db → Db
drop_sessions now db = record db {
  sessions = select (λ (s : Session). not (leb s.expires now)) db.sessions;
}

unfoldable pub maintenance_tx : Environment → Tx (Unit {0})
unfolding end_requests purge drop_sessions
maintenance_tx env = do
  begin sql_error
  end_requests (overdue env.now) expired (codes "request_expired") (codes "deadline_elapsed")
      env.now
  exec sql_error (purge env.now)
  try_exec (drop_sessions env.now)
  commit sql_error

unfoldable pub recover_tx : Environment → Tx (Unit {0})
unfolding end_requests
recover_tx env = do
  begin sql_error
  end_requests (λ r. is_dispatching r.status) outcome_unknown (codes "request_outcome_unknown")
      (codes "server_restarted_during_dispatch_check_provider") env.now
  commit sql_error

-- The columns that `cancelRequests` accepts.
pub data Column : Type 0 where
  device_id service_id permission_id : Column

abbrev pub column : Column → RequestRow → Text
column device_id r = r.device_id
column service_id r = r.service_id
column permission_id r = r.permission_id

abbrev pub in_scope : Column → Text → RequestRow → Bool
in_scope c id r = text_eq (column c r) id && is_waiting r.status

unfoldable pub cancel_requests : Environment → Column → Text → Text → Tx (Unit {0})
unfolding end_requests
cancel_requests env c id reason =
    end_requests (in_scope c id) cancelled (codes "request_cancelled") reason env.now

-- `UPDATE devices SET revoked=1 WHERE id=?`.
unfoldable pub mark_revoked : Text → Db → Db
mark_revoked id db = record db {
  devices = update (λ (d : Device). text_eq d.id id) (λ d. record d { revoked = true }) db.devices;
}

-- One round of the loop of `RecoverRestored`.
unfoldable pub revoke_restored : Environment → Text → Tx (Unit {0})
unfolding mark_revoked cancel_requests
revoke_restored env id = do
  exec sql_error (mark_revoked id)
  cancel_requests env device_id id (codes "restored_database_recovery")

unfoldable pub device_ids : Db → List Text
device_ids db = map (λ (d : Device). d.id) db.devices

-- `DELETE FROM sessions`.
unfoldable pub drop_all_sessions : Db → Db
drop_all_sessions db = record db { sessions = [] }

unfoldable pub recover_restored_tx : Environment → Tx (Unit {0})
unfolding device_ids revoke_restored drop_all_sessions
recover_restored_tx env = do
  begin sql_error
  ids ← query sql_error device_ids
  for_each ids (revoke_restored env)
  exec sql_error drop_all_sessions
  audit sql_error (event [] (codes "restored_database_access_invalidated") [])
  commit sql_error
