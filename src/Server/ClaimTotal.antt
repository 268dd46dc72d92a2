-- ===== src/Server/ClaimTotal.antt =====
-- A request that may be sent is claimed.
use budge.Base.{◌≡◌, refl, true, some, [], ◌∷◌, ◌++◌}
use budge.Base.Text.{Text, codes}
use budge.Access.Syntax.{target}
use budge.Access.Scope.{Mode, standing, approval_required, Permission}
use budge.Requests.Types.{Snapshot, Service, ok}
use budge.Requests.Environment.{Environment}
use budge.Store.Tables.{is_queued, RequestRow, PermissionRow, Db}
use budge.Store.Transaction.{
  transact, query, try_query, exec, catch, or_throw, audit, begin, commit, Conn, done,
}
use budge.Server.Authorize.{
  is_active_device, enabled_service, permissions_in_force, first_match, active_device, get_service,
  authorize,
}
use budge.Server.Snapshot.{
  request_row, open_snapshot, snapshot, still_authorized, same_target, valid_snapshot,
}
use budge.Server.Dispatch.{
  event, claimed, claim_tx, mark_dispatching, approval_count, permission_row, start_dispatch,
  check_approval,
}

-- What a claim needs of the tables.
pub record IsReadyToSend (env : Environment) (id : Text) (snap : Snapshot) (svc : Service) (db : Db)
    : Type 0 where
  pub row : RequestRow
  pub found : request_row id db ≡ some row
  pub queued : is_queued row.status ≡ true
  pub opened : open_snapshot env row ≡ ok snap
  pub active : is_active_device snap.device_id db ≡ true
  pub enabled : enabled_service snap.service_id db ≡ some svc
  pub granted : Permission
  pub in_force :
      first_match
        (permissions_in_force env.now snap.device_id snap.service_id svc.revision db)
        snap.method
        snap.path
      ≡ some granted
  pub current : still_authorized env.now snap svc granted ≡ true
  pub same_target :
      same_target snap svc (target env.parse_url svc.base_url snap.path snap.url.raw_query) ≡ ok svc
  pub permission : PermissionRow
  pub permitted : permission_row snap.permission_id db ≡ some permission
  pub approved : permission.mode ≡ approval_required → approval_count id db ≡ 1

-- Tables on which no statement fails.
abbrev clean : Db → Conn
clean db = record { db = db; faults = [] }

-- The tables after the claim.
abbrev pub claimed_db : Text → Snapshot → Db → Db
claimed_db id snap db = record (mark_dispatching id db) {
  audit =
      (mark_dispatching id db).audit
      ++ (event snap.device_id (codes "request_dispatching") id ∷ []);
}

module _ (env : Environment) (id : Text) (snap : Snapshot) (svc : Service) (db : Db) where
  snapshot_reply :
      (row : RequestRow)
      → request_row id db ≡ some row
      → open_snapshot env row ≡ ok snap
      → snapshot env id (clean db) ≡ done snap (clean db)
  unfolding snapshot query try_query
  snapshot_reply row f o = rw (f, o) refl

  authorize_reply :
      (q : Permission)
      → is_active_device snap.device_id db ≡ true
      → enabled_service snap.service_id db ≡ some svc
      → first_match
          (permissions_in_force env.now snap.device_id snap.service_id svc.revision db)
          snap.method
          snap.path
        ≡ some q
      → authorize env.now snap.device_id snap.service_id snap.method snap.path (clean db)
        ≡ done (svc, q) (clean db)
  unfolding authorize active_device get_service query try_query or_throw
  authorize_reply q a e f = rw (a, e, f) refl

  valid_reply :
      IsReadyToSend env id snap svc db → valid_snapshot env snap (clean db) ≡ done svc (clean db)
  unfolding valid_snapshot or_throw
  valid_reply h =
      rw (authorize_reply h.granted h.active h.enabled h.in_force, h.current, h.same_target) refl

  start_reply :
      start_dispatch id snap svc (clean db)
      ≡ done (claimed snap svc) (clean (claimed_db id snap db))
  unfolding start_dispatch exec audit commit query try_query
  start_reply = refl

  approval_reply :
      (m : Mode)
      → (m ≡ approval_required → approval_count id db ≡ 1)
      → check_approval env id snap svc m (clean db)
        ≡ done (claimed snap svc) (clean (claimed_db id snap db))
  unfolding query try_query
  approval_reply standing h = start_reply
  approval_reply approval_required h = rw (h refl) start_reply

-- Where no statement fails, such a request is claimed.
pub claim_tx-claimed :
    (env : Environment) (id : Text) (snap : Snapshot) (svc : Service) (db : Db)
    → IsReadyToSend env id snap svc db
    → transact (claim_tx env id) [] db ≡ (ok (claimed snap svc), claimed_db id snap db)
unfolding claim_tx transact begin exec query try_query catch
claim_tx-claimed env id snap svc db h =
    rw
      (
        h.found,
        h.queued,
        snapshot_reply env id snap svc db h.row h.found h.opened,
        valid_reply env id snap svc db h,
        h.permitted,
        approval_reply env id snap svc db h.permission.mode h.approved,
      )
      refl
