-- ===== src/Server/Reads.antt =====
-- The transactions that only read keep every relation on the tables.
use budge.Base.{ℕ}
use budge.Base.Text.{Text}
use budge.Store.Tables.{Db}
use budge.Requests.Types.{Snapshot}
use budge.Requests.Environment.{Environment}
use budge.Store.Relates.{
  IsPreorder, Relates, bind-Relates, return-Relates, throw-Relates, lift-Relates, try_query-Relates,
  query-Relates, guard-Relates, or_throw-Relates, catch-Relates, exec-Relates, audit-Relates,
  begin-Relates, commit-Relates,
}
use budge.Server.Authorize.{active_device, get_service, authorize}
use budge.Server.Snapshot.{snapshot, valid_snapshot}

pub ruleset reading = (
  bind-Relates, return-Relates, throw-Relates, lift-Relates, try_query-Relates, query-Relates,
  guard-Relates, or_throw-Relates, catch-Relates,
)

module _ {K : Db → Type 0} {R : Db → Db → Type 0} (o : IsPreorder K R) where
  pub active_device-Relates : (device : Text) → Relates K R (active_device device)
  unfolding active_device
  active_device-Relates device = search (reading)

  pub get_service-Relates : (id : Text) → Relates K R (get_service id)
  unfolding get_service
  get_service-Relates id = search (reading)

  pub authorize-Relates :
      (now : ℕ) (device service method path : Text)
      → Relates K R (authorize now device service method path)
  unfolding authorize
  authorize-Relates now device service method path =
      search (reading, active_device-Relates, get_service-Relates) depth 12

  pub snapshot-Relates : (env : Environment) (id : Text) → Relates K R (snapshot env id)
  unfolding snapshot
  snapshot-Relates env id = search (reading) depth 8

  pub valid_snapshot-Relates :
      (env : Environment) (snap : Snapshot) → Relates K R (valid_snapshot env snap)
  unfolding valid_snapshot
  valid_snapshot-Relates env snap = search (reading, authorize-Relates) depth 10
