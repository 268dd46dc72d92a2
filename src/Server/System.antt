-- ===== src/Server/System.antt =====
-- internal/server: the server as a whole, any interleaving of its operations, with storage errors,
-- lost dispatches and restarts. `RunWorker` starts a dispatch for each queued request; `flights` are
-- the dispatches between their claim and their outcome.
use budge.Base.{Bool, not, List, [], ◌∷◌, map, In, select}
use budge.Base.Text.{Text, text_eq}
use budge.Requests.Types.{Submission, Snapshot, Service, Outcome, ok, err}
use budge.Requests.Environment.{Environment}
use budge.Store.Tables.{Db}
use budge.Store.Transaction.{transact}
use budge.Server.Submit.{submit_tx}
use budge.Server.Decide.{decide_tx}
use budge.Server.Dispatch.{Claim, dropped, claimed, claim_tx, Exchange, outcome_of, finish}
use budge.Server.Maintenance.{maintenance_tx, recover_tx, recover_restored_tx}
use budge.Server.Owner.{
  PermissionForm, add_permission_tx, revoke_permission_tx, disable_service_tx, revoke_tx,
}
use budge.Server.Services.{ServiceForm, add_service_tx}
use budge.Server.Enroll.{X509, invitation_tx, enroll_tx, renew_tx}
use budge.Server.Session.{Passwords, login_tx, logout_tx}

-- A claimed request whose outcome is not recorded yet.
pub record Flight : Type 0 where
  pub id : Text
  pub snapshot : Snapshot
  pub service : Service

-- `sent` holds the identifier of each claim, the latest first.
pub record System : Type 0 where
  pub db : Db
  pub flights : List Flight
  pub sent : List Text

abbrev pub flight_ids : List Flight → List Text
flight_ids fs = map (λ (f : Flight). f.id) fs

abbrev pub land : Text → List Flight → List Flight
land id fs = select (λ (f : Flight). not (text_eq f.id id)) fs

-- The operations that have no part in a dispatch.
pub data Operation : Type 0 where
  submit : (env : Environment) (device : Text) (given : Submission) → Operation
  decide : (env : Environment) (owner id digest decision : Text) → Operation
  maintain : (env : Environment) → Operation
  add_permission : (env : Environment) (owner : Text) (form : PermissionForm) → Operation
  revoke_permission disable_service revoke : (env : Environment) (owner id : Text) → Operation
  add_service : (env : Environment) (owner : Text) (form : ServiceForm) → Operation
  recover_restored : (env : Environment) → Operation
  invite : (env : Environment) (secret owner label : Text) → Operation
  enroll : (env : Environment) (x : X509) (secret csr : Text) → Operation
  renew : (env : Environment) (x : X509) (device csr : Text) → Operation
  login : (env : Environment) (w : Passwords) (token csrf password : Text) → Operation
  logout : (env : Environment) (token : Text) → Operation

unfoldable pub run : Operation → List Bool → Db → Db
run (submit env device given) faults db = (transact (submit_tx env device given) faults db).1
run (decide env owner id digest decision) faults db =
    (transact (decide_tx env owner id digest decision) faults db).1
run (maintain env) faults db = (transact (maintenance_tx env) faults db).1
run (add_permission env owner form) faults db =
    (transact (add_permission_tx env owner form) faults db).1
run (revoke_permission env owner id) faults db =
    (transact (revoke_permission_tx env owner id) faults db).1
run (disable_service env owner id) faults db =
    (transact (disable_service_tx env owner id) faults db).1
run (revoke env owner id) faults db = (transact (revoke_tx env owner id) faults db).1
run (add_service env owner form) faults db = (transact (add_service_tx env owner form) faults db).1
run (recover_restored env) faults db = (transact (recover_restored_tx env) faults db).1
run (invite env secret owner label) faults db =
    (transact (invitation_tx env secret owner label) faults db).1
run (enroll env x secret csr) faults db = (transact (enroll_tx env x secret csr) faults db).1
run (renew env x device csr) faults db = (transact (renew_tx env x device csr) faults db).1
run (login env w token csrf password) faults db =
    (transact (login_tx env w token csrf password) faults db).1
run (logout env token) faults db = (transact (logout_tx env token) faults db).1

-- What follows the claiming transaction: the request is sent only where it was claimed.
unfoldable pub after_claim : Text → System → Outcome Claim × Db → System
after_claim id s (ok dropped, db) = record s { db = db }
after_claim id s (ok (claimed snap svc), db) = record {
  db = db;
  flights = (record { id = id; snapshot = snap; service = svc }) ∷ s.flights;
  sent = id ∷ s.sent;
}
after_claim id s (err e, db) = record s { db = db }

-- The end of a flight, with the outcome that its exchange has; a storage error loses the outcome.
unfoldable pub after_flight : Environment → Flight → Exchange → List Bool → System → System
after_flight env f x faults s =
    let v = outcome_of env f.snapshot f.service x in
    record {
      db = finish env f.id v.status v.reason v.result faults s.db;
      flights = land f.id s.flights;
      sent = s.sent;
    }

pub data Step : System → System → Type 0 where
  operate :
      {s : System} (o : Operation) (faults : List Bool)
      → Step s (record s { db = run o faults s.db })
  claim :
      {s : System} (env : Environment) (id : Text) (faults : List Bool)
      → Step s (after_claim id s (transact (claim_tx env id) faults s.db))
  end_flight :
      {s : System} (env : Environment) (f : Flight) (x : Exchange) (faults : List Bool)
      → In f s.flights
      → Step s (after_flight env f x faults s)
  -- A restart forgets the flights; `recoverDispatches` runs before the server serves.
  restart :
      {s : System} (env : Environment) (faults : List Bool)
      → Step s
          (record { db = (transact (recover_tx env) faults s.db).1; flights = []; sent = s.sent })

-- The systems that a system may become.
pub data Reach (s : System) : System → Type 0 where
  start : Reach s s
  then_step : {t u : System} → Reach s t → Step t u → Reach s u
