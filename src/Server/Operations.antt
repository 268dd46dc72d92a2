-- ===== src/Server/Operations.antt =====
-- What the operations besides dispatches do to the rows of the requests.
use budge.Base.{Bool, List}
use budge.Store.Tables.{Db}
use budge.Store.Relates.{transact-relates}
use budge.Server.Lifecycle.{Quiet}
use budge.Server.Growth.{IsGrown, HasKeys, growth}
use budge.Server.Quiet.{
  submit_tx-IsQuiet, decide_tx-IsQuiet, maintenance_tx-IsQuiet, recover_restored_tx-IsQuiet,
  add_permission_tx-IsQuiet, revoke_permission_tx-IsQuiet, disable_service_tx-IsQuiet,
  revoke_tx-IsQuiet,
}
use budge.Server.QuietServices.{add_service_tx-IsQuiet}
use budge.Server.QuietAccess.{
  invitation_tx-IsQuiet, enroll_tx-IsQuiet, renew_tx-IsQuiet, login_tx-IsQuiet, logout_tx-IsQuiet,
}
use budge.Server.System.{
  Operation, submit, decide, maintain, add_permission, revoke_permission, disable_service, revoke,
  add_service, recover_restored, invite, enroll, renew, login, logout, run,
}

-- Whatever statements fail, `Submit`, `Decide`, the maintenance, the recovery of a restored
-- database, the owner's changes, logins and logouts, and the invitation, enrollment and renewal of
-- devices keep each request row in its place, with its identifying columns, and move its status
-- only from `pending_approval` to `queued` or `denied`, from `queued` to `failed`, and from these
-- two to `expired` or `cancelled`; new rows come after, identifiers stay distinct, and a used
-- invitation stays used.
pub run-IsGrown :
    (o : Operation) (faults : List Bool) (db : Db) → HasKeys db → IsGrown Quiet db (run o faults db)
unfolding run
run-IsGrown (submit env device given) faults db =
    transact-relates (growth Quiet) _ faults db (submit_tx-IsQuiet env device given)
run-IsGrown (decide env owner id digest decision) faults db =
    transact-relates (growth Quiet) _ faults db (decide_tx-IsQuiet env owner id digest decision)
run-IsGrown (maintain env) faults db =
    transact-relates (growth Quiet) _ faults db (maintenance_tx-IsQuiet env)
run-IsGrown (add_permission env owner form) faults db =
    transact-relates (growth Quiet) _ faults db (add_permission_tx-IsQuiet env owner form)
run-IsGrown (revoke_permission env owner id) faults db =
    transact-relates (growth Quiet) _ faults db (revoke_permission_tx-IsQuiet env owner id)
run-IsGrown (disable_service env owner id) faults db =
    transact-relates (growth Quiet) _ faults db (disable_service_tx-IsQuiet env owner id)
run-IsGrown (revoke env owner id) faults db =
    transact-relates (growth Quiet) _ faults db (revoke_tx-IsQuiet env owner id)
run-IsGrown (add_service env owner form) faults db =
    transact-relates (growth Quiet) _ faults db (add_service_tx-IsQuiet env owner form)
run-IsGrown (recover_restored env) faults db =
    transact-relates (growth Quiet) _ faults db (recover_restored_tx-IsQuiet env)
run-IsGrown (invite env secret owner label) faults db =
    transact-relates (growth Quiet) _ faults db (invitation_tx-IsQuiet env secret owner label)
run-IsGrown (enroll env x secret csr) faults db =
    transact-relates (growth Quiet) _ faults db (enroll_tx-IsQuiet env x secret csr)
run-IsGrown (renew env x device csr) faults db =
    transact-relates (growth Quiet) _ faults db (renew_tx-IsQuiet env x device csr)
run-IsGrown (login env w token csrf password) faults db =
    transact-relates (growth Quiet) _ faults db (login_tx-IsQuiet env w token csrf password)
run-IsGrown (logout env token) faults db =
    transact-relates (growth Quiet) _ faults db (logout_tx-IsQuiet env token)
