-- ===== src/Server/Quiet.antt =====
-- The operations that leave a dispatch alone: they move no row to or from `dispatching`.
use budge.Base.{inl, inr, Option, none, some, Bool-cases}
use budge.Base.Text.{Text, text_eq}
use budge.Access.Scope.{Mode, standing, approval_required}
use budge.Requests.Types.{Submission, idempotency_conflict}
use budge.Requests.Environment.{Environment, submission_digest}
use budge.Store.Tables.{RequestRow}
use budge.Store.Relates.{
  Relates, return-Relates, throw-Relates, exec-Relates, exec_checked-Relates, try_exec-Relates,
  audit-Relates, begin-Relates, commit-Relates, for_each_all-Relates,
}
use budge.Server.Lifecycle.{Quiet}
use budge.Server.Growth.{
  Grows, Grows-append, IsGrown, HasKeys, growth, IsGrown-of_moved, IsGrown-same, IsSpent-same,
  end_requests-Relates,
}
use budge.Server.Reads.{
  reading, active_device-Relates, get_service-Relates, authorize-Relates, snapshot-Relates,
  valid_snapshot-Relates,
}
use budge.Server.Submit.{below_limit, create_request, resume, submit_tx}
use budge.Server.Decide.{decide_tx}
use budge.Server.Maintenance.{maintenance_tx, revoke_restored, recover_restored_tx}
use budge.Server.Owner.{
  PermissionForm, add_permission_tx, revoke_permission_tx, disable_service_tx, revoke_tx,
}
use budge.Server.QuietRows.{
  IsQuiet, audit-IsGrown, insert_request-IsGrown, insert_approval-IsGrown, mark_decided-IsGrown,
  purge-IsGrown, drop_sessions-IsGrown, expire-IsQuiet, cancel_requests-IsQuiet,
  insert_permission-IsGrown, mark_permission_revoked-IsGrown, mark_disabled-IsGrown,
  mark_device_revoked-IsGrown, mark_revoked-IsGrown, drop_all_sessions-IsGrown,
}

pub ruleset writing = (
  reading, begin-Relates, commit-Relates, exec-Relates, exec_checked-Relates, try_exec-Relates,
  audit-Relates, audit-IsGrown, growth,
)

below_limit-IsQuiet :
    (env : Environment) (device : Text) (m : Mode) → IsQuiet (below_limit env device m)
below_limit-IsQuiet env device standing = search (writing)
below_limit-IsQuiet env device approval_required = search (writing)

create_request-IsQuiet :
    (env : Environment) (device : Text) (s : Submission) → IsQuiet (create_request env device s)
unfolding create_request
create_request-IsQuiet env device s =
    search (writing, authorize-Relates, below_limit-IsQuiet, insert_request-IsGrown) depth 20

resume-IsQuiet :
    (env : Environment) (device : Text) (s : Submission) (found : Option RequestRow)
    → IsQuiet (resume env device s found)
resume-IsQuiet env device s none = create_request-IsQuiet env device s
resume-IsQuiet env device s (some row) =
    elim (Bool-cases (text_eq (submission_digest env s) row.submission_digest)) [
      | inl e ↦ rw e (return-Relates (growth Quiet) row.id)
      | inr e ↦ rw e (throw-Relates (growth Quiet) idempotency_conflict)
    ]

-- `Submit` appends at most one row, with an identifier of its own.
pub submit_tx-IsQuiet :
    (env : Environment) (device : Text) (s : Submission) → IsQuiet (submit_tx env device s)
unfolding submit_tx
submit_tx-IsQuiet env device s = search (writing, active_device-Relates, resume-IsQuiet) depth 20

pub decide_tx-IsQuiet :
    (env : Environment) (owner id digest decision : Text)
    → IsQuiet (decide_tx env owner id digest decision)
unfolding decide_tx
decide_tx-IsQuiet env owner id digest decision =
    search
      (
        writing, snapshot-Relates, valid_snapshot-Relates, mark_decided-IsGrown,
        insert_approval-IsGrown,
      )
      depth 20

pub maintenance_tx-IsQuiet : (env : Environment) → IsQuiet (maintenance_tx env)
unfolding maintenance_tx
maintenance_tx-IsQuiet env =
    search (writing, expire-IsQuiet, purge-IsGrown, drop_sessions-IsGrown) depth 20

revoke_restored-IsQuiet : (env : Environment) (id : Text) → IsQuiet (revoke_restored env id)
unfolding revoke_restored
revoke_restored-IsQuiet env id =
    search (writing, mark_revoked-IsGrown, cancel_requests-IsQuiet) depth 8

pub recover_restored_tx-IsQuiet : (env : Environment) → IsQuiet (recover_restored_tx env)
unfolding recover_restored_tx
recover_restored_tx-IsQuiet env =
    search (writing, for_each_all-Relates, revoke_restored-IsQuiet, drop_all_sessions-IsGrown) depth
      20

pub add_permission_tx-IsQuiet :
    (env : Environment) (owner : Text) (f : PermissionForm)
    → IsQuiet (add_permission_tx env owner f)
unfolding add_permission_tx
add_permission_tx-IsQuiet env owner f =
    search (writing, active_device-Relates, get_service-Relates, insert_permission-IsGrown) depth 30

pub revoke_permission_tx-IsQuiet :
    (env : Environment) (owner id : Text) → IsQuiet (revoke_permission_tx env owner id)
unfolding revoke_permission_tx
revoke_permission_tx-IsQuiet env owner id =
    search (writing, cancel_requests-IsQuiet, mark_permission_revoked-IsGrown) depth 20

pub disable_service_tx-IsQuiet :
    (env : Environment) (owner id : Text) → IsQuiet (disable_service_tx env owner id)
unfolding disable_service_tx
disable_service_tx-IsQuiet env owner id =
    search (writing, cancel_requests-IsQuiet, mark_disabled-IsGrown) depth 20

pub revoke_tx-IsQuiet : (env : Environment) (owner id : Text) → IsQuiet (revoke_tx env owner id)
unfolding revoke_tx
revoke_tx-IsQuiet env owner id =
    search (writing, cancel_requests-IsQuiet, mark_device_revoked-IsGrown) depth 20
