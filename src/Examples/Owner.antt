-- ===== src/Examples/Owner.antt =====
-- Examples of the owner's changes, of resubmission, of a restart and of the slots.
use budge.Base.{◌⊎◌, In, ℕ, Option, ◌≡◌, refl, true, false, none, [], ◌∷◌, All, inl, arith}
use budge.Base.Text.{Text, codes}
use budge.Requests.Types.{Submission, ok, err, idempotency_conflict, request_not_found}
use budge.Store.Tables.{
  Status, RequestRow, pending_approval, dispatching, outcome_unknown, cancelled, is_dispatching,
  Decision, PermissionRow, Db,
}
use budge.Store.Transaction.{transact}
use budge.Server.Submit.{submit_tx}
use budge.Server.Decide.{decide_tx}
use budge.Server.Maintenance.{device_id, in_scope, recover_tx}
use budge.Server.Owner.{PermissionForm, add_permission_tx, revoke_tx}
use budge.Server.Services.{ServiceForm, add_service_tx}
use budge.Server.Authorize.{is_active_device, permissions_in_force}
use budge.Server.Loops.{Swept}
use budge.Server.Framed.{IsFramed}
use budge.Server.Sweeps.{recover_tx-Swept}
use budge.Server.Withdrawn.{revoke_tx-Swept}
use budge.Server.Decided.{Ruling, IsDecidable, IsDecided, decide_tx-IsDecided}
use budge.Server.Resumed.{SameContent, Collides, at_time, submit_tx-again}
use budge.Server.Disjoint.{add_permission_tx-IsApart}
use budge.Server.Apart.{IsApart, Apart-matches}
use budge.Server.Slots.{Slots, acquire, release}
use budge.Requests.Environment.{IsFaithful}
use budge.Requests.Normal.{IsNormal, normalize-IsNormal}
use budge.Server.Snapshot.{request_purpose, open_snapshot}
use budge.Server.Submit.{new_snapshot, new_request}
use budge.Server.Stored.{open_snapshot-new_request}
use budge.Base.{List}
use budge.Server.Lifecycle.{Distinct}
use budge.Server.HeaderLists.{IsSafeName, header_list-IsSafeName}
use budge.Server.Limited.{IsLimited, submit_tx-IsLimited}
use budge.Server.Status.{StatusView, is_owner, open_result, status_view, status_tx}
use budge.Server.Disclosed.{IsToldOf, status_tx-own}
use budge.Requests.Types.{Result}
use budge.Examples.Data.{normal, put_row}
use budge.Examples.Running.{running}
use budge.Examples.Data.{
  docs, writes, docs_url, env, reads, get_docs, approval, tables, pending_db, queued_db,
  Distinct-ids,
}

abbrev digest : Text
digest = codes "sha256-v1:PUT/docs/a"

decide_tx-IsDecided_example :
    (d : Decision) × (s : Status) × (end : Option ℕ) × Ruling env (codes "approve") d s end
    × IsDecidable env (codes "r1") digest pending_db
    × IsDecided
        (codes "r1")
        s
        end
        (record { request_id = codes "r1"; owner = codes "o1"; digest = digest; decision = d })
        pending_db
        (transact
          (decide_tx env (codes "o1") (codes "r1") digest (codes "approve"))
          []
          pending_db).1
unfolding running
decide_tx-IsDecided_example =
    decide_tx-IsDecided env (codes "o1") (codes "r1") digest (codes "approve") [] pending_db
      (transact (decide_tx env (codes "o1") (codes "r1") digest (codes "approve")) [] pending_db).1
      refl

-- The form for one more permission, which does not overlap the others.
abbrev deletes : PermissionForm
deletes = record {
  device = codes "d1";
  service = codes "docs";
  method = codes "DELETE";
  path = codes "/docs/a";
  path_kind = codes "subtree";
  mode = codes "approval_required";
  expires = [];
}

IsApart-before : IsApart 100 (codes "d1") (codes "docs") 1 queued_db
unfolding running
IsApart-before = ((refl, tt), (tt, tt))

add_permission_tx-IsApart_example :
    IsApart 100
      (codes "d1")
      (codes "docs")
      1
      (transact (add_permission_tx env (codes "o1") deletes) [] queued_db).1
unfolding running
add_permission_tx-IsApart_example =
    add_permission_tx-IsApart env (codes "o1") deletes [] queued_db
      (transact (add_permission_tx env (codes "o1") deletes) [] queued_db).1 (codes "d1")
      (codes "docs") 1 refl IsApart-before

abbrev reads_row : PermissionRow
reads_row = record { permission = reads; revoked = false }

Apart-matches_example : reads_row ≡ reads_row
unfolding running
Apart-matches_example =
    Apart-matches (permissions_in_force 100 (codes "d1") (codes "docs") 1 queued_db) reads_row
      reads_row (codes "GET") (codes "/docs/a") IsApart-before (inl refl) (inl refl) refl refl

revoke_tx-Swept_example :
    (is_active_device
        (codes "d1")
        (transact (revoke_tx env (codes "o1") (codes "d1")) [] queued_db).1
      ≡ false)
    × Swept
        (in_scope device_id (codes "d1"))
        cancelled
        queued_db
        (transact (revoke_tx env (codes "o1") (codes "d1")) [] queued_db).1
unfolding running
revoke_tx-Swept_example =
    revoke_tx-Swept env (codes "o1") (codes "d1") [] queued_db
      (transact (revoke_tx env (codes "o1") (codes "d1")) [] queued_db).1 Distinct-ids refl

abbrev interrupted_db : Db
interrupted_db = tables dispatching (approval ∷ [])

recover_tx-Swept_example :
    Swept
      (λ r. is_dispatching r.status)
      outcome_unknown
      interrupted_db
      (transact (recover_tx env) [] interrupted_db).1
    × IsFramed interrupted_db (transact (recover_tx env) [] interrupted_db).1
unfolding running
recover_tx-Swept_example =
    recover_tx-Swept env [] interrupted_db (transact (recover_tx env) [] interrupted_db).1
      Distinct-ids refl

-- The key of the request `r1` again, with other content.
abbrev again : Submission
again = record get_docs { headers = []; idempotency_key = codes "k1" }

-- The tables after `get_docs` was submitted.
abbrev submitted_db : Db
submitted_db = (transact (submit_tx env (codes "d1") get_docs) [] pending_db).1

again_tests :
    ((transact (submit_tx env (codes "d1") get_docs) [] submitted_db).0 ≡ ok (codes "r9"))
    × ((transact (submit_tx env (codes "d1") again) [] pending_db).0 ≡ err idempotency_conflict)
unfolding running
again_tests = (refl, refl)

submit_tx-again_example :
    ((transact (submit_tx (at_time env 130 (codes "r10") []) (codes "d1") get_docs) [] submitted_db
        ≡ (ok (codes "r9"), submitted_db))
      × (SameContent env normal normal ⊎ Collides env))
    ⊎ ((transact
            (submit_tx (at_time env 130 (codes "r10") []) (codes "d1") get_docs)
            []
            submitted_db
          ≡ (err idempotency_conflict, submitted_db))
        × (¬ SameContent env normal normal))
unfolding running
submit_tx-again_example =
    submit_tx-again env 130 (codes "r10") [] (codes "d1") get_docs get_docs normal normal []
      pending_db submitted_db (codes "r9") refl refl refl refl refl

abbrev full : Slots
full = record { global = 4; active = (codes "d1", 4) ∷ [] }

slot_tests :
    ((acquire full (codes "d1")).0 ≡ false)
    × ((acquire full (codes "d2")).0 ≡ true)
    × ((acquire (release full (codes "d1")) (codes "d1")).0 ≡ true)
unfolding running
slot_tests = (refl, refl, refl)

-- A revision of the service.
abbrev revision : ServiceForm
revision = record {
  revise = true;
  id = codes "docs";
  label = codes "Docs";
  base_url = codes "https://api.test";
  auth = codes "basic";
  credential = codes "u:p";
  auth_header = [];
  request_headers = codes "accept, x-a";
  response_headers = [];
  private_cidr = [];
}

service_tests :
    ((transact (add_service_tx env (codes "o1") revision) [] queued_db).0 ≡ ok tt)
    × ((transact
          (add_service_tx env (codes "o1") (record revision { credential = [] }))
          []
          queued_db).1
        ≡ queued_db)
unfolding running
service_tests = (refl, refl)

abbrev put_again : Submission
put_again = record again { method = codes "PUT"; body = codes "new" }

IsFaithful-env :
    IsFaithful env
      (request_purpose (codes "r9"))
      (new_snapshot env (codes "d1") put_again docs writes [] docs_url)
unfolding running
IsFaithful-env = record { unseal-seal = refl; unmarshal-marshal = refl }

open_snapshot-new_request_example :
    open_snapshot env (
      new_request env
        (codes "d1")
        put_again
        docs
        writes
        (new_snapshot env (codes "d1") put_again docs writes [] docs_url))
    ≡ ok (new_snapshot env (codes "d1") put_again docs writes [] docs_url)
open_snapshot-new_request_example =
    open_snapshot-new_request env (codes "d1") put_again docs writes [] docs_url IsFaithful-env

abbrev listed : List Text
listed = codes "Accept" ∷ codes "X-A" ∷ []

header_list-IsSafeName_example : All (IsSafeName (codes "X-Key")) listed × Distinct listed
unfolding running
header_list-IsSafeName_example =
    header_list-IsSafeName (codes "accept, x-a,Accept") (codes "X-Key") [] listed refl

normalize-IsNormal_example : (normal ≡ normal) × IsNormal normal
unfolding running
normalize-IsNormal_example = normalize-IsNormal env get_docs normal refl

one_waits : IsLimited 100 (codes "d1") pending_db
unfolding running
one_waits = ground arith

-- A request of a device with one that waits.
submit_tx-IsLimited_example :
    IsLimited 100 (codes "d1") (transact (submit_tx env (codes "d1") get_docs) [] pending_db).1
unfolding running
submit_tx-IsLimited_example =
    submit_tx-IsLimited env (codes "d1") get_docs [] pending_db
      (transact (submit_tx env (codes "d1") get_docs) [] pending_db).1 (codes "r9") one_waits refl

abbrev waiting_view : StatusView
waiting_view = status_view (put_row pending_approval) none

status_tests :
    ((transact (status_tx env (codes "d1") (codes "r1")) [] pending_db).0 ≡ ok waiting_view)
    × ((transact (status_tx env (codes "d1") (codes "r0")) [] pending_db).0 ≡ err request_not_found)
    × ((transact (status_tx env [] (codes "r1")) [] pending_db).0 ≡ ok waiting_view)
unfolding running
status_tests = (refl, refl, refl)

status_tx-own_example :
    (row : RequestRow) × (result : Option Result) × In row pending_db.requests
    × (row.id ≡ codes "r1")
    × (open_result env (codes "r1") row.result ≡ ok result)
    × IsToldOf row result waiting_view
    × (pending_db ≡ pending_db)
    × (is_owner (codes "d1") ≡ false
        → (row.device_id ≡ codes "d1") × (is_active_device (codes "d1") pending_db ≡ true))
unfolding running
status_tx-own_example =
    status_tx-own env (codes "d1") (codes "r1") [] pending_db pending_db waiting_view refl
