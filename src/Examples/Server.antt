-- ===== src/Examples/Server.antt =====
-- Tests and examples of the server on the tables of the example.
use budge.Access.Scope.{Permission, approval_required}
use budge.Server.Delivered.{IsDelivered, submit_tx-IsDelivered}
use budge.Examples.Encode.{vault_env, vault_env-IsFaithful}
use budge.Base.{◌⊎◌, arith, inl, ◌≡◌, refl, false, List, [], ◌∷◌, map, In, All}
use budge.Base.Text.{codes}
use budge.Requests.Types.{Service, ok, err, idempotency_conflict}
use budge.Store.Tables.{
  Status, pending_approval, queued, dispatching, completed, failed, outcome_unknown, is_waiting,
  RequestRow, Db,
}
use budge.Store.Transaction.{transact}
use budge.Server.Authorized.{IsAuthorized, authorize-done}
use budge.Server.Submit.{submit_tx}
use budge.Server.Decide.{decide_tx}
use budge.Server.Dispatch.{claim_tx, claimed, dropped}
use budge.Server.Maintenance.{recover_tx}
use budge.Server.Claimed.{IsClaimed, claim-IsClaimable}
use budge.Server.Lifecycle.{Quiet, Distinct}
use budge.Server.Growth.{IsGrown}
use budge.Server.Left.{IsKept}
use budge.Server.System.{
  System, flight_ids, run, maintain, after_claim, claim, Reach, start, then_step,
}
use budge.Server.Once.{started, sent_once, sent_left}
use budge.Server.Operations.{run-IsGrown}
use budge.Server.Final.{terminal_stays}
use budge.Examples.Running.{running}
use budge.Examples.Data.{
  normal, env, docs, writes, put_docs, get_docs, tables, queued_db, pending_db, approval,
  Distinct-ids,
}

abbrev statuses : Db → List Status
statuses db = map (λ (r : RequestRow). r.status) db.requests

claim_tests :
    ((transact (claim_tx env (codes "r1")) [] queued_db).0 ≡ ok (claimed put_docs docs))
    × (statuses (transact (claim_tx env (codes "r1")) [] queued_db).1
        ≡ completed ∷ dispatching ∷ [])
    × ((transact (claim_tx env (codes "r1")) [] (tables queued [])).0 ≡ ok dropped)
    × (statuses (transact (claim_tx env (codes "r1")) [] (tables queued [])).1
        ≡ completed ∷ failed ∷ [])
unfolding running
claim_tests = (refl, refl, refl, refl)

submit_tests :
    ((transact (submit_tx env (codes "d1") get_docs) [] pending_db).0 ≡ ok (codes "r9"))
    × (statuses (transact (submit_tx env (codes "d1") get_docs) [] pending_db).1
        ≡ completed ∷ pending_approval ∷ queued ∷ [])
    × ((transact
          (submit_tx env (codes "d1") (record get_docs { idempotency_key = codes "k1" }))
          []
          pending_db).0
        ≡ err idempotency_conflict)
unfolding running
submit_tests = (refl, refl, refl)

restart_tests :
    statuses (transact (recover_tx env) [] (tables dispatching (approval ∷ []))).1
    ≡ completed ∷ outcome_unknown ∷ []
unfolding running
restart_tests = refl

decide_tests :
    statuses
      (transact
        (decide_tx env (codes "o1") (codes "r1") (codes "sha256-v1:PUT/docs/a") (codes "approve"))
        []
        pending_db).1
    ≡ completed ∷ queued ∷ []
unfolding running
decide_tests = refl

abbrev one_flight : System
one_flight =
    after_claim (codes "r1") (started queued_db) (transact (claim_tx env (codes "r1")) [] queued_db)

-- One claim, and the outcome of its exchange.
reaches : Reach (started queued_db) one_flight
reaches = then_step start (claim env (codes "r1") [])

sent_once_example : Distinct one_flight.sent
sent_once_example = sent_once queued_db one_flight Distinct-ids reaches

sent_left_example :
    All
      (λ (r : RequestRow). In r.id one_flight.sent → is_waiting r.status ≡ false)
      one_flight.db.requests
    × All
        (λ (r : RequestRow). In r.id (flight_ids one_flight.flights) → r.status ≡ dispatching)
        one_flight.db.requests
sent_left_example = sent_left queued_db one_flight Distinct-ids reaches

-- The request that had ended before.
ended_kept : IsKept (λ s. s ≡ completed) (codes "r0" ∷ []) queued_db
ended_kept = record {
  keys = Distinct-ids;
  known = (inl refl, tt);
  rows = ((λ m. refl), ((λ m. ground (arith, m)), tt));
}

terminal_stays_example : IsKept (λ s. s ≡ completed) (codes "r0" ∷ []) one_flight.db
terminal_stays_example =
    terminal_stays queued_db (started queued_db) one_flight completed (codes "r0" ∷ []) Distinct-ids
      start reaches refl ended_kept

claim-IsClaimable_example :
    IsClaimed env
      (codes "r1")
      put_docs
      docs
      queued_db
      (transact (claim_tx env (codes "r1")) [] queued_db).1
unfolding running
claim-IsClaimable_example =
    claim-IsClaimable env (codes "r1") [] queued_db
      (transact (claim_tx env (codes "r1")) [] queued_db).1 put_docs docs refl

authorize-done_example :
    IsAuthorized 100
      (codes "d1")
      (codes "docs")
      (codes "PUT")
      (codes "/docs/a")
      docs
      writes
      queued_db
    × (queued_db ≡ queued_db)
unfolding running
authorize-done_example =
    authorize-done 100 (codes "d1") (codes "docs") (codes "PUT") (codes "/docs/a")
      (record { db = queued_db; faults = [] }) {d = record { db = queued_db; faults = [] }} refl

run-IsGrown_example : IsGrown Quiet queued_db (run (maintain env) [] queued_db)
run-IsGrown_example = run-IsGrown (maintain env) [] queued_db Distinct-ids

delivery_tests :
    (transact (submit_tx vault_env (codes "d1") get_docs) [] queued_db).0 ≡ ok (codes "r9")
unfolding running
delivery_tests = refl

-- `GET /docs/a` is under the standing permission, and is claimed.
submit_tx-IsDelivered_example :
    (codes "r9" ≡ codes "r9")
    × ((svc : Service) × (p : Permission) × IsAuthorized 100
          (codes "d1")
          (codes "docs")
          (codes "GET")
          (codes "/docs/a")
          svc
          p
          queued_db
        × ((p.mode ≡ approval_required)
            ⊎ IsDelivered vault_env normal svc
                (transact (submit_tx vault_env (codes "d1") get_docs) [] queued_db).1))
unfolding running
submit_tx-IsDelivered_example =
    submit_tx-IsDelivered vault_env (codes "d1") get_docs normal [] queued_db
      (transact (submit_tx vault_env (codes "d1") get_docs) [] queued_db).1 (codes "r9") refl
      (λ svc p headers url a l t. vault_env-IsFaithful _ _)
      ((λ m. ground (arith, m)), ((λ m. m), tt)) refl refl
