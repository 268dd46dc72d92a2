-- ===== src/Server/Once.antt =====
-- Each request is sent at most once, in any interleaving of the operations.
use budge.Base.{◌≡◌, refl, false, [], All, In, All-of_In}
use budge.Store.Tables.{Status, dispatching, is_waiting, RequestRow, Db}
use budge.Store.Transaction.{transact}
use budge.Store.Relates.{transact-relates, invariant}
use budge.Server.Lifecycle.{Quiet, Distinct}
use budge.Server.Growth.{HasKeys}
use budge.Server.Left.{IsKept, IsKept_grown, Left, recover_tx-left}
use budge.Server.Dispatch.{claim_tx}
use budge.Server.System.{
  System, flight_ids, Step, operate, claim, end_flight, restart, Reach, start, then_step,
}
use budge.Server.Operations.{run-IsGrown}
use budge.Server.Flights.{Flying, IsSound, still_left, still-Flying, claim-IsSound, flight-IsSound}

-- Every step keeps the invariant.
pub Step-IsSound : (s t : System) → Step s t → IsSound s → IsSound t
Step-IsSound s t (operate o faults) h =
    let g = run-IsGrown o faults s.db h.left.keys in
    record {
      left = IsKept_grown Quiet Left s.sent still_left s.db _ h.left g;
      flying = IsKept_grown Quiet Flying (flight_ids s.flights) still-Flying s.db _ h.flying g;
      apart = h.apart;
      once = h.once;
    }
Step-IsSound s t (claim env id faults) h =
    claim-IsSound env id faults s h (transact (claim_tx env id) faults s.db) refl
Step-IsSound s t (end_flight env f x faults m) h = flight-IsSound env f x faults s h
Step-IsSound s t (restart env faults) h =
    let l =
      transact-relates (invariant (IsKept Left s.sent)) _ faults s.db (recover_tx-left s.sent env)
        h.left in
    record {
      left = l;
      flying = record { keys = l.keys; known = tt; rows = All-of_In _ _ (λ r m k. elim k [ ]) };
      apart = tt;
      once = h.once;
    }

pub Reach-IsSound : (s t : System) → Reach s t → IsSound s → IsSound t
Reach-IsSound s t start h = h
Reach-IsSound s t (then_step {t = u} r e) h = Step-IsSound u t e (Reach-IsSound s u r h)

-- A server that starts on a database.
abbrev pub started : Db → System
started db = record { db = db; flights = []; sent = [] }

abbrev rest_empty : (Q : Status → Type 0) (db : Db) → HasKeys db → IsKept Q [] db
rest_empty Q db k = record { keys = k; known = tt; rows = All-of_In _ _ (λ r m i. elim i [ ]) }

pub started-IsSound : (db : Db) → HasKeys db → IsSound (started db)
started-IsSound db k = record {
  left = rest_empty Left db k;
  flying = rest_empty Flying db k;
  apart = tt;
  once = tt;
}

-- A server that starts on a database whose requests have distinct identifiers, and takes any steps,
-- storage errors and restarts among them, sends no request twice: the list of the identifiers that
-- it claimed has no duplicate.
pub sent_once : (db : Db) (t : System) → HasKeys db → Reach (started db) t → Distinct t.sent
sent_once db t k r = (Reach-IsSound (started db) t r (started-IsSound db k)).once

-- In every system that such a server reaches, no request that was sent waits for a decision or in
-- the queue, and the request of each flight is `dispatching`, so that its outcome replaces no
-- other.
pub sent_left :
    (db : Db) (t : System)
    → HasKeys db
    → Reach (started db) t
    → All (λ (r : RequestRow). In r.id t.sent → is_waiting r.status ≡ false) t.db.requests
      × All
          (λ (r : RequestRow). In r.id (flight_ids t.flights) → r.status ≡ dispatching)
          t.db.requests
sent_left db t k r =
    let h = Reach-IsSound (started db) t r (started-IsSound db k) in (h.left.rows, h.flying.rows)
