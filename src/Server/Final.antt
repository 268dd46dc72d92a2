-- ===== src/Server/Final.antt =====
-- A request that ended stays as it ended: no step changes a terminal status.
use budge.Base.{
  arith, ◌≡◌, refl, sym, ap, subst, ◌∙◌, inl, inr, Bool, true, false, List, [], ◌∷◌, In, All-In,
  and-true,
}
use budge.Base.Text.{Text}
use budge.Requests.Types.{sql_error, Outcome, ok, err}
use budge.Requests.Environment.{Environment}
use budge.Store.Tables.{
  Status, dispatching, outcome_unknown, is_queued, is_dispatching, terminal, RequestRow, has_id, Db,
}
use budge.Store.Transaction.{transact}
use budge.Store.Relates.{Relates, bind-Relates, begin-Relates, commit-Relates, transact-relates}
use budge.Store.Inversion.{transact-ok, transact-err}
use budge.Server.Lifecycle.{
  loses, Quiet, Quiet-still, Sending, claim as claim_move, complete, fail, lose, Star, here, next,
  ids_of,
}
use budge.Server.Growth.{IsGrown, HasKeys, growth, end_requests-Relates}
use budge.Server.Left.{IsKept, IsKept_grown, IsKept_update}
use budge.Server.Claims.{IsKept_dropped}
use budge.Server.ClaimDone.{claim_tx-done}
use budge.Server.Dispatch.{Claim, dropped, claimed, claim_tx, mark_dispatching}
use budge.Server.Maintenance.{recover_tx}
use budge.Server.System.{
  Flight, System, flight_ids, after_claim, after_flight, Step, operate, claim, end_flight, restart,
  Reach, start, then_step,
}
use budge.Server.Operations.{run-IsGrown}
use budge.Server.Flights.{IsSound, finish_kept}
use budge.Server.Once.{started, started-IsSound, Reach-IsSound}

Sending-still : {s t : Status} → Star Sending s t → terminal s ≡ true → t ≡ s
Sending-still here h = refl
Sending-still (next p claim_move) h = ground (arith, Sending-still p h)
Sending-still (next p complete) h = ground (arith, Sending-still p h)
Sending-still (next p fail) h = ground (arith, Sending-still p h)
Sending-still (next p lose) h = ground (arith, Sending-still p h)

pub recover_tx-IsGrown : (env : Environment) → Relates HasKeys (IsGrown Sending) (recover_tx env)
unfolding recover_tx
recover_tx-IsGrown env =
    bind-Relates (growth Sending) _ _ (begin-Relates (growth Sending) sql_error) λ _.
      bind-Relates (growth Sending) _ _
        (end_requests-Relates Sending is_dispatching outcome_unknown loses
          (λ r. is_dispatching r.status) (λ r e. e) _ _ env.now)
        (λ _. commit-Relates (growth Sending) sql_error)

module _ (st : Status) (ended : terminal st ≡ true) (ids : List Text) where
  abbrev Stays : Status → Type 0
  Stays s = s ≡ st

  still_quiet : (s t : Status) → Stays s → Star Quiet s t → Stays t
  still_quiet s t h m = Quiet-still m (ground arith) ∙ h

  still-Sending : (s t : Status) → Stays s → Star Sending s t → Stays t
  still-Sending s t h m = Sending-still m (ground arith) ∙ h

  rests : (s : Status) → Stays s → is_queued s ≡ false
  rests s h = ground arith

  dispatching_kept :
      (id : Text) (a b : Db)
      → b.requests ≡ (mark_dispatching id a).requests
      → IsKept Stays ids a
      → IsKept Stays ids b
  unfolding mark_dispatching
  dispatching_kept id a b e k =
      IsKept_update Stays ids _ (λ r. record r { status = dispatching }) (λ r. refl) a b e k
        λ r m p i.
          let q = (and-true (has_id id r) (is_queued r.status) p).1 in
          let n = rests r.status (All-In _ a.requests k.rows m i) in cc

  claim_kept :
      (env : Environment) (id : Text) (faults : List Bool) (s : System)
      → IsKept Stays ids s.db
      → (r : Outcome Claim × Db) → transact (claim_tx env id) faults s.db ≡ r
      → IsKept Stays ids (after_claim id s r).db
  unfolding after_claim
  claim_kept env id faults s k (ok dropped, db) e =
      let (d, came, same) = transact-ok (claim_tx env id) faults s.db e in
      let ((row, found, q), (t, reason, ends, marked)) = claim_tx-done env id _ came in
      IsKept_dropped Stays ids env id t reason s.db db row rests k found q
        (ap (λ (x : Db). x.requests) (sym same) ∙ marked.requests)
  claim_kept env id faults s k (ok (claimed snap svc), db) e =
      let (d, came, same) = transact-ok (claim_tx env id) faults s.db e in
      let ((row, found, q), (claimable, marked)) = claim_tx-done env id _ came in
      dispatching_kept id s.db db (ap (λ (x : Db). x.requests) (sym same) ∙ marked.requests) k
  claim_kept env id faults s k (err x, db) e =
      subst (IsKept Stays ids) (sym (transact-err (claim_tx env id) faults s.db e)) k

  flight_apart :
      (s : System) (f : Flight) → IsSound s → In f s.flights → IsKept Stays ids s.db → ¬ In f.id ids
  flight_apart s f h m k i =
      let there = All-In _ _ h.flying.known (flight_id s.flights m) in
      let (r, mr, same) = row_of s.db.requests there in
      let a : r.status ≡ dispatching =
        All-In _ s.db.requests h.flying.rows mr
          (subst (λ t. In t (flight_ids s.flights)) same (flight_id s.flights m)) in
      let b : r.status ≡ st = All-In _ s.db.requests k.rows mr (subst (λ t. In t ids) same i) in
      let c : terminal dispatching ≡ true = subst (λ x. terminal x ≡ true) (sym b ∙ a) ended in cc
    where
      flight_id : (fs : List Flight) → In f fs → In f.id (flight_ids fs)
      flight_id [] m = elim m [ ]
      flight_id (g ∷ fs) (inl e) = inl (ap (λ (x : Flight). x.id) e)
      flight_id (g ∷ fs) (inr m) = inr (flight_id fs m)

      row_of :
          (rows : List RequestRow)
          → In f.id (ids_of rows)
          → (r : RequestRow) × In r rows × (f.id ≡ r.id)
      row_of [] m = elim m [ ]
      row_of (r ∷ rows) (inl e) = (r, inl refl, e)
      row_of (r ∷ rows) (inr m) = let (q, there, e) = row_of rows m in (q, inr there, e)

  Step-kept : (s t : System) → Step s t → IsSound s → IsKept Stays ids s.db → IsKept Stays ids t.db
  unfolding after_flight
  Step-kept s t (operate o faults) h k =
      IsKept_grown Quiet Stays ids still_quiet s.db _ k (run-IsGrown o faults s.db k.keys)
  Step-kept s t (claim env id faults) h k =
      claim_kept env id faults s k (transact (claim_tx env id) faults s.db) refl
  Step-kept s t (end_flight env f x faults m) h k =
      finish_kept Stays env f.id _ _ _ faults ids s.db (flight_apart s f h m k) k
  Step-kept s t (restart env faults) h k =
      IsKept_grown Sending Stays ids still-Sending s.db _ k
        (transact-relates (growth Sending) _ faults s.db (recover_tx-IsGrown env) k.keys)

  Reach-kept :
      (s t : System) → Reach s t → IsSound s → IsKept Stays ids s.db → IsKept Stays ids t.db
  Reach-kept s t start h k = k
  Reach-kept s t (then_step {t = u} r e) h k =
      Step-kept u t e (Reach-IsSound s u r h) (Reach-kept s u r h k)

-- From any system that a server reaches on, requests that ended with a terminal status keep it
-- through all further steps, and their rows stay in the table.
pub terminal_stays :
    (db : Db) (s t : System) (st : Status) (ids : List Text)
    → HasKeys db
    → Reach (started db) s
    → Reach s t
    → terminal st ≡ true
    → IsKept (λ x. x ≡ st) ids s.db
    → IsKept (λ x. x ≡ st) ids t.db
terminal_stays db s t st ids k before after ended kept =
    Reach-kept st ended ids s t after (Reach-IsSound (started db) s before (started-IsSound db k))
      kept
