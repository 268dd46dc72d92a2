-- ===== src/Server/Automaton.antt =====
-- The life of a request as an automaton on its status, which every step of the server follows.
use budge.Base.{
  ◌≡◌, refl, sym, ap, subst, ◌∙◌, ◌⊎◌, inl, inr, Bool, Option, List, [], ◌∷◌, In, All-In, update,
}
use budge.Base.Text.{Text, text_eq_iff}
use budge.Requests.Types.{Result, Outcome, ok, err, sql_error}
use budge.Requests.Environment.{Environment}
use budge.Store.Tables.{Status, dispatching, has_id, Db}
use budge.Store.Transaction.{Conn, done, ◌>>◌, begin, commit, transact}
use budge.Store.Relates.{transact-relates}
use budge.Store.Inversion.{transact-ok, transact-err, bind-done, begin-done, commit-done}
use budge.Server.Lifecycle.{Quiet, Sending, here, next, moved_to}
use budge.Server.Growth.{IsGrown, HasKeys, growth}
use budge.Server.ClaimSteps.{marked-done, marked}
use budge.Server.Dispatch.{
  Verdict, claim_tx, mark_finished, finish_row, finish_tx, finish, Exchange, outcome_of,
}
use budge.Server.System.{
  Flight, System, flight_ids, after_flight, Step, operate, claim, end_flight, restart, Reach, start,
  then_step,
}
use budge.Server.Operations.{run-IsGrown}
use budge.Server.Flights.{IsSound}
use budge.Server.Final.{recover_tx-IsGrown}
use budge.Server.Once.{started, started-IsSound, Reach-IsSound}
use budge.Server.Edges.{
  Life, quiet, sending, IsGrown-map, updated-IsGrown, claim-IsGrown, outcome-IsLanding,
}

finish_tx-done :
    (env : Environment) (id : Text) (t : Status) (reason : Text) (result : Option Result)
    (c d : Conn) {u : Unit {0}}
    → finish_tx env id t reason result c ≡ done u d
    → (d.db.requests ≡ update (has_id id) (finish_row env id t reason result) c.db.requests)
      × (d.db.invitations ≡ c.db.invitations)
unfolding finish_tx mark_finished
finish_tx-done env id t reason result c d h =
    let (c2, e2, h2) =
      marked-done sql_error (mark_finished env id t reason result) _ (commit sql_error) c h in
    let m = marked _ c.db _ d.db (commit-done sql_error c2 h2 ∙ e2) in (m.requests, m.invitations)

-- `finish` writes its outcome, or leaves the tables alone.
finish-cases :
    (env : Environment) (id : Text) (t : Status) (reason : Text) (result : Option Result)
    (faults : List Bool) (db : Db)
    → (finish env id t reason result faults db ≡ db)
      ⊎ (((finish env id t reason result faults db).requests
            ≡ update (has_id id) (finish_row env id t reason result) db.requests)
          × ((finish env id t reason result faults db).invitations ≡ db.invitations))
unfolding finish
finish-cases env id t reason result faults db =
    go (transact (begin sql_error >> finish_tx env id t reason result) faults db) refl
  where
    go :
        (r : Outcome (Unit {0}) × Db)
        → transact (begin sql_error >> finish_tx env id t reason result) faults db ≡ r
        → (r.1 ≡ db)
          ⊎ ((r.1.requests ≡ update (has_id id) (finish_row env id t reason result) db.requests)
              × (r.1.invitations ≡ db.invitations))
    go (err e, db') h = inl (transact-err _ faults db h)
    go (ok u, db') h =
        let (d, came, same) = transact-ok _ faults db h in
        let (u0, c0, e0, h0) =
          bind-done (begin sql_error) (λ _. finish_tx env id t reason result) _ came in
        let start : c0.db ≡ db = begin-done sql_error _ e0 in
        let (requests, invitations) = finish_tx-done env id t reason result c0 d h0 in
        inr (
          ap (λ (x : Db). x.requests) (sym same)
              ∙ requests
              ∙ ap (λ (x : Db). update (has_id id) (finish_row env id t reason result) x.requests)
                  start,
          ap (λ (x : Db). x.invitations) (sym same)
              ∙ invitations
              ∙ ap (λ (x : Db). x.invitations) start,
        )

-- The outcome of a flight, whose row is `dispatching`.
flight-IsGrown :
    (env : Environment) (f : Flight) (x : Exchange) (faults : List Bool) (s : System)
    → IsSound s
    → In f s.flights
    → IsGrown Life s.db (after_flight env f x faults s).db
unfolding after_flight
flight-IsGrown env f x faults s h m =
    elim (finish-cases env f.id v.status v.reason v.result faults s.db) [
      | inl e ↦ subst (IsGrown Life s.db) (sym e) ((growth Life).reflexive s.db h.flying.keys)
      | inr (requests, invitations) ↦
          updated-IsGrown (has_id f.id) (finish_row env f.id v.status v.reason v.result) s.db _
            (λ r there p.
              let st : r.status ≡ dispatching = All-In _ s.db.requests h.flying.rows there (
                subst (λ t. In t (flight_ids s.flights)) (sym ((text_eq_iff r.id f.id).0 p))
                  (flight_id s.flights m)) in
              moved_to r v.status _ _ _ _ (
                next here (
                  subst (λ y. Life y v.status) (sym st)
                    (sending (outcome-IsLanding env f.snapshot f.service x)))))
            h.flying.keys requests invitations
    ]
  where
    v : Verdict
    v = outcome_of env f.snapshot f.service x

    flight_id : (fs : List Flight) → In f fs → In f.id (flight_ids fs)
    flight_id [] n = elim n [ ]
    flight_id (g ∷ fs) (inl e) = inl (ap (λ (y : Flight). y.id) e)
    flight_id (g ∷ fs) (inr n) = inr (flight_id fs n)

-- One step of the server follows the automaton.
Step-IsGrown : (s t : System) → Step s t → IsSound s → IsGrown Life s.db t.db
Step-IsGrown s t (operate o faults) h =
    IsGrown-map Quiet Life (λ x y e. quiet e) s.db _ (run-IsGrown o faults s.db h.left.keys)
Step-IsGrown s t (claim env id faults) h =
    claim-IsGrown env id faults s h.left.keys (transact (claim_tx env id) faults s.db) refl
Step-IsGrown s t (end_flight env f x faults m) h = flight-IsGrown env f x faults s h m
Step-IsGrown s t (restart env faults) h =
    IsGrown-map Sending Life (λ x y e. sending e) s.db _
      (transact-relates (growth Sending) _ faults s.db (recover_tx-IsGrown env) h.left.keys)

pub Steps-IsGrown : (s t : System) → Reach s t → IsSound s → IsGrown Life s.db t.db
Steps-IsGrown s t start h = (growth Life).reflexive s.db h.left.keys
Steps-IsGrown s t (then_step {t = u} r e) h =
    (growth Life).transitive s.db u.db t.db (Steps-IsGrown s u r h)
      (Step-IsGrown u t e (Reach-IsSound s u r h))

-- Every run of a server that starts on a database whose requests have distinct identifiers, with
-- storage errors, claims, outcomes and restarts in any order, refines the automaton of a request:
-- each row keeps its place and its identifying columns, and its status moves along edges of the
-- automaton only; new rows come after, and identifiers stay distinct. A used invitation stays used.
pub Reach-IsGrown :
    (db : Db) (t : System) → HasKeys db → Reach (started db) t → IsGrown Life db t.db
Reach-IsGrown db t k r = Steps-IsGrown (started db) t r (started-IsSound db k)
