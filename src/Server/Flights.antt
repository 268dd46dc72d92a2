-- ===== src/Server/Flights.antt =====
-- What a claim and the end of a flight do to the requests that were sent.
use budge.Base.{
  arith, ◌≡◌, refl, sym, ap, subst, ◌∙◌, ◌⊎◌, inl, inr, Bool, true, false, Option, List, [], ◌∷◌,
  ◌++◌, In, All-In, All-of_In, All-map, Bool-cases, Option-cases,
}
use budge.Base.Text.{Text, text_eq, text_eq_iff}
use budge.Requests.Types.{Snapshot, Service, Result, sql_error, Outcome, ok, err}
use budge.Requests.Environment.{Environment}
use budge.Store.Tables.{Status, dispatching, is_queued, is_waiting, Event, Db}
use budge.Store.Transaction.{transact}
use budge.Store.Relates.{
  bind-Relates, exec-Relates, audit-Relates, begin-Relates, commit-Relates, transact-relates,
  IsPreorder, invariant,
}
use budge.Store.Inversion.{transact-ok, transact-err}
use budge.Server.Lifecycle.{Quiet, Quiet-still, Star, Distinct}
use budge.Server.Left.{IsKept, IsKept_update, Left, finish_tx-left, claim_tx-left}
use budge.Server.Claims.{queued_apart, IsKept_claimed, IsKept_dropped}
use budge.Server.ClaimDone.{claim_tx-done}
use budge.Server.Dispatch.{
  Claim, dropped, claimed, claim_tx, mark_finished, finish_row, finish_tx, finish, Exchange,
  not_sent, lost, response, verdict, outcome_of,
}
use budge.Server.System.{Flight, System, flight_ids, land, after_claim, after_flight}

-- The status of a request in flight.
abbrev pub Flying : Status → Type 0
Flying s = s ≡ dispatching

-- The invariant of the server.
pub record IsSound (s : System) : Type 0 where
  pub left : IsKept Left s.sent s.db
  pub flying : IsKept Flying (flight_ids s.flights) s.db
  pub apart : Distinct (flight_ids s.flights)
  pub once : Distinct s.sent

left_rests : (s : Status) → Left s → is_queued s ≡ false
left_rests s h = ground arith

Flying-rests : (s : Status) → Flying s → is_queued s ≡ false
Flying-rests s h = ground arith

pub still_left : (s t : Status) → Left s → Star Quiet s t → Left t
still_left s t h m = subst Left (sym (Quiet-still m h)) h

pub still-Flying : (s t : Status) → Flying s → Star Quiet s t → Flying t
still-Flying s t h m = subst Flying (sym (Quiet-still m (ap is_waiting h))) h

verdict-Left :
    (env : Environment) (svc : Service) (x : Exchange)
    → is_waiting (verdict env svc x).status ≡ false
unfolding verdict
verdict-Left env svc not_sent = refl
verdict-Left env svc lost = refl
verdict-Left env svc (response status fields body true) = refl
verdict-Left env svc (response status fields body false) = refl

-- An outcome ends the request for good.
outcome_of-Left :
    (env : Environment) (snap : Snapshot) (svc : Service) (x : Exchange)
    → is_waiting (outcome_of env snap svc x).status ≡ false
unfolding outcome_of
outcome_of-Left env snap svc x =
    elim (Option-cases (env.unseal snap.credential_ref svc.credential)) [
      | inl e ↦ rw (outcome_of, e) refl
      | inr (secret, e) ↦ rw (outcome_of, e) (verdict-Left env svc x)
    ]

land-In :
    (id t : Text) (fs : List Flight)
    → In t (flight_ids (land id fs))
    → In t (flight_ids fs) × ¬ (t ≡ id)
land-In id t [] m = elim m [ ]
land-In id t (f ∷ fs) m = elim (Bool-cases (text_eq f.id id)) [
  | inl e ↦
      let k : In t (flight_ids (land id fs)) = rw e at m in
      let (there, ne) = land-In id t fs k in (inr there, ne)
  | inr e ↦
      let k : (t ≡ f.id) ⊎ In t (flight_ids (land id fs)) = rw e at m in
      elim k [
        | inl q ↦ (inl q, λ same. ground (arith, text_eq_iff f.id id, sym q ∙ same))
        | inr m' ↦ let (there, ne) = land-In id t fs m' in (inr there, ne)
      ]
]

land-Distinct :
    (id : Text) (fs : List Flight) → Distinct (flight_ids fs) → Distinct (flight_ids (land id fs))
land-Distinct id [] d = d
land-Distinct id (f ∷ fs) (out, d) = elim (Bool-cases (text_eq f.id id)) [
  | inl e ↦ rw e (land-Distinct id fs d)
  | inr e ↦ rw e ((λ m. out (land-In id f.id fs m).0), land-Distinct id fs d)
]

-- Rows of other identifiers keep what they have when an outcome is recorded.
pub finish_kept :
    (Q : Status → Type 0) (env : Environment) (id : Text) (t : Status) (reason : Text)
    (result : Option Result) (faults : List Bool) (ids : List Text) (db : Db)
    → ¬ In id ids
    → IsKept Q ids db
    → IsKept Q ids (finish env id t reason result faults db)
unfolding finish finish_tx mark_finished
finish_kept Q env id t reason result faults ids db out = transact-relates kept _ faults db (
    bind-Relates kept _ _ (begin-Relates kept sql_error) λ _.
      bind-Relates kept _ _ (exec-Relates kept sql_error _ marks) λ _.
        bind-Relates kept _ _ (audit-Relates kept sql_error _ (audits _))
          (λ _. commit-Relates kept sql_error))
  where
    kept : IsPreorder (IsKept Q ids) (λ a b. IsKept Q ids b)
    kept = invariant (IsKept Q ids)

    marks : (a : Db) → IsKept Q ids a → IsKept Q ids (mark_finished env id t reason result a)
    marks a k =
        IsKept_update Q ids _ (finish_row env id t reason result) (λ r. refl) a _ refl k
          (λ r m e i. absurd (out (subst (λ x. In x ids) ((text_eq_iff r.id id).0 e) i)))

    audits :
        (ev : Event) (a : Db)
        → IsKept Q ids a
        → IsKept Q ids (record a { audit = a.audit ++ (ev ∷ []) })
    audits ev a k = record { keys = k.keys; known = k.known; rows = k.rows }

-- Fewer identifiers.
fewer :
    (Q : Status → Type 0) (ids some_ids : List Text) (db : Db)
    → ((t : Text) → In t some_ids → In t ids)
    → IsKept Q ids db
    → IsKept Q some_ids db
fewer Q ids some_ids db sub k = record {
  keys = k.keys;
  known = All-of_In _ some_ids (λ t m. All-In _ ids k.known (sub t m));
  rows =
      All-map {Q = λ r. In r.id some_ids → Q r.status} (λ r q m. q (sub r.id m)) db.requests k.rows;
}

-- What the transaction of a claim does, by its outcome.
claim-dropped :
    (env : Environment) (id : Text) (faults : List Bool) (s : System) (db : Db)
    → IsSound s
    → IsKept Left s.sent db
    → transact (claim_tx env id) faults s.db ≡ (ok dropped, db)
    → IsSound (record s { db = db })
claim-dropped env id faults s db h l e =
    let (d, came, same) = transact-ok (claim_tx env id) faults s.db e in
    let ((row, found, q), (t, reason, ends, marked)) = claim_tx-done env id _ came in
    record {
      left = l;
      flying =
          IsKept_dropped Flying (flight_ids s.flights) env id t reason s.db db row Flying-rests
            h.flying found q (ap (λ (x : Db). x.requests) (sym same) ∙ marked.requests);
      apart = h.apart;
      once = h.once;
    }

claim-claimed :
    (env : Environment) (id : Text) (faults : List Bool) (s : System) (snap : Snapshot)
    (svc : Service) (db : Db)
    → IsSound s
    → transact (claim_tx env id) faults s.db ≡ (ok (claimed snap svc), db)
    → IsSound (after_claim id s (ok (claimed snap svc), db))
unfolding after_claim
claim-claimed env id faults s snap svc db h e =
    let (d, came, same) = transact-ok (claim_tx env id) faults s.db e in
    let ((row, found, q), (claimable, marked)) = claim_tx-done env id _ came in
    let rows = ap (λ (x : Db). x.requests) (sym same) ∙ marked.requests in
    record {
      left = IsKept_claimed Left s.sent id s.db db row refl h.left found q rows;
      flying =
          IsKept_claimed Flying (flight_ids s.flights) id s.db db row refl h.flying found q rows;
      apart = (queued_apart Flying _ id s.db row Flying-rests h.flying found q, h.apart);
      once = (queued_apart Left s.sent id s.db row left_rests h.left found q, h.once);
    }

pub claim-IsSound :
    (env : Environment) (id : Text) (faults : List Bool) (s : System)
    → IsSound s
    → (r : Outcome Claim × Db) → transact (claim_tx env id) faults s.db ≡ r
    → IsSound (after_claim id s r)
unfolding after_claim
claim-IsSound env id faults s h (ok dropped, db) e =
    claim-dropped env id faults s db h
      (subst (IsKept Left s.sent) (ap (λ (x : Outcome Claim × Db). x.1) e) (
        transact-relates (invariant (IsKept Left s.sent)) _ faults s.db
          (claim_tx-left s.sent env id) h.left))
      e
claim-IsSound env id faults s h (ok (claimed snap svc), db) e =
    claim-claimed env id faults s snap svc db h e
claim-IsSound env id faults s h (err x, db) e =
    let same : db ≡ s.db = transact-err (claim_tx env id) faults s.db e in
    subst (λ a. IsSound (record s { db = a })) (sym same)
      (record { left = h.left; flying = h.flying; apart = h.apart; once = h.once })

finish_left :
    (sent : List Text) (env : Environment) (id : Text) (t : Status) (reason : Text)
    (result : Option Result) (faults : List Bool) (db : Db)
    → is_waiting t ≡ false
    → IsKept Left sent db
    → IsKept Left sent (finish env id t reason result faults db)
unfolding finish
finish_left sent env id t reason result faults db e =
    transact-relates (invariant (IsKept Left sent)) _ faults db (
      bind-Relates (invariant (IsKept Left sent)) _ _
        (begin-Relates (invariant (IsKept Left sent)) sql_error)
        (λ _. finish_tx-left sent env id t reason result e))

pub flight-IsSound :
    (env : Environment) (f : Flight) (x : Exchange) (faults : List Bool) (s : System)
    → IsSound s
    → IsSound (after_flight env f x faults s)
unfolding after_flight
flight-IsSound env f x faults s h = record {
  left =
      finish_left s.sent env f.id _ _ _ faults s.db (outcome_of-Left env f.snapshot f.service x)
        h.left;
  flying =
      finish_kept Flying env f.id _ _ _ faults (flight_ids (land f.id s.flights)) s.db
        (λ m. (land-In f.id f.id s.flights m).1 refl)
        (fewer Flying _ _ s.db (λ t m. (land-In f.id t s.flights m).0) h.flying);
  apart = land-Distinct f.id s.flights h.apart;
  once = h.once;
}
