-- ===== src/Server/Edges.antt =====
-- The automaton of a request, and the edges along which a claim and an outcome move it.
use budge.Base.{
  arith, ◌≡◌, refl, sym, ap, subst, ◌∙◌, ◌⊎◌, inl, inr, Bool, true, false, none, List, [], ◌∷◌, In,
  All-of_In, and-true, Option-cases, update,
}
use budge.Base.Text.{Text, text_eq_iff}
use budge.Requests.Types.{Snapshot, Service, Outcome, ok, err}
use budge.Requests.Environment.{Environment}
use budge.Store.Tables.{
  Status, queued, dispatching, failed, cancelled, is_queued, RequestRow, has_id, Db,
}
use budge.Store.Transaction.{transact}
use budge.Store.Inversion.{transact-ok, transact-err}
use budge.Server.Lifecycle.{
  Quiet, refuse, cancel, Sending, claim as claim_move, complete, fail, lose, Star, here, next,
  IsMoved, moved_to, Pointwise, Moved-update, Moved_refl,
}
use budge.Server.Growth.{Grows, IsGrown, HasKeys, growth, IsGrown-of_moved}
use budge.Server.Claims.{only_row}
use budge.Server.ClaimDone.{claim_tx-done}
use budge.Server.Dispatch.{
  Claim, dropped, claimed, claim_tx, mark_dispatching, mark_finished, finish_row, Exchange,
  not_sent, lost, response, verdict, outcome_of,
}
use budge.Server.System.{System, after_claim}

-- The edges of the automaton.
pub data Life (s t : Status) : Type 0 where
  quiet : Quiet s t → Life s t
  sending : Sending s t → Life s t

module _ (S T : Status → Status → Type 0) (edge : (s t : Status) → S s t → T s t) where
  Star-map : {s t : Status} → Star S s t → Star T s t
  Star-map here = here
  Star-map (next p e) = next (Star-map p) (edge _ _ e)

  IsMoved-map : {r r' : RequestRow} → IsMoved S r r' → IsMoved T r r'
  IsMoved-map m = record {
    id = m.id;
    device_id = m.device_id;
    service_id = m.service_id;
    revision = m.revision;
    permission_id = m.permission_id;
    key_hash = m.key_hash;
    submission_digest = m.submission_digest;
    snapshot_digest = m.snapshot_digest;
    expires = m.expires;
    status = Star-map m.status;
  }

  Grows-map : (xs ys : List RequestRow) → Grows S xs ys → Grows T xs ys
  Grows-map [] ys h = tt
  Grows-map (x ∷ xs) [] h = h
  Grows-map (x ∷ xs) (y ∷ ys) (m, h) = (IsMoved-map m, Grows-map xs ys h)

  pub IsGrown-map : (a b : Db) → IsGrown S a b → IsGrown T a b
  IsGrown-map a b g = record {
    grown = Grows-map a.requests b.requests g.grown;
    distinct = g.distinct;
    spent = g.spent;
  }

-- An UPDATE of the requests, the other columns of the tables being free but for the invitations.
pub updated-IsGrown :
    (p : RequestRow → Bool) (f : RequestRow → RequestRow) (a b : Db)
    → ((r : RequestRow) → In r a.requests → p r ≡ true → IsMoved Life r (f r))
    → HasKeys a
    → b.requests ≡ update p f a.requests
    → b.invitations ≡ a.invitations
    → IsGrown Life a b
updated-IsGrown p f a b moves k e i =
    IsGrown-of_moved Life a b k
      (subst (Pointwise (IsMoved Life) a.requests) (sym e) (
        Moved-update Life p f a.requests a.requests (Moved_refl Life a.requests)
          (All-of_In _ a.requests (λ r m q. moves r m q))))
      i

finish_move :
    (env : Environment) (id : Text) (t : Status) (reason : Text) (r : RequestRow)
    → (t ≡ failed) ⊎ (t ≡ cancelled)
    → r.status ≡ queued
    → IsMoved Life r (finish_row env id t reason none r)
finish_move env id t reason r (inl e) q =
    moved_to r t _ _ _ _
      (next here (subst (λ x. Life x t) (sym q) (subst (Life queued) (sym e) (quiet refuse))))
finish_move env id t reason r (inr e) q =
    moved_to r t _ _ _ _ (
      next here (subst (λ x. Life x t) (sym q) (subst (Life queued) (sym e) (quiet (cancel refl)))))

is_queued_eq : (s : Status) → is_queued s ≡ true → s ≡ queued
is_queued_eq s h = ground arith

dispatch_move :
    (r : RequestRow)
    → is_queued r.status ≡ true
    → IsMoved Life r (record r { status = dispatching })
dispatch_move r h = moved_to r dispatching _ _ _ _ (
    next here
      (subst (λ x. Life x dispatching) (sym (is_queued_eq r.status h)) (sending claim_move)))

pub claim-IsGrown :
    (env : Environment) (id : Text) (faults : List Bool) (s : System)
    → HasKeys s.db
    → (r : Outcome Claim × Db) → transact (claim_tx env id) faults s.db ≡ r
    → IsGrown Life s.db (after_claim id s r).db
unfolding after_claim mark_finished mark_dispatching
claim-IsGrown env id faults s k (ok dropped, db) e =
    let (d, came, same) = transact-ok (claim_tx env id) faults s.db e in
    let ((row, found, q), (t, reason, ends, m)) = claim_tx-done env id _ came in
    updated-IsGrown (has_id id) (finish_row env id t reason none) s.db db
      (λ r there same_id. finish_move env id t reason r ends (
        ap (λ (x : RequestRow). x.status)
          (only_row id s.db row r k found there ((text_eq_iff r.id id).0 same_id))
        ∙ is_queued_eq row.status q))
      k (ap (λ (x : Db). x.requests) (sym same) ∙ m.requests)
      (ap (λ (x : Db). x.invitations) (sym same) ∙ m.invitations)
claim-IsGrown env id faults s k (ok (claimed snap svc), db) e =
    let (d, came, same) = transact-ok (claim_tx env id) faults s.db e in
    let ((row, found, q), (claimable, m)) = claim_tx-done env id _ came in
    updated-IsGrown _ (λ r. record r { status = dispatching }) s.db db
      (λ r there p. dispatch_move r (and-true (has_id id r) (is_queued r.status) p).1) k
      (ap (λ (x : Db). x.requests) (sym same) ∙ m.requests)
      (ap (λ (x : Db). x.invitations) (sym same) ∙ m.invitations)
claim-IsGrown env id faults s k (err x, db) e =
    subst (IsGrown Life s.db) (sym (transact-err (claim_tx env id) faults s.db e))
      ((growth Life).reflexive s.db k)

abbrev IsLanding : Status → Type 0
IsLanding t = Sending dispatching t

verdict-IsLanding :
    (env : Environment) (svc : Service) (x : Exchange) → IsLanding (verdict env svc x).status
unfolding verdict
verdict-IsLanding env svc not_sent = fail
verdict-IsLanding env svc lost = lose
verdict-IsLanding env svc (response status fields body true) = complete
verdict-IsLanding env svc (response status fields body false) = lose

pub outcome-IsLanding :
    (env : Environment) (snap : Snapshot) (svc : Service) (x : Exchange)
    → IsLanding (outcome_of env snap svc x).status
unfolding outcome_of
outcome-IsLanding env snap svc x =
    elim (Option-cases (env.unseal snap.credential_ref svc.credential)) [
      | inl e ↦ rw (outcome_of, e) fail
      | inr (secret, e) ↦ rw (outcome_of, e) (verdict-IsLanding env svc x)
    ]
