-- ===== src/Server/Claimed.antt =====
-- internal/server/requests.go: what a claim of `dispatch` found, and what it leaves.
use budge.Access.Scope.{approval_required}
use budge.Server.Claims.{request_row-In}
use budge.Server.Lifecycle.{Pointwise, Pointwise-updated}
use budge.Base.{
  arith, ◌⊎◌, ◌&&◌, [], ◌∷◌, length, select, Any, Any-map, In, Bool-cases, ◌≡◌, refl, sym, ap,
  subst, ◌∙◌, inl, inr, Bool, true, some, List,
}
use budge.Base.Text.{text_eq, text_eq_iff, Text}
use budge.Requests.Types.{Snapshot, Service, ok}
use budge.Requests.Environment.{Environment}
use budge.Store.Tables.{
  Status, queued, dispatching, approve, Decision, Approval, has_id, is_queued, RequestRow, Db,
}
use budge.Store.Transaction.{transact}
use budge.Store.Inversion.{transact-ok}
use budge.Server.Snapshot.{request_row}
use budge.Server.Dispatch.{is_approve, approval_count, claimed, mark_dispatching, claim_tx}
use budge.Server.ClaimSteps.{IsMarked, IsClaimable}
use budge.Server.ClaimDone.{claim_tx-done}

-- A queued row of the identifier is sent, and each other row stays as it is.
abbrev pub Claims : Text → RequestRow → RequestRow → Type 0
Claims id r r' =
    ((r.id ≡ id) × (r.status ≡ queued) × (r' ≡ record r { status = dispatching }))
    ⊎ (¬ ((r.id ≡ id) × (r.status ≡ queued)) × (r' ≡ r))

-- An approval of the request with its stored digest.
abbrev pub Approves : RequestRow → Approval → Type 0
Approves row a = (a.request_id ≡ row.id) × (a.decision ≡ approve) × (a.digest ≡ row.snapshot_digest)

counted {ℓ} :
    {A : Type ℓ} (p : A → Bool) (xs : List A) → length (select p xs) ≡ 1 → Any (λ x. p x ≡ true) xs
counted p [] h = ground (arith, h)
counted p (x ∷ xs) h = elim (Bool-cases (p x)) [
  | inl e ↦ inl e
  | inr e ↦ inr (counted p xs (rw e at h))
]

approved-Any :
    (id : Text) (row : RequestRow) (db : Db)
    → request_row id db ≡ some row
    → row.id ≡ id
    → approval_count id db ≡ 1
    → Any (Approves row) db.approvals
unfolding approval_count
approved-Any id row db f same h =
    let one : length (
          select
            (λ (a : Approval).
              text_eq a.request_id id
              && is_approve a.decision
              && text_eq a.digest row.snapshot_digest)
            db.approvals)
        ≡ 1 =
      rw (approval_count, f) at h in
    Any-map
      (λ a e. (
        (text_eq_iff a.request_id id).0 (ground (arith, e)) ∙ sym same,
        is_approve-eq a.decision (ground (arith, e)),
        (text_eq_iff a.digest row.snapshot_digest).0 (ground (arith, e)),
      ))
      db.approvals (counted _ db.approvals one)
  where
    is_approve-eq : (d : Decision) → is_approve d ≡ true → d ≡ approve
    is_approve-eq d e = ground arith

is_queued-eq : (s : Status) → is_queued s ≡ true → s ≡ queued
is_queued-eq s h = ground arith

mark_dispatching-Claims :
    (id : Text) (db : Db) → Pointwise (Claims id) db.requests (mark_dispatching id db).requests
unfolding mark_dispatching
mark_dispatching-Claims id db =
    Pointwise-updated (Claims id) _ (λ r. record r { status = dispatching }) db.requests
      (λ r e. inl (
        (text_eq_iff r.id id).0 (ground (arith, e)),
        is_queued-eq r.status (ground (arith, e)),
        refl,
      ))
      (λ r e. inr (
        λ (i, w).
            let a : text_eq r.id id ≡ true = (text_eq_iff r.id id).1 i in
            let b : is_queued r.status ≡ true = ap is_queued w in
            let c : (has_id id r && is_queued r.status) ≡ true = ground (arith, a, b) in cc,
        refl,
      ))

-- What a claim found and what it leaves.
pub record IsClaimed (env : Environment) (id : Text) (snap : Snapshot) (svc : Service) (db db' : Db)
    : Type 0 where
  pub claimable : IsClaimable env id snap svc db
  pub there : In claimable.request.row db.requests
  pub same_id : claimable.request.row.id ≡ id
  pub was_queued : claimable.request.row.status ≡ queued
  pub approval :
      claimable.permission.mode ≡ approval_required
      → Any (Approves claimable.request.row) db.approvals
  pub requests : Pointwise (Claims id) db.requests db'.requests
  pub permissions : db'.permissions ≡ db.permissions
  pub approvals : db'.approvals ≡ db.approvals
  pub invitations : db'.invitations ≡ db.invitations

effect-IsClaimed :
    (env : Environment) (id : Text) (snap : Snapshot) (svc : Service) (db db' : Db)
    → IsClaimable env id snap svc db
    → IsMarked (mark_dispatching id db).requests db db'
    → IsClaimed env id snap svc db db'
effect-IsClaimed env id snap svc db db' k m =
    let (there, same) = request_row-In id db k.request.row k.request.found in
    record {
      claimable = k;
      there = there;
      same_id = same;
      was_queued = is_queued-eq k.request.row.status k.request.queued;
      approval = λ e. approved-Any id k.request.row db k.request.found same (k.approved e);
      requests =
          subst (Pointwise (Claims id) db.requests) (sym m.requests)
            (mark_dispatching-Claims id db);
      permissions = m.permissions;
      approvals = m.approvals;
      invitations = m.invitations;
    }

-- When the transaction of a dispatch claims the request, a row of the identifier was queued and
-- held the snapshot intact; the device was active, the service enabled at the snapshot's revision
-- and target, and the snapshot's permission in force and matching; where that permission asks for
-- approval, one approval of the stored digest was there. The request is then `dispatching`, and no
-- other request, no permission, approval or invitation has changed.
pub claim-IsClaimable :
    (env : Environment) (id : Text) (faults : List Bool) (db db' : Db) (snap : Snapshot)
    (svc : Service)
    → transact (claim_tx env id) faults db ≡ (ok (claimed snap svc), db')
    → IsClaimed env id snap svc db db'
claim-IsClaimable env id faults db db' snap svc h =
    let (d, came, same) = transact-ok (claim_tx env id) faults db h in
    let (able, marks) = (claim_tx-done env id _ came).1 in
    subst (IsClaimed env id snap svc db) same (effect-IsClaimed env id snap svc db d.db able marks)
