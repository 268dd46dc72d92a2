-- ===== src/Server/Delivered.antt =====
-- internal/server/requests.go: `Submit` and then `dispatch`, of a request that needs no approval.
use budge.Base.{
  arith, ◌≡◌, refl, sym, ap, subst, ◌∙◌, ◌⊎◌, inl, inr, Bool, false, Option, none, some, List, [],
  ◌∷◌, ◌++◌, any,
}
use budge.Base.Text.{Text}
use budge.Access.Syntax.{Url, target}
use budge.Access.Scope.{Mode, standing, approval_required, Permission}
use budge.Upstream.Header.{Field}
use budge.Requests.Types.{Submission, Snapshot, Service, Outcome, ok}
use budge.Requests.Environment.{Environment}
use budge.Requests.Normalize.{normalize, application_headers}
use budge.Store.Tables.{RequestRow, Event, Db}
use budge.Store.Transaction.{transact}
use budge.Server.Authorized.{IsAuthorized}
use budge.Server.Lifecycle.{Pointwise, Distinct}
use budge.Server.Submit.{conflicts, request_by_key, new_snapshot, submit_tx}
use budge.Server.Submitted.{IsResumed, IsCreated, submit_tx-done, insert_request-record}
use budge.Server.Dispatch.{claimed, claim_tx}
use budge.Server.ClaimTotal.{claimed_db, claim_tx-claimed}
use budge.Server.Inserted.{
  ReadsBack, permission_ids, Dispatches, enabled_service-id, stored, new_row, with_row,
  new_row-IsReadyToSend, claimed-Dispatches,
}

-- What `dispatch` claims: the submission under the permission, its row and no other.
pub record IsDelivered (env : Environment) (s : Submission) (svc : Service) (db : Db) : Type 0 where
  pub snap : Snapshot
  pub after : Db
  pub comes_through : transact (claim_tx env env.new_id) [] db ≡ (ok (claimed snap svc), after)
  pub service : snap.service_id ≡ s.service
  pub method : snap.method ≡ s.method
  pub path : snap.path ≡ s.path
  pub body : snap.body ≡ s.body
  pub to_target : target env.parse_url svc.base_url s.path s.query ≡ some snap.url
  pub requests : Pointwise (Dispatches env.new_id) db.requests after.requests

module _ (env : Environment) (device : Text) (s : Submission) (db : Db) (svc : Service)
    (p : Permission) (headers : List Field) (url : Url) (events : List Event) where
  delivered :
      ReadsBack env device s db
      → application_headers s svc ≡ ok headers
      → Distinct (permission_ids db.permissions)
      → IsAuthorized env.now device s.service s.method s.path svc p db
      → target env.parse_url svc.base_url s.path s.query ≡ some url
      → any (conflicts (new_row env device s db svc p headers url events)) db.requests ≡ false
      → p.mode ≡ standing
      → IsDelivered env s svc (with_row env device s db svc p headers url events)
  unfolding new_snapshot
  delivered v l d a t free m = record {
    snap = stored env device s db svc p headers url events;
    after =
        claimed_db env.new_id (stored env device s db svc p headers url events)
          (with_row env device s db svc p headers url events);
    comes_through =
        claim_tx-claimed env env.new_id _ svc _
          (new_row-IsReadyToSend env device s db svc p headers url events v l d a t free m);
    service = enabled_service-id s.service db svc a.enabled;
    method = refl;
    path = refl;
    body = refl;
    to_target = t;
    requests = claimed-Dispatches env device s db svc p headers url events free m;
  }

-- Where the snapshot that is stored reads back and permissions have distinct identifiers: after a
-- `Submit` with a new key that came through, either the permission that granted it asks for
-- approval, or `dispatch`, at the same time and where no statement fails, claims the request. What
-- it goes on to send is the service, method, path, target and body that were submitted; its row and
-- no other becomes `dispatching`.
pub submit_tx-IsDelivered :
    (env : Environment) (device : Text) (given s : Submission) (faults : List Bool) (db db' : Db)
    (id : Text)
    → normalize env given ≡ ok s
    → ReadsBack env device s db
    → Distinct (permission_ids db.permissions)
    → request_by_key device (env.hash s.idempotency_key) db ≡ none
    → transact (submit_tx env device given) faults db ≡ (ok id, db')
    → (id ≡ env.new_id)
      × ((svc : Service) × (p : Permission) × IsAuthorized env.now device s.service s.method s.path
            svc p db
          × ((p.mode ≡ approval_required) ⊎ IsDelivered env s svc db'))
submit_tx-IsDelivered env device given s faults db db' id normal v d fresh h =
    let (s', q, how) = submit_tx-done env device given faults db db' id h in
    let one : s' ≡ s = ok_inj (sym q ∙ normal) in
    go
      (elim (subst (λ x. IsResumed env device x id db db' ⊎ IsCreated env device x id db db') one
        how) [
          | inl r ↦
              let e : ◌≡◌ {A = Option RequestRow} none (some r.row) = sym fresh ∙ r.found in cc
          | inr k ↦ k
        ])
  where
    ok_inj : {x y : Submission} → ◌≡◌ {A = Outcome Submission} (ok x) (ok y) → x ≡ y
    ok_inj e = ground arith

    modes : (m : Mode) → (m ≡ standing) ⊎ (m ≡ approval_required)
    modes standing = inl refl
    modes approval_required = inr refl

    go :
        IsCreated env device s id db db'
        → (id ≡ env.new_id)
          × ((svc : Service) × (p : Permission) × IsAuthorized env.now device s.service s.method
                s.path svc p db
              × ((p.mode ≡ approval_required) ⊎ IsDelivered env s svc db'))
    go k =
        let (inserted, free) = insert_request-record _ db k.inserted k.inserts in
        let events : List Event = k.inserted.audit ++ (k.event ∷ []) in
        let snap : Snapshot = new_snapshot env device s k.svc k.granted k.headers k.url in
        let at : db' ≡ with_row env device s db k.svc k.granted k.headers k.url events =
          k.left ∙ ap (λ (x : Db). record x { audit = events }) inserted in
        (
          k.answered,
          (
            k.svc,
            k.granted,
            k.authorized,
            elim (modes k.granted.mode) [
              | inl m ↦ inr (
                  subst (IsDelivered env s k.svc) (sym at) (
                    delivered env device s db k.svc k.granted k.headers k.url events v k.allowed d
                      k.authorized k.targeted free m))
              | inr m ↦ inl m
            ],
          ),
        )
