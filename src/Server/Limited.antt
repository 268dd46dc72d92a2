-- ===== src/Server/Limited.antt =====
-- The limit of the requests of a device that wait for a decision.
use budge.Base.{
  ltb, ◌&&◌, arith, ℕ, suc, ◌≤◌, ◌≡◌, refl, sym, ap, subst, inl, inr, Bool, true, not, some, List,
  [], ◌∷◌, ◌++◌, length, select, leb, leb_iff, Bool-cases, if◌then◌else◌,
}
use budge.Base.Text.{text_eq, Text}
use budge.Access.Syntax.{Url}
use budge.Access.Scope.{Permission, Mode, standing, approval_required}
use budge.Upstream.Header.{Field}
use budge.Requests.Types.{Submission, Service, ok}
use budge.Requests.Environment.{Environment}
use budge.Store.Tables.{is_pending, RequestRow, Db}
use budge.Store.Transaction.{transact}
use budge.Server.Submitted.{submit_tx-done}
use budge.Server.Submit.{
  awaits_decision, pending_count, insert_request, initial_status, new_snapshot, new_request,
  submit_tx,
}

-- The device has 20 requests at most that wait for a decision.
abbrev pub IsLimited : ℕ → Text → Db → Type 0
IsLimited now device db =
    length (
      select
        (λ (r : RequestRow). text_eq r.device_id device && is_pending r.status && ltb now r.expires)
        db.requests)
    ≤ 20

pending_count-same :
    (now : ℕ) (device : Text) (a b : Db)
    → b.requests ≡ a.requests
    → IsLimited now device a
    → IsLimited now device b
unfolding pending_count
pending_count-same now device a b e h =
    subst (λ l. length (select (awaits_decision now device) l) ≤ 20) (sym e) h

length-select_snoc :
    (p : RequestRow → Bool) (rows : List RequestRow) (r : RequestRow)
    → length (select p (rows ++ (r ∷ [])))
      ≡ (if p r then suc (length (select p rows)) else length (select p rows))
length-select_snoc p [] r = elim (Bool-cases (p r)) [ inl e ↦ rw e refl | inr e ↦ rw e refl ]
length-select_snoc p (q ∷ rows) r = elim (Bool-cases (p q)) [
  | inl f ↦ elim (Bool-cases (p r)) [
    | inl e ↦ rw (f, length-select_snoc p rows r, e) refl
    | inr e ↦ rw (f, length-select_snoc p rows r, e) refl
  ]
  | inr f ↦ elim (Bool-cases (p r)) [
    | inl e ↦ rw (f, length-select_snoc p rows r, e) refl
    | inr e ↦ rw (f, length-select_snoc p rows r, e) refl
  ]
]

insert_request-some :
    (row : RequestRow) (a b : Db)
    → insert_request row a ≡ some b
    → b.requests ≡ a.requests ++ (row ∷ [])
unfolding insert_request
insert_request-some row a b h = ground (arith, h)

-- A row of each mode: one that waits is counted, and was let in below the limit.
inserted :
    (env : Environment) (device : Text) (row : RequestRow) (m : Mode) (a b : Db)
    → row.status ≡ initial_status m
    → (m ≡ approval_required → not (leb 20 (pending_count env.now device a)) ≡ true)
    → insert_request row a ≡ some b
    → IsLimited env.now device a
    → IsLimited env.now device b
unfolding pending_count
inserted env device row standing a b e k ins h =
    subst (λ l. length (select (awaits_decision env.now device) l) ≤ 20)
      (sym (insert_request-some row a b ins))
      (rw (length-select_snoc (awaits_decision env.now device) a.requests row)
        (ground (arith, e, h)))
inserted env device row approval_required a b e k ins h =
    subst (λ l. length (select (awaits_decision env.now device) l) ≤ 20)
      (sym (insert_request-some row a b ins))
      (rw (length-select_snoc (awaits_decision env.now device) a.requests row) (
        ground (
          arith,
          k refl,
          h,
          leb_iff 20 (length (select (awaits_decision env.now device) a.requests)),
        )))

new_request-status :
    (env : Environment) (device : Text) (s : Submission) (svc : Service) (p : Permission)
    (headers : List Field) (url : Url)
    → (new_request env device s svc p (new_snapshot env device s svc p headers url)).status
      ≡ initial_status p.mode
unfolding new_request
new_request-status env device s svc p headers url = refl

-- When `Submit` comes through, the device still has 20 requests at most that wait for a decision,
-- if it had no more before.
pub submit_tx-IsLimited :
    (env : Environment) (device : Text) (given : Submission) (faults : List Bool) (db db' : Db)
    (id : Text)
    → IsLimited env.now device db
    → transact (submit_tx env device given) faults db ≡ (ok id, db')
    → IsLimited env.now device db'
submit_tx-IsLimited env device given faults db db' id h0 h =
    let (s, q, how) = submit_tx-done env device given faults db db' id h in
    elim how [
      | inl r ↦ subst (IsLimited env.now device) (sym r.left) h0
      | inr k ↦
          pending_count-same env.now device k.inserted db' (ap (λ (x : Db). x.requests) k.left) (
            inserted env device _ k.granted.mode db k.inserted
              (new_request-status env device s k.svc k.granted k.headers k.url) k.below k.inserts
              h0)
    ]
