-- ===== src/Server/Decided.antt =====
-- What a decision of the owner does.
use budge.Base.{
  arith, ℕ, ◌≡◌, refl, ◌⊎◌, inl, inr, Option, none, In, update, ◌&&◌, sym, ap, subst, ◌∙◌, Bool,
  true, some, List, [], ◌∷◌, ◌++◌,
}
use mathlib.Core.Option.{some-injective}
use budge.Base.Text.{Text, codes, text_eq, text_eq_iff}
use budge.Requests.Types.{
  Snapshot, Service, sql_error, invalid_decision, request_digest_mismatch, request_not_pending, ok,
}
use budge.Requests.Environment.{Environment}
use budge.Server.Lifecycle.{Pointwise, Pointwise-updated}
use budge.Server.Claims.{request_row-In}
use budge.Store.Tables.{
  Status, pending_approval, queued, denied, approve, deny, has_id, is_pending, Decision, RequestRow,
  Approval, Event, Db,
}
use budge.Store.Transaction.{
  Conn, done, ◌>>=◌, ◌>>◌, lift, guard, query, exec, exec_checked, audit, begin, commit, transact,
}
use budge.Store.Inversion.{
  lift-done, query-done, bind-done, guard-done, exec-done, exec_checked-done, begin-done,
  transact-ok,
}
use budge.Server.Authorize.{or_else}
use budge.Server.Authorized.{or_else-ok}
use budge.Server.Snapshot.{request_row, open_snapshot, snapshot, valid_snapshot}
use budge.Server.Opened.{snapshot-done, IsValidFor, valid_snapshot-done}
use budge.Server.Sweeps.{audited-done}
use budge.Server.Decide.{decide_row, parse_decision, insert_approval, mark_decided, decide_tx}

-- The decision was possible: a row of the tables waits for it under the digest, its snapshot is intact
-- and the authorization holds.
pub record IsDecidable (env : Environment) (id digest : Text) (db : Db) : Type 0 where
  pub row : RequestRow
  pub there : In row db.requests
  pub same_id : row.id ≡ id
  pub same_digest : row.snapshot_digest ≡ digest
  pub pending : row.status ≡ pending_approval
  pub snap : Snapshot
  pub opened : open_snapshot env row ≡ ok snap
  pub svc : Service
  pub valid : IsValidFor env snap svc db

-- The decisions, by the word of the form, with the status that they lead to and the time of the end.
abbrev pub Ruling : Environment → Text → Decision → Status → Option ℕ → Type 0
Ruling env word d s end =
    ((word ≡ codes "approve") × (d ≡ approve) × (s ≡ queued) × (end ≡ none))
    ⊎ ((word ≡ codes "deny") × (d ≡ deny) × (s ≡ denied) × (end ≡ some env.now))

-- A row that waits under the identifier gets the status, and each other row stays as it is.
abbrev pub Decides : Text → Status → Option ℕ → RequestRow → RequestRow → Type 0
Decides id s end r r' =
    ((r.id ≡ id) × (r.status ≡ pending_approval) × (r' ≡ record r { status = s; finished = end }))
    ⊎ (¬ ((r.id ≡ id) × (r.status ≡ pending_approval)) × (r' ≡ r))

-- The row is decided and the approval recorded.
pub record IsDecided (id : Text) (s : Status) (end : Option ℕ) (a : Approval) (db db' : Db)
    : Type 0 where
  pub requests : Pointwise (Decides id s end) db.requests db'.requests
  pub approvals : db'.approvals ≡ db.approvals ++ (a ∷ [])
  pub permissions : db'.permissions ≡ db.permissions

-- What `parse_decision` makes of the word.
ruled :
    (env : Environment) (word : Text) (d : Decision)
    → parse_decision word ≡ some d
    → (s : Status) × (end : Option ℕ) × Ruling env word d s end
      × ((r : RequestRow) → decide_row env d r ≡ record r { status = s; finished = end })
ruled env word approve h = (
  queued,
  none,
  inl (ground (arith, h, text_eq_iff word (codes "approve")), refl, refl, refl),
  λ r. refl,
)
ruled env word deny h = (
  denied,
  some env.now,
  inr (ground (arith, h, text_eq_iff word (codes "deny")), refl, refl, refl),
  λ r. refl,
)

is_pending-eq : (s : Status) → is_pending s ≡ true → s ≡ pending_approval
is_pending-eq s h = ground arith

update-Decides :
    (env : Environment) (id : Text) (d : Decision) (s : Status) (end : Option ℕ)
    (rows : List RequestRow)
    → ((r : RequestRow) → decide_row env d r ≡ record r { status = s; finished = end })
    → Pointwise
        (Decides id s end)
        rows
        (update (λ (r : RequestRow). has_id id r && is_pending r.status) (decide_row env d) rows)
update-Decides env id d s end rows k =
    Pointwise-updated (Decides id s end) _ (decide_row env d) rows
      (λ r e. inl (
        (text_eq_iff r.id id).0 (ground (arith, e)),
        is_pending-eq r.status (ground (arith, e)),
        k r,
      ))
      (λ r e. inr (
        λ (i, w).
            let a : text_eq r.id id ≡ true = (text_eq_iff r.id id).1 i in
            let b : is_pending r.status ≡ true = ap is_pending w in
            let c : (has_id id r && is_pending r.status) ≡ true = ground (arith, a, b) in cc,
        refl,
      ))

abbrev approval_of : Text → Text → Text → Decision → Approval
approval_of owner id digest d = record {
  request_id = id;
  owner = owner;
  digest = digest;
  decision = d;
}

insert_approval-some :
    (a : Approval) (db db' : Db)
    → insert_approval a db ≡ some db'
    → db' ≡ record db { approvals = db.approvals ++ (a ∷ []) }
unfolding insert_approval
insert_approval-some a db db' h = ground (arith, h)

recorded :
    (env : Environment) (id : Text) (d : Decision) (s : Status) (end : Option ℕ) (a : Approval)
    (ev : Event) (db x db' : Db)
    → ((r : RequestRow) → decide_row env d r ≡ record r { status = s; finished = end })
    → x ≡ record db { approvals = db.approvals ++ (a ∷ []) }
    → db'
      ≡ record (mark_decided env id d x) { audit = (mark_decided env id d x).audit ++ (ev ∷ []) }
    → IsDecided id s end a db db'
unfolding mark_decided
recorded env id d s end a ev db x db' k e e' = record {
  requests =
      subst (Pointwise (Decides id s end) db.requests)
        (sym
          (ap (λ (y : Db). y.requests) e' ∙ ap (λ (y : Db). (mark_decided env id d y).requests) e))
        (update-Decides env id d s end db.requests k);
  approvals = ap (λ (y : Db). y.approvals) e' ∙ ap (λ (y : Db). y.approvals) e;
  permissions = ap (λ (y : Db). y.permissions) e' ∙ ap (λ (y : Db). y.permissions) e;
}

-- The statements of `Decide` from the first guard on.
IsDecided-done :
    (env : Environment) (owner id digest : Text) (d : Decision) (s : Status) (end : Option ℕ)
    (row : RequestRow) (c : Conn) (m : Snapshot → Event) {u : Unit {0}} {c' : Conn}
    → ((r : RequestRow) → decide_row env d r ≡ record r { status = s; finished = end })
    → request_row id c.db ≡ some row
    → (do
      guard (text_eq digest row.snapshot_digest) request_digest_mismatch
      guard (is_pending row.status) request_not_pending
      snap ← snapshot env id
      svc ← valid_snapshot env snap
      exec_checked sql_error (insert_approval (approval_of owner id digest d))
      exec sql_error (mark_decided env id d)
      audit sql_error (m snap)
      commit sql_error)
        c
      ≡ done u c'
    → IsDecidable env id digest c.db × IsDecided id s end (approval_of owner id digest d) c.db c'.db
IsDecided-done env owner id digest d s end row c m {u} {c'} k f h =
    let (u1, c1, e1, h1) =
      bind-done (guard (text_eq digest row.snapshot_digest) request_digest_mismatch) _ c h in
    let (same, q1) = guard-done _ request_digest_mismatch c e1 in
    let (u2, c2, e2, h2) = bind-done (guard (is_pending row.status) request_not_pending) _ c1 h1 in
    let (waits, q2) = guard-done _ request_not_pending c1 e2 in
    let (snap, c3, e3, h3) = bind-done (snapshot env id) _ c2 h2 in
    let (svc, c4, e4, h4) = bind-done (valid_snapshot env snap) _ c3 h3 in
    let (u5, c5, e5, h5) = bind-done (exec_checked sql_error (insert_approval _)) _ c4 h4 in
    let (u6, c6, e6, h6) = bind-done (exec sql_error (mark_decided env id d)) _ c5 h5 in
    go same waits snap svc c2 c3 c4 c5 c6 (ap (λ (x : Conn). x.db) (q2 ∙ q1))
      (snapshot-done env id c2 e3) (valid_snapshot-done env snap c3 e4)
      (exec_checked-done sql_error (insert_approval _) c4 e5)
      (exec-done sql_error (mark_decided env id d) c5 e6) (audited-done (m snap) c6 h6)
  where
    a : Approval
    a = approval_of owner id digest d

    go :
        text_eq digest row.snapshot_digest ≡ true
        → is_pending row.status ≡ true
        → (snap : Snapshot) (svc : Service) (c2 c3 c4 c5 c6 : Conn) → c2.db ≡ c.db
        → ((r : RequestRow) × (request_row id c2.db ≡ some r) × (open_snapshot env r ≡ ok snap))
          × (c3.db ≡ c2.db)
        → (IsValidFor env snap svc c3.db × (c4.db ≡ c3.db))
        → insert_approval a c4.db ≡ some c5.db
        → c6.db ≡ mark_decided env id d c5.db
        → c'.db ≡ record c6.db { audit = c6.db.audit ++ (m snap ∷ []) }
        → IsDecidable env id digest c.db × IsDecided id s end a c.db c'.db
    go same waits snap svc c2 c3 c4 c5 c6 s2 ((r, fr, o), s3) (v, s4) ins s6 s7 =
        let one : r ≡ row = some-injective _ _ (sym fr ∙ ap (request_row id) s2 ∙ f) in
        let all : c4.db ≡ c.db = s4 ∙ s3 ∙ s2 in
        (
          record {
            row = row;
            there = (request_row-In id c.db row f).0;
            same_id = (request_row-In id c.db row f).1;
            same_digest = sym ((text_eq_iff digest row.snapshot_digest).0 same);
            pending = is_pending-eq row.status waits;
            snap = snap;
            opened = subst (λ x. open_snapshot env x ≡ ok snap) one o;
            svc = svc;
            valid = subst (IsValidFor env snap svc) (s3 ∙ s2) v;
          },
          recorded env id d s end a (m snap) c.db c5.db c'.db k
              (insert_approval-some a c.db c5.db
                (subst (λ x. insert_approval a x ≡ some c5.db) all ins))
              (s7 ∙ ap (λ (x : Db). record x { audit = x.audit ++ (m snap ∷ []) }) s6),
        )

-- When `Decide` comes through, the decision was `approve` or `deny`, and a row with the identifier
-- waited for it with the digest that the owner gave, its snapshot intact and still authorized. The
-- request is then queued, or denied with the time of its end; the approval of that digest is added,
-- and no other request and no permission has changed.
pub decide_tx-IsDecided :
    (env : Environment) (owner id digest decision : Text) (faults : List Bool) (db db' : Db)
    → transact (decide_tx env owner id digest decision) faults db ≡ (ok tt, db')
    → (d : Decision) × (s : Status) × (end : Option ℕ) × Ruling env decision d s end
      × IsDecidable env id digest db
      × IsDecided id s end
          (record { request_id = id; owner = owner; digest = digest; decision = d })
          db
          db'
unfolding decide_tx
decide_tx-IsDecided env owner id digest decision faults db db' h =
    let (e, came, same) = transact-ok (decide_tx env owner id digest decision) faults db h in
    let (d, c0, e0, h0) =
      bind-done (lift (or_else invalid_decision (parse_decision decision))) _ _ came in
    let (parsed, s0) = lift-done (or_else invalid_decision (parse_decision decision)) _ e0 in
    let (u1, c1, e1, h1) = bind-done (begin sql_error) _ c0 h0 in
    let (found, c2, e2, h2) = bind-done (query request_digest_mismatch (request_row id)) _ c1 h1 in
    let (f, s2) = query-done request_digest_mismatch (request_row id) c1 e2 in
    let (row, c3, e3, h3) = bind-done (lift (or_else request_digest_mismatch found)) _ c2 h2 in
    let (l, s3) = lift-done (or_else request_digest_mismatch found) c2 e3 in
    let s1 : c1.db ≡ db = begin-done sql_error c0 e1 ∙ ap (λ (x : Conn). x.db) s0 in
    let all : c3.db ≡ db = ap (λ (x : Conn). x.db) s3 ∙ s2 ∙ s1 in
    let at : request_row id c3.db ≡ some row =
      ap (request_row id) (all ∙ sym s1) ∙ sym f ∙ or_else-ok request_digest_mismatch found l in
    let (s, end, rule, k) =
      ruled env decision d (or_else-ok invalid_decision (parse_decision decision) parsed) in
    let (able, made) = IsDecided-done env owner id digest d s end row c3 _ k at h3 in
    (
      d,
      s,
      end,
      rule,
      subst (IsDecidable env id digest) all able,
      subst (λ x. IsDecided id s end (approval_of owner id digest d) x db') all
          (subst (IsDecided id s end (approval_of owner id digest d) c3.db) same made),
    )
