-- ===== src/Server/Sweeps.antt =====
-- The restart ends exactly the requests that were `dispatching`, and a cancellation exactly those
-- in its scope that waited.
use budge.Base.{
  ℕ, ◌≡◌, sym, subst, ◌∙◌, Bool, true, false, Option, some, List, [], ◌∷◌, ◌++◌, All, and-true,
}
use budge.Base.Text.{Text, text_eq}
use budge.Requests.Types.{Code, sql_error, ok}
use budge.Requests.Environment.{Environment}
use budge.Store.Tables.{
  Status, outcome_unknown, cancelled, is_waiting, is_dispatching, RequestRow, Event, Db,
}
use budge.Store.Transaction.{
  Conn, done, Tx, ◌>>◌, query, exec_checked, audit, begin, commit, for_each, transact,
}
use budge.Store.Keeps.{Post}
use budge.Store.Inversion.{
  query-done, bind-done, exec_checked-done, audit-done, begin-done, commit-done, transact-ok,
}
use budge.Server.Lifecycle.{
  loses, Quiet, Sending, cancel as cancel_move, Distinct, ids_of, Pointwise,
}
use budge.Server.Growth.{HasKeys}
use budge.Server.Loops.{Swept, InLoop-Swept}
use budge.Server.Framed.{IsFramed, Ended, InLoop, InLoop-start, for_each-end_request}
use budge.Server.Maintenance.{
  request_ids, end_request, end_requests, recover_tx, Column, column, in_scope, cancel_requests,
}

-- What a loop over the rows that a query found has done when it comes through.
module _ (S : Status → Status → Type 0) (from : Status → Bool) (target : Status)
    (edge : (s : Status) → from s ≡ true → S s target) (p : RequestRow → Bool)
    (fits : (r : RequestRow) → p r ≡ true → from r.status ≡ true) (kind reason : Text)
    (now : ℕ) where
  pub end_requests-done :
      (c : Conn) {u : Unit {0}} {d : Conn}
      → HasKeys c.db
      → end_requests p target kind reason now c ≡ done u d
      → Swept p target c.db d.db × IsFramed c.db d.db
  unfolding end_requests
  end_requests-done c {u} {d} keys h =
      let (ids, c1, e1, h1) = bind-done (query sql_error (request_ids p)) _ c h in
      let (value, same) = query-done sql_error (request_ids p) c e1 in swept ids c1 value same h1
    where
      swept :
          (ids : List Text) (c1 : Conn)
          → ids ≡ request_ids p c.db
          → c1.db ≡ c.db
          → for_each ids (end_request target kind reason now) c1 ≡ done u d
          → Swept p target c.db d.db × IsFramed c.db d.db
      swept ids c1 value same h1 =
          let k : for_each (request_ids p c.db) (end_request target kind reason now) c1 ≡ done u d =
            subst (λ l. for_each l (end_request target kind reason now) c1 ≡ done u d) value h1 in
          let (inv, ended) =
            subst
              (Post (λ _ db.
                InLoop S from target edge c.db (request_ids p c.db) db
                × All (λ id. Ended target id db) (request_ids p c.db)))
              k
              (for_each-end_request S from target edge c.db reason kind now (request_ids p c.db) c1
                (subst (InLoop S from target edge c.db (request_ids p c.db)) (sym same)
                  (InLoop-start S from target edge c.db p fits keys))) in
          (InLoop-Swept p d.db keys inv ended, inv.framed)

-- The last statements of a handler.
pub audited-done :
    (ev : Event) (c : Conn) {u : Unit {0}} {d : Conn}
    → (audit sql_error ev >> commit sql_error) c ≡ done u d
    → d.db ≡ record c.db { audit = c.db.audit ++ (ev ∷ []) }
audited-done ev c h =
    let (u1, c1, e1, h1) = bind-done (audit sql_error ev) (λ _. commit sql_error) c h in
    commit-done sql_error c1 h1 ∙ audit-done sql_error ev c e1

-- When the transaction of a restart comes through, each request that was `dispatching` has the
-- status `outcome_unknown`, and each other request, and each other table but the audit, is as it
-- was.
pub recover_tx-Swept :
    (env : Environment) (faults : List Bool) (db db' : Db)
    → HasKeys db
    → transact (recover_tx env) faults db ≡ (ok tt, db')
    → Swept (λ r. is_dispatching r.status) outcome_unknown db db' × IsFramed db db'
unfolding recover_tx
recover_tx-Swept env faults db db' keys h =
    let (d, came, same) = transact-ok (recover_tx env) faults db h in
    let (u0, c0, e0, h0) = bind-done (begin sql_error) _ _ came in
    let s0 : c0.db ≡ db = begin-done sql_error _ e0 in
    let (u1, c1, e1, h1) =
      bind-done (end_requests (λ r. is_dispatching r.status) outcome_unknown _ _ env.now)
        (λ _. commit sql_error) c0 h0 in
    let s1 : db' ≡ c1.db = sym same ∙ commit-done sql_error c1 h1 in
    subst (λ a. Swept (λ r. is_dispatching r.status) outcome_unknown a db' × IsFramed a db') s0
      (subst (λ b. Swept (λ r. is_dispatching r.status) outcome_unknown c0.db b × IsFramed c0.db b)
        (sym s1)
        (end_requests-done Sending is_dispatching outcome_unknown loses
          (λ r. is_dispatching r.status) (λ r e. e) _ _ env.now c0 (subst HasKeys (sym s0) keys)
          e1))

-- A cancellation in a scope.
pub cancel_requests-done :
    (env : Environment) (col : Column) (id reason : Text) (c : Conn) {u : Unit {0}} {d : Conn}
    → HasKeys c.db
    → cancel_requests env col id reason c ≡ done u d
    → Swept (in_scope col id) cancelled c.db d.db × IsFramed c.db d.db
unfolding cancel_requests
cancel_requests-done env col id reason c =
    end_requests-done Quiet is_waiting cancelled (λ s h. cancel_move h) (in_scope col id)
      (λ r h. (and-true (text_eq (column col r) id) (is_waiting r.status) h).1) _ reason env.now c

-- The owner's change `f` of some row, with the cancellation of the requests that it concerns.
abbrev pub withdrawal :
    Environment → Code → (Db → Option Db) → Column → Text → Text → Event → Tx (Unit {0})
withdrawal env e f col id reason ev = do
  begin sql_error
  exec_checked e f
  cancel_requests env col id reason
  audit sql_error ev
  commit sql_error

pub withdrawal-done :
    (env : Environment) (e : Code) (f : Db → Option Db) (col : Column) (id reason : Text)
    (ev : Event) (faults : List Bool) (db db' : Db)
    → ((a b : Db) → f a ≡ some b → b.requests ≡ a.requests)
    → HasKeys db
    → transact (withdrawal env e f col id reason ev) faults db ≡ (ok tt, db')
    → (db1 : Db) × (f db ≡ some db1) × Swept (in_scope col id) cancelled db db' × IsFramed db1 db'
withdrawal-done env e f col id reason ev faults db db' still keys h =
    let (d, came, same) = transact-ok (withdrawal env e f col id reason ev) faults db h in
    let (u0, c0, e0, h0) = bind-done (begin sql_error) _ _ came in
    let (u1, c1, e1, h1) = bind-done (exec_checked e f) _ c0 h0 in
    let (u2, c2, e2, h2) = bind-done (cancel_requests env col id reason) _ c1 h1 in
    swept c0.db c1 c2 d (begin-done sql_error _ e0) (exec_checked-done e f c0 e1) e2
      (audited-done ev c2 h2) same
  where
    swept :
        (a : Db) (c1 c2 d : Conn) {u : Unit {0}}
        → a ≡ db
        → f a ≡ some c1.db
        → cancel_requests env col id reason c1 ≡ done u c2
        → d.db ≡ record c2.db { audit = c2.db.audit ++ (ev ∷ []) }
        → d.db ≡ db'
        → (db1 : Db) × (f db ≡ some db1)
          × Swept (in_scope col id) cancelled db db'
          × IsFramed db1 db'
    swept a c1 c2 d s0 found e2 tail same =
        let changed : f db ≡ some c1.db = subst (λ x. f x ≡ some c1.db) s0 found in
        let rows : c1.db.requests ≡ db.requests = still db c1.db changed in
        let (w, fr) =
          cancel_requests-done env col id reason c1
            (subst (λ l. Distinct (ids_of l)) (sym rows) keys) e2 in
        let end : db' ≡ record c2.db { audit = c2.db.audit ++ (ev ∷ []) } = sym same ∙ tail in
        (
          c1.db,
          changed,
          subst (λ x. Swept (in_scope col id) cancelled db x) (sym end)
              (subst
                (λ l.
                  Pointwise
                    (λ (r r' : RequestRow).
                      (in_scope col id r ≡ true → r'.status ≡ cancelled)
                      × (in_scope col id r ≡ false → r' ≡ r))
                    l c2.db.requests)
                rows w),
          subst (IsFramed c1.db) (sym end) (record {
            devices = fr.devices;
            services = fr.services;
            permissions = fr.permissions;
            approvals = fr.approvals;
            sessions = fr.sessions;
            metadata = fr.metadata;
            owners = fr.owners;
            invitations = fr.invitations;
            http_events = fr.http_events;
          }),
        )
