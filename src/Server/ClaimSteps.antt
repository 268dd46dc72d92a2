-- ===== src/Server/ClaimSteps.antt =====
-- What the last statements of the transaction of `dispatch` do: the claim proper, or the end of the
-- request.
use budge.Base.{
  ◌≡◌, refl, sym, ap, subst, ◌∙◌, ◌⊎◌, inl, inr, true, none, some, List, [], ◌∷◌, ◌++◌, ◌==◌,
  ==_iff, Bool-cases,
}
use budge.Base.Text.{Text, codes}
use budge.Access.Scope.{Mode, standing, approval_required}
use budge.Requests.Types.{Snapshot, Service, Code, sql_error, ok}
use budge.Requests.Environment.{Environment}
use budge.Store.Tables.{Status, failed, cancelled, is_queued, RequestRow, PermissionRow, Event, Db}
use budge.Store.Transaction.{Conn, done, Tx, ◌>>◌, return, query, exec, audit, commit}
use budge.Store.Inversion.{done_inj, query-done, bind-done, exec-done, audit-done, commit-done}
use budge.Server.Snapshot.{request_row, open_snapshot}
use budge.Server.Opened.{IsValidFor}
use budge.Server.Dispatch.{
  mark_finished, finish_tx, Claim, dropped, claimed, finish_dropped, mark_dispatching,
  approval_count, permission_row, start_dispatch, check_approval,
}

-- The requests as the claim leaves them, and the tables that the claim does not write.
pub record IsMarked (rows : List RequestRow) (db db' : Db) : Type 0 where
  pub requests : db'.requests ≡ rows
  pub permissions : db'.permissions ≡ db.permissions
  pub approvals : db'.approvals ≡ db.approvals
  pub invitations : db'.invitations ≡ db.invitations

-- The row of the identifier is queued and holds the snapshot.
pub record IsOpened (env : Environment) (id : Text) (snap : Snapshot) (db : Db) : Type 0 where
  pub row : RequestRow
  pub found : request_row id db ≡ some row
  pub queued : is_queued row.status ≡ true
  pub opened : open_snapshot env row ≡ ok snap

abbrev pub IsReady : Environment → Text → Snapshot → Service → Db → Type 0
IsReady env id snap svc db = IsOpened env id snap db × IsValidFor env snap svc db

-- What is true of the tables at a successful claim.
pub record IsClaimable (env : Environment) (id : Text) (snap : Snapshot) (svc : Service) (db : Db)
    : Type 0 where
  pub request : IsOpened env id snap db
  pub valid : IsValidFor env snap svc db
  pub permission : PermissionRow
  pub permitted : permission_row snap.permission_id db ≡ some permission
  pub approved : permission.mode ≡ approval_required → approval_count id db ≡ 1

-- What the transaction does to the tables, by its answer.
abbrev pub ClaimEffect : Environment → Text → Claim → Db → Db → Type 0
ClaimEffect env id dropped db db' =
    (t : Status) × (reason : Text) × ((t ≡ failed) ⊎ (t ≡ cancelled))
    × IsMarked (mark_finished env id t reason none db).requests db db'
ClaimEffect env id (claimed snap svc) db db' =
    IsClaimable env id snap svc db × IsMarked (mark_dispatching id db).requests db db'

-- An UPDATE, its audit record, and what follows.
pub marked-done {ℓ} :
    {A : Type ℓ} (e : Code) (f : Db → Db) (ev : Event) (m : Tx A) (c : Conn) {a : A} {d : Conn}
    → (exec e f >> (audit e ev >> m)) c ≡ done a d
    → (c' : Conn) × (c'.db ≡ record (f c.db) { audit = (f c.db).audit ++ (ev ∷ []) })
      × (m c' ≡ done a d)
marked-done e f ev m c h =
    let (u1, c1, e1, h1) = bind-done (exec e f) (λ _. audit e ev >> m) c h in
    let (u2, c2, e2, h2) = bind-done (audit e ev) (λ _. m) c1 h1 in
    (
      c2,
      audit-done e ev c1 e2
          ∙ ap (λ (x : Db). record x { audit = x.audit ++ (ev ∷ []) }) (exec-done e f c e1),
      h2,
    )

pub marked :
    (rows : List RequestRow) (db : Db) (ev : Event) (db' : Db)
    → db' ≡ record (record db { requests = rows }) { audit = db.audit ++ (ev ∷ []) }
    → IsMarked rows db db'
marked rows db ev db' e = record {
  requests = ap (λ (x : Db). x.requests) e;
  permissions = ap (λ (x : Db). x.permissions) e;
  approvals = ap (λ (x : Db). x.approvals) e;
  invitations = ap (λ (x : Db). x.invitations) e;
}

pub finish_dropped-done :
    (env : Environment) (id : Text) (t : Status) (reason : Text) (c : Conn) {cl : Claim} {d : Conn}
    → (t ≡ failed) ⊎ (t ≡ cancelled)
    → finish_dropped env id t reason c ≡ done cl d
    → ClaimEffect env id cl c.db d.db
unfolding finish_tx mark_finished
finish_dropped-done env id t reason c {cl} {d} ends h =
    let (u, c0, e0, h0) = bind-done (finish_tx env id t reason none) (λ _. return dropped) c h in
    let (c2, e2, h2) =
      marked-done sql_error (mark_finished env id t reason none) _ (commit sql_error) c e0 in
    let (value, conn) = done_inj h0 in
    let same : d.db ≡ c2.db = ap (λ (x : Conn). x.db) (sym conn) ∙ commit-done sql_error c2 h2 in
    subst (λ x. ClaimEffect env id x c.db d.db) value
      (t, reason, ends, marked _ c.db _ d.db (same ∙ e2))

start_dispatch-done :
    (env : Environment) (id : Text) (snap : Snapshot) (svc : Service) (c : Conn) {cl : Claim}
    {d : Conn}
    → IsClaimable env id snap svc c.db
    → start_dispatch id snap svc c ≡ done cl d
    → ClaimEffect env id cl c.db d.db
unfolding start_dispatch mark_dispatching
start_dispatch-done env id snap svc c {cl} {d} ok_claim h =
    let (c2, e2, h2) =
      marked-done sql_error (mark_dispatching id) _ (commit sql_error >> return (claimed snap svc))
        c h in
    let (u3, c3, e3, h3) = bind-done (commit sql_error) (λ _. return (claimed snap svc)) c2 h2 in
    let (value, conn) = done_inj h3 in
    let same : d.db ≡ c2.db = ap (λ (x : Conn). x.db) (sym conn) ∙ commit-done sql_error c2 e3 in
    subst (λ x. ClaimEffect env id x c.db d.db) value (ok_claim, marked _ c.db _ d.db (same ∙ e2))

pub check_approval-done :
    (env : Environment) (id : Text) (snap : Snapshot) (svc : Service) (q : PermissionRow) (c : Conn)
    {cl : Claim} {d : Conn}
    → IsReady env id snap svc c.db
    → permission_row snap.permission_id c.db ≡ some q
    → (m : Mode) → q.mode ≡ m
    → check_approval env id snap svc m c ≡ done cl d
    → ClaimEffect env id cl c.db d.db
check_approval-done env id snap svc q c v k standing e h =
    start_dispatch-done env id snap svc c
      (record { request = v.0; valid = v.1; permission = q; permitted = k; approved = λ a. cc }) h
check_approval-done env id snap svc q c {cl} {d} v k approval_required e h =
    let (n, c1, e1, h1) = bind-done (query sql_error (approval_count id)) _ c h in
    let (count, same) = query-done sql_error (approval_count id) c e1 in
    subst (λ db. ClaimEffect env id cl db d.db) same
      (elim (Bool-cases (n == 1)) [
        | inl one ↦
            start_dispatch-done env id snap svc c1
              (record {
                request = (subst (IsReady env id snap svc) (sym same) v).0;
                valid = (subst (IsReady env id snap svc) (sym same) v).1;
                permission = q;
                permitted = ap (permission_row snap.permission_id) same ∙ k;
                approved = λ _. ap (approval_count id) same ∙ sym count ∙ (==_iff n 1).0 one;
              })
              (rw one at h1)
        | inr other ↦
            finish_dropped-done env id failed (codes "approval_digest_mismatch") c1 (inl refl)
              (rw other at h1)
      ])

-- The transactions that read leave the tables, on failures too.
