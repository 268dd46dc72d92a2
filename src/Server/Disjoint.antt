-- ===== src/Server/Disjoint.antt =====
-- internal/server/owner.go: `addPermission` never makes permissions in force overlap.
use budge.Base.{
  some, arith, ℕ, ◌≡◌, sym, ap, subst, ◌∙◌, Bool, true, false, not, Option, List, [], ◌∷◌, ◌++◌,
  any, select,
}
use budge.Base.Text.{Text}
use budge.Access.Syntax.{path}
use budge.Access.Methods.{methods}
use budge.Access.Scope.{Permission, Kind, Mode, overlap}
use budge.Requests.Types.{
  Service, sql_error, active_required, invalid_permission, overlapping_rule, ok,
}
use budge.Requests.Environment.{Environment}
use budge.Store.Tables.{PermissionRow, Event, Db}
use budge.Store.Transaction.{
  Conn, done, ◌>>=◌, ◌>>◌, lift, guard, query, exec_checked, or_throw, audit, begin, commit,
  transact,
}
use budge.Store.Inversion.{
  lift-done, query-done, bind-done, guard-done, exec_checked-done, or_throw-done, begin-done,
  transact-ok,
}
use budge.Server.Authorize.{active_device, get_service, in_force, permissions_in_force, or_else}
use budge.Server.Authorized.{active_device-done, get_service-done}
use budge.Server.Sweeps.{audited-done}
use budge.Server.Owner.{
  PermissionForm, parse_kind, parse_mode, parse_expiry, insert_permission, add_permission_tx,
}
use budge.Server.Apart.{Apart, IsApart, insert-Apart}

-- The rule that `addPermission` makes of the form.
abbrev candidate_of :
    Environment → Text → PermissionForm → Service → Text → Kind → Mode → Option ℕ → Permission
candidate_of env owner f svc listed kind mode expires = record {
  id = env.new_id;
  device_id = f.device;
  service_id = svc.id;
  revision = svc.revision;
  method = listed;
  path = f.path;
  kind = kind;
  mode = mode;
  owner = owner;
  expires = expires;
}

-- The statements of `addPermission` from the query on.
inserted-done :
    (env : Environment) (c0 : Permission) (ev : Event) (c : Conn) {u : Unit {0}} {d : Conn}
    (device service : Text) (revision : ℕ)
    → (do
      rows ← query sql_error (permissions_in_force env.now c0.device_id c0.service_id c0.revision)
      guard (not (any (λ (r : PermissionRow). overlap c0 r.permission) rows)) overlapping_rule
      exec_checked sql_error (insert_permission c0)
      audit sql_error ev
      commit sql_error)
        c
      ≡ done u d
    → IsApart env.now device service revision c.db
    → IsApart env.now device service revision d.db
unfolding permissions_in_force
inserted-done env c0 ev c {u} {d} device service revision h apart =
    let (rows, c1, e1, h1) =
      bind-done
        (query sql_error (permissions_in_force env.now c0.device_id c0.service_id c0.revision)) _ c
        h in
    let (r, s1) = query-done sql_error _ c e1 in
    let (u2, c2, e2, h2) =
      bind-done
        (guard (not (any (λ (r : PermissionRow). overlap c0 r.permission) rows)) overlapping_rule) _
        c1 h1 in
    let (g, s2) = guard-done _ overlapping_rule c1 e2 in
    let (u3, c3, e3, h3) = bind-done (exec_checked sql_error (insert_permission c0)) _ c2 h2 in
    go rows c1 c2 c3 r s1 g s2 (exec_checked-done sql_error (insert_permission c0) c2 e3)
      (audited-done ev c3 h3)
  where
    go :
        (rows : List PermissionRow) (c1 c2 c3 : Conn)
        → rows ≡ permissions_in_force env.now c0.device_id c0.service_id c0.revision c.db
        → c1.db ≡ c.db
        → not (any (λ (r : PermissionRow). overlap c0 r.permission) rows) ≡ true
        → c2 ≡ c1
        → insert_permission c0 c2.db ≡ some c3.db
        → d.db ≡ record c3.db { audit = c3.db.audit ++ (ev ∷ []) }
        → IsApart env.now device service revision d.db
    go rows c1 c2 c3 r s1 g s2 s3 s4 =
        let all : c2.db ≡ c.db = ap (λ (x : Conn). x.db) s2 ∙ s1 in
        let free : any (λ (q : PermissionRow). overlap c0 q.permission)
              (permissions_in_force env.now c0.device_id c0.service_id c0.revision c.db)
            ≡ false =
          subst (λ l. any (λ (q : PermissionRow). overlap c0 q.permission) l ≡ false) r
            (ground (arith, g)) in
        let kept =
          insert-Apart env.now device service revision c0 c.db free apart c3.db
            (subst (λ x. insert_permission c0 x ≡ some c3.db) all s3) in
        subst (λ l. Apart (select (in_force env.now device service revision) l))
          (sym (ap (λ (x : Db). x.permissions) s4)) kept

-- The statements of `addPermission` from `Begin` on.
checked-done :
    (env : Environment) (owner : Text) (f : PermissionForm) (listed : Text) (kind : Kind)
    (mode : Mode) (expires : Option ℕ) (ev : Event) (c : Conn) {u : Unit {0}} {d : Conn}
    (device service : Text) (revision : ℕ)
    → (do
      begin sql_error
      svc ← or_throw active_required (get_service f.service)
      active ← active_device f.device
      guard active active_required
      rows ← query sql_error (permissions_in_force env.now f.device svc.id svc.revision)
      guard
          (not (
            any
              (λ (r : PermissionRow).
                overlap (candidate_of env owner f svc listed kind mode expires) r.permission)
              rows))
          overlapping_rule
      exec_checked sql_error
          (insert_permission (candidate_of env owner f svc listed kind mode expires))
      audit sql_error ev
      commit sql_error)
        c
      ≡ done u d
    → IsApart env.now device service revision c.db
    → IsApart env.now device service revision d.db
checked-done env owner f listed kind mode expires ev c device service revision h apart =
    let (u5, a5, e5, h5) = bind-done (begin sql_error) _ c h in
    let (svc, a6, e6, h6) = bind-done (or_throw active_required (get_service f.service)) _ a5 h5 in
    let (q6, s6) =
      get_service-done f.service a5 (or_throw-done active_required (get_service f.service) a5 e6) in
    let (active, a7, e7, h7) = bind-done (active_device f.device) _ a6 h6 in
    let (q7, s7) = active_device-done f.device a6 e7 in
    let (u8, a8, e8, h8) = bind-done (guard active active_required) _ a7 h7 in
    let (q8, s8) = guard-done active active_required a7 e8 in
    let all : a8.db ≡ c.db = ap (λ (x : Conn). x.db) s8 ∙ s7 ∙ s6 ∙ begin-done sql_error c e5 in
    inserted-done env (candidate_of env owner f svc listed kind mode expires) ev a8 device service
      revision h8 (subst (IsApart env.now device service revision) (sym all) apart)

-- When `addPermission` comes through, the permissions in force of each device, service and revision
-- still do not overlap, if they did not before.
pub add_permission_tx-IsApart :
    (env : Environment) (owner : Text) (f : PermissionForm) (faults : List Bool) (db db' : Db)
    (device service : Text) (revision : ℕ)
    → transact (add_permission_tx env owner f) faults db ≡ (ok tt, db')
    → IsApart env.now device service revision db
    → IsApart env.now device service revision db'
unfolding add_permission_tx
add_permission_tx-IsApart env owner f faults db db' device service revision h apart =
    let (e, came, same) = transact-ok (add_permission_tx env owner f) faults db h in
    let (listed, a0, e0, h0) =
      bind-done (lift (or_else invalid_permission (methods f.method))) _ _ came in
    let (q0, s0) = lift-done (or_else invalid_permission (methods f.method)) _ e0 in
    let (u1, a1, e1, h1) = bind-done (guard (path f.path) invalid_permission) _ a0 h0 in
    let (q1, s1) = guard-done (path f.path) invalid_permission a0 e1 in
    let (kind, a2, e2, h2) =
      bind-done (lift (or_else invalid_permission (parse_kind f.path_kind))) _ a1 h1 in
    let (q2, s2) = lift-done (or_else invalid_permission (parse_kind f.path_kind)) a1 e2 in
    let (mode, a3, e3, h3) =
      bind-done (lift (or_else invalid_permission (parse_mode f.mode))) _ a2 h2 in
    let (q3, s3) = lift-done (or_else invalid_permission (parse_mode f.mode)) a2 e3 in
    let (expires, a4, e4, h4) = bind-done (lift (parse_expiry env f.expires)) _ a3 h3 in
    let (q4, s4) = lift-done (parse_expiry env f.expires) a3 e4 in
    subst (IsApart env.now device service revision) same (
      checked-done env owner f listed kind mode expires _ a4 device service revision h4 (
        subst (IsApart env.now device service revision)
          (sym (ap (λ (x : Conn). x.db) (s4 ∙ s3 ∙ s2 ∙ s1 ∙ s0))) apart))
