-- ===== src/Server/Authorized.antt =====
-- What `Authorize` grants: an active device, an enabled service, and a permission in force for the
-- service's current revision that matches the method and the path.
use budge.Base.{
  ℕ, ◌≡◌, refl, sym, ap, ap₂, subst, ◌∙◌, ◌⊎◌, inl, inr, Bool, true, Option, none, some, List, [],
  ◌∷◌, arith, In, In-select, Bool-cases,
}
use mathlib.Core.Option.{some-injective}
use budge.Base.Text.{Text}
use budge.Access.Scope.{Permission, matches}
use budge.Requests.Types.{
  Service, Code, device_revoked, permission_denied, not_found, sql_error, ok,
}
use budge.Store.Tables.{PermissionRow, Db}
use budge.Store.Transaction.{Conn, done, lift, guard, try_query, query, or_throw}
use budge.Store.Inversion.{
  done_inj, lift-done, query-done, try_query-done, or_throw-done, bind-done, guard-done,
}
use budge.Server.Authorize.{
  is_active_device, found_true, active_device, enabled_service, or_else, get_service, in_force,
  permissions_in_force, first_match, authorize,
}

-- The permission stands in the tables, is in force at `now`, and allows the method and the path.
pub record IsGranted (now : ℕ) (device service : Text) (revision : ℕ) (m path : Text)
    (p : Permission) (db : Db) : Type 0 where
  pub row : PermissionRow
  pub listed : In row db.permissions
  pub same : row.permission ≡ p
  pub in_force : in_force now device service revision row ≡ true
  pub matched : matches p m path ≡ true

pub record IsAuthorized (now : ℕ) (device service m path : Text) (svc : Service) (p : Permission)
    (db : Db) : Type 0 where
  pub active : is_active_device device db ≡ true
  pub enabled : enabled_service service db ≡ some svc
  pub granted : IsGranted now device service svc.revision m path p db
  pub first : first_match (permissions_in_force now device service svc.revision db) m path ≡ some p

pub or_else-ok {ℓ} :
    {A : Type ℓ} (e : Code) (o : Option A) {a : A} → or_else e o ≡ ok a → o ≡ some a
or_else-ok e none h = cc
or_else-ok e (some b) h = ground arith

pub active_device-done :
    (device : Text) (c : Conn) {b : Bool} {d : Conn}
    → active_device device c ≡ done b d
    → (b ≡ true → is_active_device device c.db ≡ true) × (d.db ≡ c.db)
unfolding active_device
active_device-done device c h =
    let (found, c1, e1, k) = bind-done (try_query (is_active_device device)) _ c h in
    let (which, same) = try_query-done (is_active_device device) c e1 in
    let (value, conn) = done_inj k in
    (active which value, ap (λ (x : Conn). x.db) (sym conn) ∙ same)
  where
    active :
        {b : Bool} {found : Option Bool}
        → (found ≡ none) ⊎ (found ≡ some (is_active_device device c.db))
        → found_true found ≡ b
        → b ≡ true
        → is_active_device device c.db ≡ true
    active (inl e) v t = ground arith
    active (inr e) v t = ground arith

pub get_service-done :
    (service : Text) (c : Conn) {svc : Service} {d : Conn}
    → get_service service c ≡ done svc d
    → (enabled_service service c.db ≡ some svc) × (d.db ≡ c.db)
unfolding get_service
get_service-done service c h =
    let (found, c1, e1, k) = bind-done (query sql_error (enabled_service service)) _ c h in
    let (value, same) = query-done sql_error (enabled_service service) c e1 in
    let (o, conn) = lift-done (or_else not_found found) c1 k in
    (sym value ∙ or_else-ok not_found found o, ap (λ (x : Conn). x.db) conn ∙ same)

first_match-some :
    (rows : List PermissionRow) (m path : Text) {p : Permission}
    → first_match rows m path ≡ some p
    → (row : PermissionRow) × In row rows × (row.permission ≡ p) × (matches p m path ≡ true)
unfolding first_match
first_match-some [] m path h = cc
first_match-some (r ∷ rows) m path {p} h = elim (Bool-cases (matches r.permission m path)) [
  | inl e ↦
      let q : r.permission ≡ p = some-injective _ _ (rw e at h) in
      (r, inl refl, q, subst (λ x. matches x m path ≡ true) q e)
  | inr e ↦
      let (row, there, q, t) = first_match-some rows m path (rw e at h) in (row, inr there, q, t)
]

granted :
    (now : ℕ) (device service : Text) (revision : ℕ) (m path : Text) (p : Permission) (db : Db)
    → first_match (permissions_in_force now device service revision db) m path ≡ some p
    → IsGranted now device service revision m path p db
unfolding permissions_in_force
granted now device service revision m path p db h =
    let (row, there, q, t) = first_match-some _ m path h in
    let (listed, good) =
      (In-select (in_force now device service revision) db.permissions row).0 there in
    record { row = row; listed = listed; same = q; in_force = good; matched = t }

-- The facts of the statements of `authorize`, put together.
assemble :
    (now : ℕ) (device service m path : Text) (svc : Service) (p : Permission) (db : Db)
    (active : Bool) (rows : List PermissionRow)
    → (active ≡ true → is_active_device device db ≡ true)
    → active ≡ true
    → enabled_service service db ≡ some svc
    → rows ≡ permissions_in_force now device service svc.revision db
    → first_match rows m path ≡ some p
    → IsAuthorized now device service m path svc p db
assemble now device service m path svc p db active rows f a e r t = record {
  active = f a;
  enabled = e;
  granted =
      granted now device service svc.revision m path p db
        (subst (λ l. first_match l m path ≡ some p) r t);
  first = subst (λ l. first_match l m path ≡ some p) r t;
}

-- A grant of `Authorize` is backed by the tables, which it leaves as they are.
pub authorize-done :
    (now : ℕ) (device service m path : Text) (c : Conn) {svc : Service} {p : Permission} {d : Conn}
    → authorize now device service m path c ≡ done (svc, p) d
    → IsAuthorized now device service m path svc p c.db × (d.db ≡ c.db)
unfolding authorize
authorize-done now device service m path c {svc} {p} {d} h =
    let (active, c1, e1, h1) = bind-done (active_device device) _ c h in
    let (u, c2, e2, h2) = bind-done (guard active device_revoked) _ c1 h1 in
    let (svc', c3, e3, h3) = bind-done (or_throw permission_denied (get_service service)) _ c2 h2 in
    let (rows, c4, e4, h4) =
      bind-done (query sql_error (permissions_in_force now device service svc'.revision)) _ c3 h3 in
    let (p', c5, e5, h5) =
      bind-done (lift (or_else permission_denied (first_match rows m path))) _ c4 h4 in
    go active c1 c2 c3 c4 c5 rows svc' p' (active_device-done device c e1)
      (guard-done active device_revoked c1 e2)
      (get_service-done service c2 (or_throw-done permission_denied (get_service service) c2 e3))
      (query-done sql_error (permissions_in_force now device service svc'.revision) c3 e4)
      (lift-done (or_else permission_denied (first_match rows m path)) c4 e5) (done_inj h5)
  where
    go :
        (active : Bool) (c1 c2 c3 c4 c5 : Conn) (rows : List PermissionRow) (svc' : Service)
        (p' : Permission)
        → ((active ≡ true → is_active_device device c.db ≡ true) × (c1.db ≡ c.db))
        → ((active ≡ true) × (c2 ≡ c1))
        → ((enabled_service service c2.db ≡ some svc') × (c3.db ≡ c2.db))
        → ((rows ≡ permissions_in_force now device service svc'.revision c3.db) × (c4.db ≡ c3.db))
        → ((or_else permission_denied (first_match rows m path) ≡ ok p') × (c5 ≡ c4))
        → (◌≡◌ {A = Service × Permission} (svc', p') (svc, p)) × (c5 ≡ d)
        → IsAuthorized now device service m path svc p c.db × (d.db ≡ c.db)
    go active c1 c2 c3 c4 c5 rows svc' p' (f, q1) (a, q2) (e, q3) (r, q4) (t, q5) (v, q6) =
        let s2 : c2.db ≡ c.db = ap (λ (x : Conn). x.db) q2 ∙ q1 in
        let s3 : c3.db ≡ c.db = q3 ∙ s2 in
        let sv : svc' ≡ svc = ap (λ (x : Service × Permission). x.0) v in
        let pv : p' ≡ p = ap (λ (x : Service × Permission). x.1) v in
        (
          assemble now device service m path svc p c.db active rows f a
              (cc (ap (enabled_service service) s2))
              (r
                ∙ ap₂ (λ (x : Service) db. permissions_in_force now device service x.revision db) sv
                    s3)
              (or_else-ok _ _ t ∙ ap some pv),
          ap (λ (x : Conn). x.db) (sym q6 ∙ q5) ∙ q4 ∙ s3,
        )
