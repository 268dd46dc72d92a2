-- ===== src/Server/Listed.antt =====
-- The listing of `services` and `Authorize` agree.
use budge.Base.{
  ℕ, arith, ◌≡◌, refl, sym, ap, subst, ◌∙◌, ◌↔◌, ◌⊎◌, inl, inr, true, false, ◌&&◌, some, List, [],
  ◌∷◌, map, select, find, In, In-select, In-append, Bool-cases, and-true, and-intro,
}
use mathlib.Core.Option.{some-injective}
use budge.Base.Text.{Text, text_eq, text_eq_iff}
use budge.Access.Scope.{Permission, matches}
use budge.Requests.Types.{Service, ok}
use budge.Store.Tables.{ServiceRow, PermissionRow, Db}
use budge.Store.Transaction.{query, try_query, or_throw, transact}
use budge.Store.Inversion.{transact-ok}
use budge.Server.Lifecycle.{Distinct}
use budge.Server.Authorize.{
  is_active_device, enabled_service, in_force, permissions_in_force, first_match, service_of,
  active_device, get_service, authorize,
}
use budge.Server.Authorized.{authorize-done}
use budge.Server.DevicePages.{
  is_listed, Row, row_before, insert_row, sort_rows, join_rows, listed_rows,
}

In-insert_row : (r q : Row) (rows : List Row) → In q (insert_row r rows) ↔ ((q ≡ r) ⊎ In q rows)
unfolding insert_row
In-insert_row r q [] = ground arith
In-insert_row r q (x ∷ rows) = elim (Bool-cases (row_before r x)) [
  | inl e ↦ rw e (ground arith)
  | inr e ↦ rw e (ground (arith, In-insert_row r q rows))
]

In-sort_rows : (q : Row) (rows : List Row) → In q (sort_rows rows) ↔ In q rows
unfolding sort_rows
In-sort_rows q [] = ground arith
In-sort_rows q (r ∷ rows) = ground (arith, In-insert_row r q (sort_rows rows), In-sort_rows q rows)

In-pairs :
    (s t : ServiceRow) (p : PermissionRow) (ps : List PermissionRow)
    → In {A = Row} (t, p) (map (λ q. (s, q)) ps) ↔ ((t ≡ s) × In p ps)
In-pairs s t p [] = ground arith
In-pairs s t p (q ∷ ps) = ground (arith, In-pairs s t p ps)

In-join_rows :
    (now : ℕ) (device : Text) (t : ServiceRow) (p : PermissionRow) (ss : List ServiceRow)
    (ps : List PermissionRow)
    → In (t, p) (join_rows now device ss ps)
      ↔ (In t ss × In p ps × (is_listed now device t p ≡ true))
unfolding join_rows
In-join_rows now device t p [] ps = ground arith
In-join_rows now device t p (s ∷ ss) ps = (
  λ m.
      elim ((In-append {A = Row} (t, p) (map (λ q. (s, q)) (select (is_listed now device s) ps))
          (join_rows now device ss ps)).0
        m) [
          | inl here ↦
              let (e, there) = (In-pairs s t p (select (is_listed now device s) ps)).0 here in
              let (listed, good) = (In-select (is_listed now device s) ps p).0 there in
              (inl e, listed, subst (λ x. is_listed now device x p ≡ true) (sym e) good)
          | inr later ↦ let (a, b, c) = (In-join_rows now device t p ss ps).0 later in (inr a, b, c)
        ],
  λ (m, b, c).
      (In-append {A = Row} (t, p) (map (λ q. (s, q)) (select (is_listed now device s) ps))
          (join_rows now device ss ps)).1
        (elim m [
          | inl e ↦ inl (
              (In-pairs s t p (select (is_listed now device s) ps)).1 (
                e,
                (In-select (is_listed now device s) ps p).1
                    (b, subst (λ x. is_listed now device x p ≡ true) e c),
              ))
          | inr a ↦ inr ((In-join_rows now device t p ss ps).1 (a, b, c))
        ]),
)

-- The rows that the listing has.
listed_iff :
    (now : ℕ) (device : Text) (s : ServiceRow) (p : PermissionRow) (db : Db)
    → In (s, p) (listed_rows now device db)
      ↔ (In s db.services × In p db.permissions × (is_listed now device s p ≡ true))
unfolding listed_rows
listed_iff now device s p db =
    let (a, b) = In-sort_rows (s, p) (join_rows now device db.services db.permissions) in
    let (c, d) = In-join_rows now device s p db.services db.permissions in
    (λ m. c (a m), λ m. b (d m))

-- A device is listed for the method and the path of a service.
pub record IsListed (now : ℕ) (device service m path : Text) (db : Db) : Type 0 where
  pub scope : Row
  pub listed : In scope (listed_rows now device db)
  pub of_service : scope.0.id ≡ service
  pub matched : matches scope.1.permission m path ≡ true

any_match :
    (m path : Text) (p : PermissionRow) (rows : List PermissionRow)
    → In p rows
    → matches p.permission m path ≡ true
    → (q : Permission) × (first_match rows m path ≡ some q)
unfolding first_match
any_match m path p [] i h = elim i [ ]
any_match m path p (r ∷ rows) i h = elim (Bool-cases (matches r.permission m path)) [
  | inl e ↦ rw e (r.permission, refl)
  | inr e ↦
      rw e
        (elim i [ inl same ↦ absurd (clash same e) | inr there ↦ any_match m path p rows there h ])
]
  where
    clash : p ≡ r → matches r.permission m path ≡ false → ⊥
    clash same e =
        let t : matches r.permission m path ≡ true =
          subst (λ (x : PermissionRow). matches x.permission m path ≡ true) same h in
        cc

-- The primary key of the services.
abbrev pub service_ids : List ServiceRow → List Text
service_ids ss = map (λ (s : ServiceRow). s.id) ss

id_listed : (s : ServiceRow) (ss : List ServiceRow) → In s ss → In s.id (service_ids ss)
id_listed s [] m = m
id_listed s (t ∷ ss) (inl e) = inl (ap (λ (x : ServiceRow). x.id) e)
id_listed s (t ∷ ss) (inr m) = inr (id_listed s ss m)

find_enabled :
    (service : Text) (s : ServiceRow) (ss : List ServiceRow)
    → Distinct (service_ids ss)
    → In s ss
    → s.id ≡ service
    → s.enabled ≡ true
    → find (λ (x : ServiceRow). text_eq x.id service && x.enabled) ss ≡ some s
find_enabled service s [] d m e h = elim m [ ]
find_enabled service s (t ∷ ss) (out, d) (inl same) e h =
    let a : (text_eq t.id service && t.enabled) ≡ true =
      subst (λ (x : ServiceRow). (text_eq x.id service && x.enabled) ≡ true) same
        (and-intro ((text_eq_iff s.id service).1 e) h) in
    rw a (ap some (sym same))
find_enabled service s (t ∷ ss) (out, d) (inr m) e h =
    elim (Bool-cases (text_eq t.id service && t.enabled)) [
      | inl a ↦ absurd (
          out (
            subst (λ x. In x (service_ids ss))
              (e ∙ sym ((text_eq_iff t.id service).0 (and-true _ _ a).0)) (id_listed s ss m)))
      | inr a ↦ rw a (find_enabled service s ss d m e h)
    ]

-- Where nothing fails, a grant that the tables back is given.
authorize-total :
    (now : ℕ) (device service m path : Text) (svc : Service) (q : Permission) (db : Db)
    → is_active_device device db ≡ true
    → enabled_service service db ≡ some svc
    → first_match (permissions_in_force now device service svc.revision db) m path ≡ some q
    → transact (authorize now device service m path) [] db ≡ (ok (svc, q), db)
unfolding authorize active_device get_service transact query try_query or_throw
authorize-total now device service m path svc q db a e f = rw (a, e, f) refl

find_row :
    (service : Text) (svc : Service) (ss : List ServiceRow)
    → service_of (find (λ (x : ServiceRow). text_eq x.id service && x.enabled) ss) ≡ some svc
    → (s : ServiceRow) × In s ss × (s.service ≡ svc) × (s.id ≡ service) × (s.enabled ≡ true)
find_row service svc [] h = cc
find_row service svc (t ∷ ss) h = elim (Bool-cases (text_eq t.id service && t.enabled)) [
  | inl a ↦
      let q : some t.service ≡ some svc = rw a at h in
      let (x, y) = and-true (text_eq t.id service) t.enabled a in
      (t, inl refl, some-injective _ _ q, (text_eq_iff t.id service).0 x, y)
  | inr a ↦ let (s, i, r1, r2, r3) = find_row service svc ss (rw a at h) in (s, inr i, r1, r2, r3)
]

listed-tests :
    (now : ℕ) (device : Text) (s : ServiceRow) (p : PermissionRow)
    → (is_listed now device s p ≡ true)
      ↔ ((s.enabled ≡ true) × (in_force now device s.id s.revision p ≡ true))
unfolding is_listed
listed-tests now device s p =
    (and-true s.enabled (in_force now device s.id s.revision p), λ (a, b). and-intro a b)

-- `services` lists what `Authorize` grants: for an active device, and services with distinct
-- identifiers, the rows of the listing have one of the service whose permission matches the method
-- and the path exactly if `Authorize` grants them, no query failing.
pub IsListed-authorize :
    (now : ℕ) (device service m path : Text) (db : Db)
    → Distinct (service_ids db.services)
    → is_active_device device db ≡ true
    → IsListed now device service m path db ↔ (
        (svc : Service) × (p : Permission) × (transact (authorize now device service m path) [] db
          ≡ (ok (svc, p), db)))
unfolding enabled_service permissions_in_force
IsListed-authorize now device service m path db keys active = (granted, shown)
  where
    granted :
        IsListed now device service m path db
        → (svc : Service) × (p : Permission) × (transact (authorize now device service m path) [] db
            ≡ (ok (svc, p), db))
    granted l =
        let (s, p) = l.scope in
        let (is, ip, both) = (listed_iff now device s p db).0 l.listed in
        let (enabled, force) = (listed-tests now device s p).0 both in
        let (q, found) =
          any_match m path p (permissions_in_force now device service s.revision db)
            ((In-select (in_force now device service s.revision) db.permissions p).1
              (ip, subst (λ x. in_force now device x s.revision p ≡ true) l.of_service force))
            l.matched in
        (
          s.service,
          q,
          authorize-total now device service m path s.service q db active
              (ap service_of (find_enabled service s db.services keys is l.of_service enabled))
              found,
        )

    shown :
        (svc : Service) × (p : Permission) × (transact (authorize now device service m path) [] db
            ≡ (ok (svc, p), db))
        → IsListed now device service m path db
    shown (svc, p, h) =
        let (d, came, same) = transact-ok (authorize now device service m path) [] db h in
        let (a, kept) = authorize-done now device service m path _ came in
        let (s, is, sv, e, enabled) = find_row service svc db.services a.enabled in
        let g = a.granted in
        record {
          scope = (s, g.row);
          listed = (listed_iff now device s g.row db).1 (
            is,
            g.listed,
            (listed-tests now device s g.row).1 (
              enabled,
              subst (λ (x : Service). in_force now device s.id x.revision g.row ≡ true) (sym sv)
                  (subst (λ x. in_force now device x svc.revision g.row ≡ true) (sym e) g.in_force),
            ),
          );
          of_service = e;
          matched = subst (λ x. matches x m path ≡ true) (sym g.same) g.matched;
        }
