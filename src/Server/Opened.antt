-- ===== src/Server/Opened.antt =====
-- What `snapshot` and `validSnapshot` answer, in terms of the tables, which they leave as they are.
use budge.Base.{ℕ, ◌≡◌, refl, sym, ap, subst, ◌∙◌, true, Option, none, some, arith, ◌<◌}
use budge.Base.Text.{Text, text_eq_iff}
use budge.Access.Syntax.{Url, target}
use budge.Access.Scope.{Permission}
use budge.Requests.Types.{Snapshot, Service, sql_error, authorization_changed_or_expired, ok}
use budge.Requests.Environment.{Environment}
use budge.Store.Tables.{RequestRow, Db}
use budge.Store.Transaction.{Conn, done, lift, guard, query, or_throw}
use budge.Store.Inversion.{lift-done, query-done, or_throw-done, bind-done, guard-done}
use budge.Server.Authorize.{or_else, authorize}
use budge.Server.Authorized.{IsAuthorized, authorize-done, or_else-ok}
use budge.Server.Snapshot.{
  request_row, open_snapshot, snapshot, still_authorized, same_url, same_target, valid_snapshot,
}

pub snapshot-done :
    (env : Environment) (id : Text) (c : Conn) {snap : Snapshot} {d : Conn}
    → snapshot env id c ≡ done snap d
    → ((row : RequestRow) × (request_row id c.db ≡ some row) × (open_snapshot env row ≡ ok snap))
      × (d.db ≡ c.db)
unfolding snapshot
snapshot-done env id c {snap} {d} h =
    let (found, c1, e1, h1) = bind-done (query sql_error (request_row id)) _ c h in
    let (row, c2, e2, h2) = bind-done (lift (or_else sql_error found)) _ c1 h1 in
    go found row c1 c2 (query-done sql_error (request_row id) c e1)
      (lift-done (or_else sql_error found) c1 e2) (lift-done (open_snapshot env row) c2 h2)
  where
    go :
        (found : Option RequestRow) (row : RequestRow) (c1 c2 : Conn)
        → ((found ≡ request_row id c.db) × (c1.db ≡ c.db))
        → ((or_else sql_error found ≡ ok row) × (c2 ≡ c1))
        → ((open_snapshot env row ≡ ok snap) × (d ≡ c2))
        → ((row : RequestRow) × (request_row id c.db ≡ some row)
            × (open_snapshot env row ≡ ok snap))
          × (d.db ≡ c.db)
    go found row c1 c2 (f, q1) (o, q2) (s, q3) =
        ((row, sym f ∙ or_else-ok sql_error found o, s), ap (λ (x : Conn). x.db) (q3 ∙ q2) ∙ q1)

-- The service still authorizes the snapshot, for the same revision, permission and URL.
pub record IsValidFor (env : Environment) (snap : Snapshot) (svc : Service) (db : Db) : Type 0 where
  pub permission : Permission
  pub authorized :
      IsAuthorized env.now snap.device_id snap.service_id snap.method snap.path svc permission db
  pub revision : svc.revision ≡ snap.revision
  pub permission_id : permission.id ≡ snap.permission_id
  pub unexpired : env.now < snap.expires
  pub url : Url
  pub targeted : target env.parse_url svc.base_url snap.path snap.url.raw_query ≡ some url
  pub same_url : same_url url snap.url ≡ true
  pub same_cidr : snap.private_cidr ≡ svc.private_cidr

still_authorized-facts :
    (now : ℕ) (snap : Snapshot) (svc : Service) (p : Permission)
    → still_authorized now snap svc p ≡ true
    → (svc.revision ≡ snap.revision) × (p.id ≡ snap.permission_id) × (now < snap.expires)
unfolding still_authorized
still_authorized-facts now snap svc p h = ground (arith, text_eq_iff p.id snap.permission_id)

same_target-facts :
    (snap : Snapshot) (svc svc' : Service) (o : Option Url)
    → same_target snap svc o ≡ ok svc'
    → (svc ≡ svc')
      × ((u : Url) × (o ≡ some u)
          × (same_url u snap.url ≡ true)
          × (snap.private_cidr ≡ svc.private_cidr))
same_target-facts snap svc svc' none h = cc
same_target-facts snap svc svc' (some u) h = (
  ground arith,
  (u, refl, ground arith, ground (arith, text_eq_iff snap.private_cidr svc.private_cidr)),
)

pub valid_snapshot-done :
    (env : Environment) (snap : Snapshot) (c : Conn) {svc : Service} {d : Conn}
    → valid_snapshot env snap c ≡ done svc d
    → IsValidFor env snap svc c.db × (d.db ≡ c.db)
unfolding valid_snapshot
valid_snapshot-done env snap c {svc} {d} h =
    let (pair, c1, e1, h1) =
      bind-done
        (or_throw authorization_changed_or_expired
          (authorize env.now snap.device_id snap.service_id snap.method snap.path))
        _ c h in
    let (u, c2, e2, h2) =
      bind-done
        (guard (still_authorized env.now snap pair.0 pair.1) authorization_changed_or_expired) _ c1
        h1 in
    go pair.0 pair.1 c1 c2
      (authorize-done env.now snap.device_id snap.service_id snap.method snap.path c
        (or_throw-done _ _ c e1))
      (guard-done (still_authorized env.now snap pair.0 pair.1) authorization_changed_or_expired c1
        e2)
      (lift-done
        (same_target snap pair.0
          (target env.parse_url pair.0.base_url snap.path snap.url.raw_query))
        c2 h2)
  where
    go :
        (svc' : Service) (p : Permission) (c1 c2 : Conn)
        → (IsAuthorized env.now snap.device_id snap.service_id snap.method snap.path svc' p c.db
            × (c1.db ≡ c.db))
        → ((still_authorized env.now snap svc' p ≡ true) × (c2 ≡ c1))
        → ((same_target snap svc' (target env.parse_url svc'.base_url snap.path snap.url.raw_query)
              ≡ ok svc)
            × (d ≡ c2))
        → IsValidFor env snap svc c.db × (d.db ≡ c.db)
    go svc' p c1 c2 (a, q1) (s, q2) (t, q3) =
        let (e, aim) = same_target-facts snap svc' svc _ t in
        let (revision, id, later) = still_authorized-facts env.now snap svc' p s in
        (
          subst (λ x. IsValidFor env snap x c.db) e
              (record {
                permission = p;
                authorized = a;
                revision = revision;
                permission_id = id;
                unexpired = later;
                url = aim.0;
                targeted = aim.1;
                same_url = aim.2;
                same_cidr = aim.3;
              }),
          ap (λ (x : Conn). x.db) (q3 ∙ q2) ∙ q1,
        )
