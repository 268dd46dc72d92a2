-- ===== src/Server/Forwarded.antt =====
-- What the proxy of `DeviceHandler` sends, and the slots that it holds.
use budge.Base.{
  ap₂, ℕ, arith, ◌≡◌, refl, sym, ap, subst, ◌∙◌, Bool, true, Option, none, some, List, [], ◌∷◌,
  ◌++◌, if_rule,
}
use mathlib.Core.Option.{some-injective}
use budge.Base.Text.{Text, codes}
use budge.Access.Syntax.{target, route}
use budge.Access.Scope.{Permission, Mode, standing}
use budge.Requests.Types.{http, Outcome, ok, err}
use budge.Requests.Environment.{Environment}
use budge.Store.Tables.{Event, Db}
use budge.Store.Transaction.{Conn, lift, guard, or_throw, audit, begin, commit, transact}
use budge.Store.Relates.{try_exec-Relates, transact-relates, invariant}
use budge.Store.Inversion.{
  done_inj, lift-done, guard-done, or_throw-done, bind-done, audit-done, begin-done, commit-done,
  transact-ok,
}
use budge.Upstream.Send.{send, Sent, received, err_not_sent, err_other}
use budge.Server.Authorize.{authorize, or_else}
use budge.Server.Authorized.{IsAuthorized, authorize-done, or_else-ok}
use budge.Server.Snapshot.{credential_ref}
use budge.Server.Slots.{Slots, acquire}
use budge.Server.Handler.{unavailable}
use budge.Server.Device.{
  is_standing, Forward, forward_tx, Upstream, Served, Incoming, Outside, exchange_of, http_audit,
  insert_http_event, answered, after_commit, after_body, after_route, limited, handle_forward,
}

-- The claim of a request that is passed on.
abbrev pub http_claim : Text → Permission → Event
http_claim device p = record {
  owner = [];
  device = device;
  kind = codes "http_claim";
  entity = p.id;
}

-- What the transaction grants.
pub record IsForwardable (env : Environment) (device service m path raw_query : Text) (f : Forward)
    (db db' : Db) : Type 0 where
  pub authorized : IsAuthorized env.now device service m path f.service f.permission db
  pub standing : f.permission.mode ≡ standing
  pub to_target : target env.parse_url f.service.base_url path raw_query ≡ some f.url
  pub claimed : db' ≡ record db { audit = db.audit ++ (http_claim device f.permission ∷ []) }

standing_mode : (m : Mode) → is_standing m ≡ true → m ≡ standing
standing_mode m h = ground arith

forward_tx-IsForwardable :
    (env : Environment) (device service m path raw_query : Text) (faults : List Bool) (f : Forward)
    (db db' : Db)
    → transact (forward_tx env device service m path raw_query) faults db ≡ (ok f, db')
    → IsForwardable env device service m path raw_query f db db'
unfolding forward_tx
forward_tx-IsForwardable env device service m path raw_query faults f db db' h =
    let (d, came, same) =
      transact-ok (forward_tx env device service m path raw_query) faults db h in
    let (u0, c0, e0, h0) = bind-done (begin unavailable) _ _ came in
    let ((svc, p), c1, e1, h1) =
      bind-done
        (or_throw (http 403 (codes "permission_denied")) (authorize env.now device service m path))
        _ c0 h0 in
    let (u2, c2, e2, h2) = bind-done (guard (is_standing p.mode) _) _ c1 h1 in
    let (url, c3, e3, h3) =
      bind-done (lift (or_else _ (target env.parse_url svc.base_url path raw_query))) _ c2 h2 in
    let (u4, c4, e4, h4) = bind-done (audit unavailable (http_claim device p)) _ c3 h3 in
    let (u5, c5, e5, h5) = bind-done (commit unavailable) _ c4 h4 in
    let (value, conn) = done_inj h5 in
    let s0 : c0.db ≡ db = begin-done unavailable _ e0 in
    let (granted, s1) = authorize-done env.now device service m path c0 (or_throw-done _ _ c0 e1) in
    let (st, s2) = guard-done (is_standing p.mode) _ c1 e2 in
    let (o, s3) = lift-done (or_else _ (target env.parse_url svc.base_url path raw_query)) c2 e3 in
    let before : c3.db ≡ db = ap (λ (x : Conn). x.db) s3 ∙ ap (λ (x : Conn). x.db) s2 ∙ s1 ∙ s0 in
    let after : db' ≡ record c3.db { audit = c3.db.audit ++ (http_claim device p ∷ []) } =
      sym same
      ∙ ap (λ (x : Conn). x.db) (sym conn)
      ∙ commit-done unavailable c4 e5
      ∙ audit-done unavailable (http_claim device p) c3 e4 in
    subst (λ g. IsForwardable env device service m path raw_query g db db') value
      (record {
        authorized = subst (IsAuthorized env.now device service m path svc p) s0 granted;
        standing = standing_mode p.mode st;
        to_target = or_else-ok _ _ o;
        claimed =
            after
            ∙ ap (λ (x : Db). record x { audit = x.audit ++ (http_claim device p ∷ []) }) before;
      })

-- `httpAudit` writes its own table only.
http_audit_audit :
    (device : Text) (f : Forward) (method : Text) (status elapsed req res : ℕ) (faults : List Bool)
    (db : Db)
    → (http_audit device f method status elapsed req res faults db).audit ≡ db.audit
unfolding http_audit insert_http_event
http_audit_audit device f method status elapsed req res faults db =
    transact-relates (invariant (λ (x : Db). x.audit ≡ db.audit)) _ faults db
      (try_exec-Relates (invariant (λ (x : Db). x.audit ≡ db.audit)) _ (λ x e. e)) refl

-- What is true where a request was sent with a secret, what is recorded of it, and that the answer is
-- that of the exchange with this secret.
pub record IsProxied (env : Environment) (device : Text) (r : Incoming)
    (exchange : Forward → Text → Sent Upstream) (elapsed : ℕ) (faults : List Bool) (f : Forward)
    (secret : Text) (db : Db) (served : Served) : Type 0 where
  pub service : Text
  pub path : Text
  pub routed : route r.request ≡ some (service, path)
  pub authorized :
      IsAuthorized env.now device service r.request.method path f.service f.permission db
  pub standing : f.permission.mode ≡ standing
  pub to_target : target env.parse_url f.service.base_url path r.raw_query ≡ some f.url
  pub opened :
      env.unseal (credential_ref f.service.id f.service.revision) f.service.credential ≡ some secret
  pub audited : served.db.audit ≡ db.audit ++ (http_claim device f.permission ∷ [])
  pub body : Text
  pub read : limited r.body ≡ some body
  pub committed : Db
  pub answers :
      served
      ≡ answered device r.request.method body f secret elapsed faults committed (exchange f secret)

answered-sent :
    (device method body : Text) (f : Forward) (secret : Text) (elapsed : ℕ) (faults : List Bool)
    (db : Db) (x : Sent Upstream)
    → ((answered device method body f secret elapsed faults db x).sent ≡ some (f, secret))
      × ((answered device method body f secret elapsed faults db x).db.audit ≡ db.audit)
unfolding answered
answered-sent device method body f secret elapsed faults db (received r) =
    (refl, http_audit_audit device f method _ elapsed _ _ faults db)
answered-sent device method body f secret elapsed faults db err_not_sent =
    (refl, http_audit_audit device f method _ elapsed _ _ faults db)
answered-sent device method body f secret elapsed faults db err_other =
    (refl, http_audit_audit device f method _ elapsed _ _ faults db)

-- After the transaction, what was sent is what it granted.
after_commit-sent :
    (env : Environment) (device method body : Text) (exchange : Forward → Text → Sent Upstream)
    (elapsed : ℕ) (faults : List Bool) (o : Outcome Forward × Db) (f : Forward) (secret : Text)
    → (after_commit env device method body exchange elapsed faults o).sent ≡ some (f, secret)
    → (o.0 ≡ ok f)
      × (env.unseal (credential_ref f.service.id f.service.revision) f.service.credential
          ≡ some secret)
      × ((after_commit env device method body exchange elapsed faults o).db.audit ≡ o.1.audit)
      × (after_commit env device method body exchange elapsed faults o
          ≡ answered device method body f secret elapsed faults o.1 (exchange f secret))
after_commit-sent env device method body exchange elapsed faults (err e, db) f secret = λ h. cc
after_commit-sent env device method body exchange elapsed faults (ok g, db) f secret =
    go (env.unseal (credential_ref g.service.id g.service.revision) g.service.credential) refl
  where
    go :
        (o : Option Text)
        → env.unseal (credential_ref g.service.id g.service.revision) g.service.credential ≡ o
        → (after_commit env device method body exchange elapsed faults (ok g, db)).sent
          ≡ some (f, secret)
        → (◌≡◌ {A = Outcome Forward} (ok g) (ok f))
          × (env.unseal (credential_ref f.service.id f.service.revision) f.service.credential
              ≡ some secret)
          × ((after_commit env device method body exchange elapsed faults (ok g, db)).db.audit
              ≡ db.audit)
          × (after_commit env device method body exchange elapsed faults (ok g, db)
              ≡ answered device method body f secret elapsed faults db (exchange f secret))
    go none e h =
        let q : ◌≡◌ {A = Option (Forward × Text)} none (some (f, secret)) =
          rw (after_commit, e) at h in
        cc
    go (some s) e h =
        let (sent, audit_same) =
          answered-sent device method body g s elapsed faults db (exchange g s) in
        let q : (answered device method body g s elapsed faults db (exchange g s)).sent
            ≡ some (f, secret) =
          rw (after_commit, e) at h in
        let pair : ◌≡◌ {A = Forward × Text} (g, s) (f, secret) =
          some-injective _ _ (sym sent ∙ q) in
        let same_f : g ≡ f = ap (λ (x : Forward × Text). x.0) pair in
        let same_s : s ≡ secret = ap (λ (x : Forward × Text). x.1) pair in
        (
          ap ok same_f,
          subst
              (λ (x : Forward).
                env.unseal (credential_ref x.service.id x.service.revision) x.service.credential
                ≡ some secret)
              same_f (e ∙ ap some same_s),
          rw (after_commit, e) audit_same,
          rw (after_commit, e)
              (ap₂ (λ x y. answered device method body x y elapsed faults db (exchange x y)) same_f
                same_s),
        )

after_body-IsProxied :
    (env : Environment) (device service path : Text) (r : Incoming) (body : Option Text)
    (exchange : Forward → Text → Sent Upstream) (elapsed : ℕ) (faults faults' : List Bool) (db : Db)
    (f : Forward) (secret : Text)
    → route r.request ≡ some (service, path)
    → limited r.body ≡ body
    → (after_body env device service path r body exchange elapsed faults faults' db).sent
      ≡ some (f, secret)
    → IsProxied env device r exchange elapsed faults' f secret db
        (after_body env device service path r body exchange elapsed faults faults' db)
after_body-IsProxied env device service path r none exchange elapsed faults faults' db f secret e
      k =
    λ h. cc
after_body-IsProxied env device service path r (some body) exchange elapsed faults faults' db f
      secret e k =
    go (transact (forward_tx env device service r.request.method path r.raw_query) faults db) refl
  where
    go :
        (o : Outcome Forward × Db)
        → transact (forward_tx env device service r.request.method path r.raw_query) faults db ≡ o
        → (after_commit env device r.request.method body exchange elapsed faults' o).sent
          ≡ some (f, secret)
        → IsProxied env device r exchange elapsed faults' f secret db
            (after_commit env device r.request.method body exchange elapsed faults' o)
    go (o, db1) q h =
        let (good, opened, same, answers) =
          after_commit-sent env device r.request.method body exchange elapsed faults' (o, db1) f
            secret h in
        let w =
          forward_tx-IsForwardable env device service r.request.method path r.raw_query faults f db
            db1 (q ∙ ap (λ x. (x, db1)) good) in
        record {
          service = service;
          path = path;
          routed = e;
          authorized = w.authorized;
          standing = w.standing;
          to_target = w.to_target;
          opened = opened;
          audited = same ∙ ap (λ (x : Db). x.audit) w.claimed;
          body = body;
          read = k;
          committed = db1;
          answers = answers;
        }

-- `DeviceHandler` sends a request to an upstream only with the active device's standing permission
-- for its method and path, in force for the enabled service's revision, to the target that the
-- service's base URL gives, and with the credential of that revision; the claim was committed to
-- the audit before. What it answers is what `Send` with this service, target and credential
-- returned.
pub handle_forward-IsProxied :
    (env : Environment) (device : Text) (r : Incoming) (out : Outside) (elapsed : ℕ)
    (faults faults' : List Bool) (slots : Slots) (db : Db) (f : Forward) (secret : Text)
    → (handle_forward env device r out elapsed faults faults' (slots, db)).0.sent ≡ some (f, secret)
    → IsProxied env device r
        (λ g key.
          send env.base64 g.service.auth g.service.auth_header g.service.request_headers
            (out.valid g)
            r.fields
            key
            (out.trip g))
        elapsed
        faults'
        f
        secret
        db
        (handle_forward env device r out elapsed faults faults' (slots, db)).0
unfolding handle_forward
handle_forward-IsProxied env device r out elapsed faults faults' slots db f secret =
    go (route r.request) refl
  where
    P : Served × Slots → Type 0
    P o =
        o.0.sent ≡ some (f, secret)
        → IsProxied env device r (exchange_of env out r.fields) elapsed faults' f secret db o.0

    go :
        (o : Option (Text × Text))
        → route r.request ≡ o
        → P (
            after_route env device r o
              (exchange_of env out r.fields)
              elapsed
              faults
              faults'
              (slots, db))
    go none e = λ h. cc
    go (some (service, path)) e =
        if_rule P (acquire slots device).0 _ _
          (λ _.
            after_body-IsProxied env device service path r (limited r.body)
              (exchange_of env out r.fields) elapsed faults faults' db f secret e refl)
          (λ _ h. cc)
