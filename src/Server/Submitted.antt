-- ===== src/Server/Submitted.antt =====
-- What `Submit` leaves when it comes through: the row of an earlier submission, or a new one.
use budge.Base.{
  arith, ◌≡◌, sym, ap, subst, ◌∙◌, ◌⊎◌, inl, inr, Bool, true, not, Option, none, some, List, [],
  ◌∷◌, ◌++◌, leb, Bool-cases, false, refl, find, any,
}
use budge.Base.Text.{Text, text_eq, text_eq_iff}
use budge.Access.Syntax.{Url, target}
use budge.Access.Scope.{Permission, Mode, standing, approval_required}
use budge.Upstream.Header.{Field}
use budge.Requests.Types.{
  Submission, Service, storage_unavailable, permission_denied, invalid_target, pending_limit,
  idempotency_conflict, ok,
}
use budge.Requests.Environment.{Environment, submission_digest}
use budge.Requests.Normalize.{normalize, application_headers}
use budge.Store.Tables.{RequestRow, Event, Db}
use budge.Store.Transaction.{
  Conn, Reply, done, fail, ◌>>◌, return, lift, guard, query, exec_checked, or_throw, audit, begin,
  commit, transact,
}
use budge.Store.Inversion.{
  done_inj, lift-done, query-done, or_throw-done, bind-done, guard-done, exec_checked-done,
  audit-done, begin-done, commit-done, transact-ok,
}
use budge.Server.Authorize.{active_device, authorize, or_else}
use budge.Server.Authorized.{IsAuthorized, or_else-ok, active_device-done, authorize-done}
use budge.Server.Submit.{
  request_by_key, pending_count, below_limit, conflicts, insert_request, new_snapshot, new_request,
  create_request, submitted, resume, submit_tx,
}

-- The device used the key before, for the same submission.
pub record IsResumed (env : Environment) (device : Text) (s : Submission) (id : Text) (db db' : Db)
    : Type 0 where
  pub row : RequestRow
  pub found : request_by_key device (env.hash s.idempotency_key) db ≡ some row
  pub same_digest : submission_digest env s ≡ row.submission_digest
  pub answered : id ≡ row.id
  pub left : db' ≡ db

-- The key is new, and a row was inserted.
pub record IsCreated (env : Environment) (device : Text) (s : Submission) (id : Text) (db db' : Db)
    : Type 0 where
  pub fresh : request_by_key device (env.hash s.idempotency_key) db ≡ none
  pub svc : Service
  pub granted : Permission
  pub authorized : IsAuthorized env.now device s.service s.method s.path svc granted db
  pub headers : List Field
  pub allowed : application_headers s svc ≡ ok headers
  pub url : Url
  pub targeted : target env.parse_url svc.base_url s.path s.query ≡ some url
  pub below :
      granted.mode ≡ approval_required → not (leb 20 (pending_count env.now device db)) ≡ true
  pub inserted : Db
  pub inserts :
      insert_request
        (new_request env device s svc granted (new_snapshot env device s svc granted headers url))
        db
      ≡ some inserted
  pub event : Event
  pub left : db' ≡ record inserted { audit = inserted.audit ++ (event ∷ []) }
  pub answered : id ≡ env.new_id

below_limit-done :
    (env : Environment) (device : Text) (m : Mode) (c : Conn) {u : Unit {0}} {d : Conn}
    → below_limit env device m c ≡ done u d
    → (m ≡ approval_required → not (leb 20 (pending_count env.now device c.db)) ≡ true)
      × (d.db ≡ c.db)
below_limit-done env device standing c h =
    ((λ e. ground arith), ap (λ (x : Conn). x.db) (sym (done_inj h).1))
below_limit-done env device approval_required c h =
    let (n, c1, e1, h1) =
      bind-done (query storage_unavailable (pending_count env.now device)) _ c h in
    let (v, s1) = query-done storage_unavailable (pending_count env.now device) c e1 in
    let (g, s2) = guard-done (not (leb 20 n)) pending_limit c1 h1 in
    ((λ _. subst (λ k. not (leb 20 k) ≡ true) v g), ap (λ (x : Conn). x.db) s2 ∙ s1)

-- The statements of `Submit` from the check of the limit on.
insert-done :
    (env : Environment) (device : Text) (m : Mode) (row : RequestRow) (ev : Event) (id : Text)
    (c : Conn) {a : Text} {d : Conn}
    → (do
      below_limit env device m
      exec_checked storage_unavailable (insert_request row)
      audit storage_unavailable ev
      commit storage_unavailable
      return id)
        c
      ≡ done a d
    → (m ≡ approval_required → not (leb 20 (pending_count env.now device c.db)) ≡ true)
      × (x : Db) × (insert_request row c.db ≡ some x)
      × (d.db ≡ record x { audit = x.audit ++ (ev ∷ []) })
      × (a ≡ id)
insert-done env device m row ev id c {a} {d} h =
    let (u1, c1, e1, h1) = bind-done (below_limit env device m) _ c h in
    let (k, s1) = below_limit-done env device m c e1 in
    let (u2, c2, e2, h2) =
      bind-done (exec_checked storage_unavailable (insert_request row)) _ c1 h1 in
    let ins = exec_checked-done storage_unavailable (insert_request row) c1 e2 in
    let (u3, c3, e3, h3) = bind-done (audit storage_unavailable ev) _ c2 h2 in
    let (u4, c4, e4, h4) = bind-done (commit storage_unavailable) (λ _. return id) c3 h3 in
    (
      k,
      c2.db,
      subst (λ x. insert_request row x ≡ some c2.db) s1 ins,
      ap (λ (x : Conn). x.db) (sym (done_inj h4).1)
          ∙ commit-done storage_unavailable c3 e4
          ∙ audit-done storage_unavailable ev c2 e3,
      sym (done_inj h4).0,
    )

create_request-done :
    (env : Environment) (device : Text) (s : Submission) (c : Conn) {a : Text} {d : Conn}
    → request_by_key device (env.hash s.idempotency_key) c.db ≡ none
    → create_request env device s c ≡ done a d
    → IsCreated env device s a c.db d.db
unfolding create_request
create_request-done env device s c {a} {d} fresh h =
    let (pair, c1, e1, h1) =
      bind-done (or_throw permission_denied (authorize env.now device s.service s.method s.path)) _
        c h in
    let (auth, s1) =
      authorize-done env.now device s.service s.method s.path c (
        or_throw-done permission_denied (authorize env.now device s.service s.method s.path) c
          e1) in
    let (headers, c2, e2, h2) = bind-done (lift (application_headers s pair.0)) _ c1 h1 in
    let (q2, s2) = lift-done (application_headers s pair.0) c1 e2 in
    let (url, c3, e3, h3) =
      bind-done
        (lift (or_else invalid_target (target env.parse_url pair.0.base_url s.path s.query))) _ c2
        h2 in
    let (q3, s3) =
      lift-done (or_else invalid_target (target env.parse_url pair.0.base_url s.path s.query)) c2
        e3 in
    let all : c3.db ≡ c.db = ap (λ (x : Conn). x.db) (s3 ∙ s2) ∙ s1 in
    let (below, x, ins, left, same) =
      insert-done env device pair.1.mode (new_row pair.0 pair.1 headers url) (ev pair.1) env.new_id
        c3 h3 in
    built pair.0 pair.1 headers url c3.db all auth q2 (or_else-ok invalid_target _ q3) below x ins
      left same
  where
    new_row : Service → Permission → List Field → Url → RequestRow
    new_row svc p headers url =
        new_request env device s svc p (new_snapshot env device s svc p headers url)

    ev : Permission → Event
    ev p = record { owner = []; device = device; kind = submitted p.mode; entity = env.new_id }

    built :
        (svc : Service) (p : Permission) (headers : List Field) (url : Url) (y : Db)
        → y ≡ c.db
        → IsAuthorized env.now device s.service s.method s.path svc p c.db
        → application_headers s svc ≡ ok headers
        → target env.parse_url svc.base_url s.path s.query ≡ some url
        → (p.mode ≡ approval_required → not (leb 20 (pending_count env.now device y)) ≡ true)
        → (x : Db) → insert_request (new_row svc p headers url) y ≡ some x
        → d.db ≡ record x { audit = x.audit ++ (ev p ∷ []) }
        → a ≡ env.new_id
        → IsCreated env device s a c.db d.db
    built svc p headers url y all auth l t below x ins left same = record {
      fresh = fresh;
      svc = svc;
      granted = p;
      authorized = auth;
      headers = headers;
      allowed = l;
      url = url;
      targeted = t;
      below =
          subst
            (λ z. p.mode ≡ approval_required → not (leb 20 (pending_count env.now device z)) ≡ true)
            all below;
      inserted = x;
      inserts = subst (λ z. insert_request (new_row svc p headers url) z ≡ some x) all ins;
      event = ev p;
      left = left;
      answered = same;
    }

resume-done :
    (env : Environment) (device : Text) (s : Submission) (found : Option RequestRow) (c : Conn)
    {a : Text} {d : Conn}
    → request_by_key device (env.hash s.idempotency_key) c.db ≡ found
    → resume env device s found c ≡ done a d
    → IsResumed env device s a c.db d.db ⊎ IsCreated env device s a c.db d.db
resume-done env device s none c f h = inr (create_request-done env device s c f h)
resume-done env device s (some row) c {a} {d} f h =
    elim (Bool-cases (text_eq (submission_digest env s) row.submission_digest)) [
      | inl e ↦
          let q : ◌≡◌ {A = Reply Text} (done row.id c) (done a d) = rw e at h in
          inl (record {
            row = row;
            found = f;
            same_digest = (text_eq_iff (submission_digest env s) row.submission_digest).0 e;
            answered = sym (done_inj q).0;
            left = ap (λ (x : Conn). x.db) (sym (done_inj q).1);
          })
      | inr e ↦
          let q : ◌≡◌ {A = Reply Text} (fail idempotency_conflict c) (done a d) = rw e at h in cc
    ]

pub submit_tx-done :
    (env : Environment) (device : Text) (given : Submission) (faults : List Bool) (db db' : Db)
    (id : Text)
    → transact (submit_tx env device given) faults db ≡ (ok id, db')
    → (s : Submission) × (normalize env given ≡ ok s)
      × (IsResumed env device s id db db' ⊎ IsCreated env device s id db db')
unfolding submit_tx
submit_tx-done env device given faults db db' id h =
    let (d, came, same) = transact-ok (submit_tx env device given) faults db h in
    let (s, c0, e0, k0) = bind-done (lift (normalize env given)) _ _ came in
    let (q0, s0) = lift-done (normalize env given) _ e0 in
    let (u1, c1, e1, k1) = bind-done (begin storage_unavailable) _ c0 k0 in
    let (active, c2, e2, k2) = bind-done (active_device device) _ c1 k1 in
    let (q2, s2) = active_device-done device c1 e2 in
    let (u3, c3, e3, k3) = bind-done (guard active permission_denied) _ c2 k2 in
    let (q3, s3) = guard-done active permission_denied c2 e3 in
    let (found, c4, e4, k4) =
      bind-done (query storage_unavailable (request_by_key device (env.hash s.idempotency_key))) _
        c3 k3 in
    let (q4, s4) =
      query-done storage_unavailable (request_by_key device (env.hash s.idempotency_key)) c3 e4 in
    let before : c3.db ≡ db =
      ap (λ (x : Conn). x.db) s3
      ∙ s2
      ∙ begin-done storage_unavailable c0 e1
      ∙ ap (λ (x : Conn). x.db) s0 in
    let at : request_by_key device (env.hash s.idempotency_key) c4.db ≡ found =
      ap (request_by_key device (env.hash s.idempotency_key)) s4 ∙ sym q4 in
    (
      s,
      q0,
      subst (λ y. IsResumed env device s id y db' ⊎ IsCreated env device s id y db') (s4 ∙ before)
          (subst (λ y. IsResumed env device s id c4.db y ⊎ IsCreated env device s id c4.db y) same
            (resume-done env device s found c4 at k4)),
    )

pub find_snoc :
    (p : RequestRow → Bool) (rows : List RequestRow) (r : RequestRow)
    → find p rows ≡ none
    → p r ≡ true
    → find p (rows ++ (r ∷ [])) ≡ some r
find_snoc p [] r h e = rw e refl
find_snoc p (q ∷ rows) r h e = elim (Bool-cases (p q)) [
  | inl t ↦ let k : ◌≡◌ {A = Option RequestRow} (some q) none = rw t at h in cc
  | inr t ↦ let k : find p rows ≡ none = rw t at h in rw t (find_snoc p rows r k e)
]

-- An insertion that the keys let through.
pub insert_request-record :
    (row : RequestRow) (a b : Db)
    → insert_request row a ≡ some b
    → (b ≡ record a { requests = a.requests ++ (row ∷ []) })
      × (any (conflicts row) a.requests ≡ false)
unfolding insert_request
insert_request-record row a b h = (ground (arith, h), ground (arith, h))

pub insert_request-requests :
    (row : RequestRow) (a b : Db)
    → insert_request row a ≡ some b
    → b.requests ≡ a.requests ++ (row ∷ [])
insert_request-requests row a b h = ap (λ (x : Db). x.requests) (insert_request-record row a b h).0
