-- ===== src/Server/Inserted.antt =====
-- The row that `Submit` inserts under a standing permission is ready to be sent.
use budge.Base.{
  arith, ◌≡◌, refl, sym, ap, subst, ◌∙◌, ◌⊎◌, inl, inr, true, false, ◌&&◌, none, some, List, [],
  ◌∷◌, ◌++◌, In, map, Bool-cases, any, find, update,
}
use mathlib.Core.Option.{some-injective}
use budge.Base.Text.{Text, text_eq, text_eq_iff, text_eq_refl}
use budge.Access.Syntax.{Url, target}
use budge.Access.Routes.{target-segments}
use budge.Access.Scope.{standing, approval_required, Permission}
use budge.Upstream.Header.{Field}
use budge.Requests.Types.{Submission, Snapshot, Service, ok}
use budge.Requests.Environment.{Environment, IsFaithful}
use budge.Requests.Normalize.{application_headers}
use budge.Store.Tables.{
  queued, dispatching, is_queued, RequestRow, has_id, ServiceRow, PermissionRow, Event, Db,
}
use budge.Server.Authorize.{
  is_active_device, service_of, enabled_service, permissions_in_force, first_match,
}
use budge.Server.Authorized.{IsAuthorized}
use budge.Server.Lifecycle.{Pointwise, Distinct}
use budge.Server.Snapshot.{request_purpose, request_row, still_authorized, same_url, same_target}
use budge.Server.Stored.{open_snapshot-new_request, ==_refl}
use budge.Server.Submit.{conflicts, new_snapshot, new_request, initial_status}
use budge.Server.Submitted.{find_snoc}
use budge.Server.Dispatch.{mark_dispatching, permission_row}
use budge.Server.ClaimTotal.{IsReadyToSend, claimed_db}

-- Opening and decoding give back the snapshot that `Submit` may seal and store for the submission.
abbrev pub ReadsBack : Environment → Text → Submission → Db → Type 0
ReadsBack env device s db =
    (svc : Service) (p : Permission) (headers : List Field) (url : Url)
    → IsAuthorized env.now device s.service s.method s.path svc p db
    → application_headers s svc ≡ ok headers
    → target env.parse_url svc.base_url s.path s.query ≡ some url
    → IsFaithful env (request_purpose env.new_id) (new_snapshot env device s svc p headers url)

-- The identifiers of the permissions, their primary key.
abbrev pub permission_ids : List PermissionRow → List Text
permission_ids rows = map (λ (p : PermissionRow). p.id) rows

-- The row of the identifier is sent, and each other row stays.
abbrev pub Dispatches : Text → RequestRow → RequestRow → Type 0
Dispatches id r r' =
    ((r.id ≡ id) × (r.status ≡ queued) × (r' ≡ record r { status = dispatching }))
    ⊎ ((¬ (r.id ≡ id)) × (r' ≡ r))

no_conflict :
    (row r : RequestRow) (rows : List RequestRow)
    → any (conflicts row) (r ∷ rows) ≡ false
    → (has_id row.id r ≡ false) × (any (conflicts row) rows ≡ false)
no_conflict row r rows h = (ground (arith, h), ground (arith, h))

find_fresh :
    (row : RequestRow) (rows : List RequestRow)
    → any (conflicts row) rows ≡ false
    → find (has_id row.id) rows ≡ none
find_fresh row [] h = refl
find_fresh row (r ∷ rows) h =
    let (here, later) = no_conflict row r rows h in rw here (find_fresh row rows later)

update-Dispatches :
    (row : RequestRow) (rows : List RequestRow)
    → any (conflicts row) rows ≡ false
    → row.status ≡ queued
    → Pointwise (Dispatches row.id) (rows ++ (row ∷ [])) (
        update
          (λ (r : RequestRow). has_id row.id r && is_queued r.status)
          (λ r. record r { status = dispatching })
          (rows ++ (row ∷ [])))
update-Dispatches row [] h q = (rw (text_eq_refl row.id, ap is_queued q) (inl (refl, q, refl)), tt)
update-Dispatches row (r ∷ rows) h q =
    let (here, later) = no_conflict row r rows h in
    (
      rw here (
          inr (
            λ e. let yes : text_eq r.id row.id ≡ true = (text_eq_iff r.id row.id).1 e in cc,
            refl,
          )),
      update-Dispatches row rows later q,
    )

-- The row that `WHERE id=?` finds among permissions with distinct identifiers.
find_permission :
    (rows : List PermissionRow) (p : PermissionRow)
    → Distinct (permission_ids rows)
    → In p rows
    → find (λ (q : PermissionRow). text_eq q.id p.id) rows ≡ some p
find_permission [] p d m = elim m [ ]
find_permission (q ∷ rows) p (n, d) (inl e) =
    rw (ap (λ (x : PermissionRow). text_eq x.id p.id) (sym e) ∙ text_eq_refl p.id) (ap some (sym e))
find_permission (q ∷ rows) p (n, d) (inr m) = elim (Bool-cases (text_eq q.id p.id)) [
  | inl e ↦ absurd (
      n (
        subst (λ x. In x (permission_ids rows)) (sym ((text_eq_iff q.id p.id).0 e))
          (In-permission_ids rows p m)))
  | inr e ↦ rw e (find_permission rows p d m)
]
  where
    In-permission_ids :
        (rows : List PermissionRow) (p : PermissionRow) → In p rows → In p.id (permission_ids rows)
    In-permission_ids [] p h = h
    In-permission_ids (r ∷ rows) p (inl e) = inl (ap (λ (x : PermissionRow). x.id) e)
    In-permission_ids (r ∷ rows) p (inr h) = inr (In-permission_ids rows p h)

-- The service of an identifier has it.
pub enabled_service-id :
    (id : Text) (db : Db) (svc : Service) → enabled_service id db ≡ some svc → svc.id ≡ id
unfolding enabled_service
enabled_service-id id db svc = go db.services
  where
    go :
        (rows : List ServiceRow)
        → service_of (find (λ (s : ServiceRow). text_eq s.id id && s.enabled) rows) ≡ some svc
        → svc.id ≡ id
    go [] h = cc
    go (r ∷ rows) h = elim (Bool-cases (text_eq r.id id && r.enabled)) [
      | inl e ↦
          let q : r.service ≡ svc = some-injective _ _ (rw e at h) in
          ap (λ (x : Service). x.id) (sym q) ∙ (text_eq_iff r.id id).0 (ground (arith, e))
      | inr e ↦ go rows (rw e at h)
    ]

same_url_refl : (u : Url) → same_url u u ≡ true
unfolding same_url
same_url_refl u =
    rw
      (
        text_eq_refl u.scheme,
        text_eq_refl u.hostname,
        text_eq_refl u.port,
        text_eq_refl u.path,
        text_eq_refl u.raw_query,
      )
      refl

module _ (env : Environment) (device : Text) (s : Submission) (db : Db) (svc : Service)
    (p : Permission) (headers : List Field) (url : Url) (events : List Event) where
  abbrev pub stored : Snapshot
  stored = new_snapshot env device s svc p headers url

  abbrev pub new_row : RequestRow
  new_row = new_request env device s svc p stored

  -- The tables after the insertion.
  abbrev pub with_row : Db
  with_row = record db { requests = db.requests ++ (new_row ∷ []); audit = events }

  same_target-stored :
      target env.parse_url svc.base_url s.path s.query ≡ some url
      → same_target stored svc (target env.parse_url svc.base_url s.path url.raw_query) ≡ ok svc
  unfolding new_snapshot
  same_target-stored t =
      let (https, no_user, query, segments, bytes) =
        target-segments env.parse_url svc.base_url s.path s.query url t in
      subst (λ q. same_target stored svc (target env.parse_url svc.base_url s.path q) ≡ ok svc)
        (sym query) (rw (t, same_url_refl url, text_eq_refl svc.private_cidr) refl)

  pub new_row-IsReadyToSend :
      ReadsBack env device s db
      → application_headers s svc ≡ ok headers
      → Distinct (permission_ids db.permissions)
      → IsAuthorized env.now device s.service s.method s.path svc p db
      → target env.parse_url svc.base_url s.path s.query ≡ some url
      → any (conflicts new_row) db.requests ≡ false
      → p.mode ≡ standing
      → IsReadyToSend env env.new_id stored svc with_row
  unfolding request_row new_request new_snapshot is_active_device enabled_service
      permissions_in_force still_authorized permission_row
  new_row-IsReadyToSend v l d a t free m =
      let id : svc.id ≡ s.service = enabled_service-id s.service db svc a.enabled in
      record {
        row = new_row;
        found =
            find_snoc (has_id env.new_id) db.requests new_row (find_fresh new_row db.requests free)
              (text_eq_refl env.new_id);
        queued = ap (λ x. is_queued (initial_status x)) m;
        opened =
            open_snapshot-new_request env device s svc p headers url (v svc p headers url a l t);
        active = a.active;
        enabled = ap (λ x. enabled_service x db) id ∙ a.enabled;
        granted = p;
        in_force =
            subst
              (λ x.
                first_match (permissions_in_force env.now device x svc.revision db) s.method s.path
                ≡ some p)
              (sym id) a.first;
        current = rw (==_refl svc.revision, text_eq_refl p.id) (ground arith);
        same_target = same_target-stored t;
        permission = a.granted.row;
        permitted =
            ap (λ (x : Permission). permission_row x.id db) (sym a.granted.same)
            ∙ find_permission db.permissions a.granted.row d a.granted.listed;
        approved = λ e.
            let q : standing ≡ approval_required =
              sym m ∙ ap (λ (x : Permission). x.mode) (sym a.granted.same) ∙ e in
            absurd (ground (arith, q));
      }

  pub claimed-Dispatches :
      any (conflicts new_row) db.requests ≡ false
      → p.mode ≡ standing
      → Pointwise
          (Dispatches env.new_id)
          with_row.requests
          (claimed_db env.new_id stored with_row).requests
  unfolding mark_dispatching new_request
  claimed-Dispatches free m = update-Dispatches new_row db.requests free (ap initial_status m)
