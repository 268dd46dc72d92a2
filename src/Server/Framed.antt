-- ===== src/Server/Framed.antt =====
-- The loops of internal/server/requests.go that end requests: the tables that they keep, and the rows that
-- each of them ends.
use budge.Base.{
  ℕ, ◌≡◌, refl, sym, subst, ◌⊎◌, inl, inr, Bool, true, List, [], ◌∷◌, ◌++◌, arith, All, In, update,
  Bool-cases, All-of_In,
}
use budge.Base.Text.{Text, text_eq, text_eq_iff}
use budge.Requests.Types.{sql_error}
use budge.Store.Tables.{Status, RequestRow, has_id, Event, Db}
use budge.Store.Transaction.{exec, audit, for_each}
use budge.Store.Keeps.{Triple, bind_rule, exec_rule, audit_rule, for_each_done}
use budge.Store.Relates.{
  Relates, bind-Relates, exec-Relates, audit-Relates, for_each-Relates, invariant,
}
use budge.Server.Maintenance.{request_ids, ended_as, mark_ended, end_request}
use budge.Server.Lifecycle.{
  Star, here, next, IsMoved, moved_to, IsMoved-trans, IsMoved_refl, Pointwise, Pointwise-update,
  Distinct, ids_of, Distinct-In, In-select_ids,
}

-- The tables besides the requests and the audit are as they were.
pub record IsFramed (db0 db : Db) : Type 0 where
  pub devices : db.devices ≡ db0.devices
  pub services : db.services ≡ db0.services
  pub permissions : db.permissions ≡ db0.permissions
  pub approvals : db.approvals ≡ db0.approvals
  pub sessions : db.sessions ≡ db0.sessions
  pub metadata : db.metadata ≡ db0.metadata
  pub owners : db.owners ≡ db0.owners
  pub invitations : db.invitations ≡ db0.invitations
  pub http_events : db.http_events ≡ db0.http_events

-- Every row with the identifier has the status.
abbrev pub Ended : Status → Text → Db → Type 0
Ended t id db = All (λ (r : RequestRow). r.id ≡ id → r.status ≡ t) db.requests

All-update {ℓ} :
    {A : Type ℓ} (P : A → Type 0) (p : A → Bool) (f : A → A) (xs : List A)
    → All P xs
    → ((x : A) → P x → p x ≡ true → P (f x))
    → All P (update p f xs)
All-update P p f [] h k = tt
All-update P p f (x ∷ xs) (px, h) k =
    (elim (Bool-cases (p x)) [ inl e ↦ rw e (k x px e) | inr e ↦ rw e px ], All-update P p f xs h k)

module _ (S : Status → Status → Type 0) (from : Status → Bool) (target : Status)
    (edge : (s : Status) → from s ≡ true → S s target) (db0 : Db) where
  -- A row moves, and only if its identifier is among those of the loop.
  pub record IsSwept (ids : List Text) (r r' : RequestRow) : Type 0 where
    pub moved : IsMoved S r r'
    pub kept : ¬ In r.id ids → r' ≡ r

  -- While the loop runs: rows have moved, and those of the identifiers may still be ended.
  pub record InLoop (ids : List Text) (db : Db) : Type 0 where
    pub framed : IsFramed db0 db
    pub moved : Pointwise (IsSwept ids) db0.requests db.requests
    pub open_rows :
        All
          (λ (r : RequestRow). In r.id ids → (from r.status ≡ true) ⊎ (r.status ≡ target))
          db.requests

  ended_row :
      (reason : Text) (now : ℕ) (r : RequestRow)
      → (from r.status ≡ true) ⊎ (r.status ≡ target)
      → IsMoved S r (ended_as target reason now r)
  ended_row reason now r h = moved_to r target _ _ _ _ (elim h [
    | inl e ↦ next here (edge r.status e)
    | inr e ↦ subst (λ t. Star S r.status t) e here
  ])

  audit-InLoop :
      (ids : List Text) (event : Event) (db : Db)
      → InLoop ids db
      → InLoop ids (record db { audit = db.audit ++ (event ∷ []) })
  audit-InLoop ids event db inv = record {
    framed = record {
      devices = inv.framed.devices;
      services = inv.framed.services;
      permissions = inv.framed.permissions;
      approvals = inv.framed.approvals;
      sessions = inv.framed.sessions;
      metadata = inv.framed.metadata;
      owners = inv.framed.owners;
      invitations = inv.framed.invitations;
      http_events = inv.framed.http_events;
    };
    moved = inv.moved;
    open_rows = inv.open_rows;
  }

  module _ (reason : Text) (now : ℕ) (id : Text) where
    ended_rows :
        (rows : List RequestRow)
        → All
            (λ (r : RequestRow). r.id ≡ id → r.status ≡ target)
            (update (has_id id) (ended_as target reason now) rows)
    ended_rows [] = tt
    ended_rows (r ∷ rows) = (
      elim (Bool-cases (text_eq r.id id)) [
        | inl e ↦ rw e (λ _. refl)
        | inr e ↦ rw e (λ q. ground (arith, text_eq_iff r.id id))
      ],
      ended_rows rows,
    )

    mark_ended-InLoop :
        (ids : List Text)
        → In id ids
        → (db : Db) → InLoop ids db
        → InLoop ids (mark_ended target reason now id db)
    unfolding mark_ended
    mark_ended-InLoop ids m db inv = record {
      framed = record {
        devices = inv.framed.devices;
        services = inv.framed.services;
        permissions = inv.framed.permissions;
        approvals = inv.framed.approvals;
        sessions = inv.framed.sessions;
        metadata = inv.framed.metadata;
        owners = inv.framed.owners;
        invitations = inv.framed.invitations;
        http_events = inv.framed.http_events;
      };
      moved =
          Pointwise-update (IsSwept ids) _ (has_id id) (ended_as target reason now) db0.requests
            db.requests sweeps inv.moved inv.open_rows;
      open_rows =
          All-update _ (has_id id) (ended_as target reason now) db.requests inv.open_rows
            (λ r h e k. inr refl);
    }
      where
        found : (r : RequestRow) → has_id id r ≡ true → In r.id ids
        found r e = subst (λ t. In t ids) (sym ((text_eq_iff r.id id).0 e)) m

        sweeps :
            (r r' : RequestRow)
            → IsSwept ids r r'
            → (In r'.id ids → (from r'.status ≡ true) ⊎ (r'.status ≡ target))
            → has_id id r' ≡ true
            → IsSwept ids r (ended_as target reason now r')
        sweeps r r' w h e = record {
          moved = IsMoved-trans w.moved (ended_row reason now r' (h (found r' e)));
          kept = λ out. absurd (out (subst (λ t. In t ids) w.moved.id (found r' e)));
        }

    -- One round of a loop keeps its invariant and ends the rows of its identifier.
    end_request-InLoop :
        (kind : Text) (ids : List Text)
        → In id ids
        → Triple
            (InLoop ids)
            (end_request target kind reason now id)
            (λ _ db. InLoop ids db × Ended target id db)
    unfolding end_request mark_ended
    end_request-InLoop kind ids m =
        bind_rule (InLoop ids) (λ _ db. InLoop ids db × Ended target id db)
          (λ _ db. InLoop ids db × Ended target id db)
          (exec sql_error (mark_ended target reason now id)) (λ _. audit sql_error _)
          (exec_rule (InLoop ids) (λ db. InLoop ids db × Ended target id db) sql_error _
            (λ db inv. (mark_ended-InLoop ids m db inv, ended_rows db.requests)))
          (λ _.
            audit_rule (λ db. InLoop ids db × Ended target id db)
              (λ db. InLoop ids db × Ended target id db) sql_error _
              (λ db (inv, d). (audit-InLoop ids _ db inv, d)))

  -- The loop keeps its invariant also where it fails.
  pub loop-Relates :
      (reason kind : Text) (now : ℕ) (ids : List Text)
      → Relates
          (InLoop ids)
          (λ _ db. InLoop ids db)
          (for_each ids (end_request target kind reason now))
  unfolding end_request
  loop-Relates reason kind now ids = for_each-Relates (invariant (InLoop ids)) ids _ (
      All-of_In _ ids λ id m.
        bind-Relates (invariant (InLoop ids)) (exec sql_error (mark_ended target reason now id))
          (λ _. audit sql_error _)
          (exec-Relates (invariant (InLoop ids)) sql_error _
            (mark_ended-InLoop reason now id ids m))
          (λ _. audit-Relates (invariant (InLoop ids)) sql_error _ (audit-InLoop ids _)))

  Ended-stable :
      (reason kind : Text) (now : ℕ) (x y : Text)
      → Triple (Ended target y) (end_request target kind reason now x) (λ _. Ended target y)
  unfolding end_request mark_ended
  Ended-stable reason kind now x y =
      bind_rule (Ended target y) (λ _. Ended target y) (λ _. Ended target y)
        (exec sql_error (mark_ended target reason now x)) (λ _. audit sql_error _)
        (exec_rule (Ended target y) (Ended target y) sql_error _ (λ db h.
          All-update _ (has_id x) (ended_as target reason now) db.requests h (λ r k e q. refl)))
        (λ _. audit_rule (Ended target y) (Ended target y) sql_error _ (λ db h. h))

  -- The whole loop.
  pub for_each-end_request :
      (reason kind : Text) (now : ℕ) (ids : List Text)
      → Triple
          (InLoop ids)
          (for_each ids (end_request target kind reason now))
          (λ _ db. InLoop ids db × All (λ id. Ended target id db) ids)
  for_each-end_request reason kind now ids =
      for_each_done (InLoop ids) (Ended target) ids _
        (All-of_In _ ids (λ id m. end_request-InLoop reason now id kind ids m))
        (Ended-stable reason kind now)

  -- Before the loop.
  pub InLoop-start :
      (p : RequestRow → Bool)
      → ((r : RequestRow) → p r ≡ true → from r.status ≡ true)
      → Distinct (ids_of db0.requests)
      → InLoop (request_ids p db0) db0
  unfolding request_ids
  InLoop-start p k d = record {
    framed = record {
      devices = refl;
      services = refl;
      permissions = refl;
      approvals = refl;
      sessions = refl;
      metadata = refl;
      owners = refl;
      invitations = refl;
      http_events = refl;
    };
    moved = swept_refl db0.requests;
    open_rows = All-of_In _ db0.requests λ r h m.
        let (q, there, pq, same) = In-select_ids p db0.requests r.id m in
        inl (
          subst (λ x. from x.status ≡ true) (sym (Distinct-In db0.requests r q d h there same))
            (k q pq));
  }
    where
      swept_refl : (rows : List RequestRow) → Pointwise (IsSwept (request_ids p db0)) rows rows
      swept_refl [] = tt
      swept_refl (r ∷ rows) = (record { moved = IsMoved_refl r; kept = λ _. refl }, swept_refl rows)
