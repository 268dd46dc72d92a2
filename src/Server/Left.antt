-- ===== src/Server/Left.antt =====
-- What holds of the rows of given identifiers is kept: no operation takes a row of a request that
-- was sent back to waiting.
use budge.Base.{
  ℕ, ◌≡◌, refl, sym, ap, subst, ◌∙◌, ◌⊎◌, inl, inr, Bool, true, false, Option, none, some, List, [],
  ◌∷◌, ◌++◌, ◌==◌, All, In, All-In, All-of_In, update, In-update, Bool-cases,
}
use budge.Base.Text.{Text}
use budge.Access.Scope.{Mode, standing, approval_required}
use budge.Requests.Types.{Snapshot, Service, Result, sql_error}
use budge.Requests.Environment.{Environment}
use budge.Store.Tables.{
  Status, failed, outcome_unknown, cancelled, is_waiting, RequestRow, Event, Db,
}
use budge.Store.Transaction.{Tx}
use budge.Store.Relates.{
  Relates, bind-Relates, return-Relates, query-Relates, exec-Relates, audit-Relates, begin-Relates,
  commit-Relates, for_each_all-Relates, IsPreorder, invariant,
}
use budge.Server.Lifecycle.{Star, IsMoved, Distinct, ids_of, In-ids_of}
use budge.Server.Growth.{Grows, IsGrown, HasKeys}
use budge.Server.Reads.{reading, snapshot-Relates, valid_snapshot-Relates}
use budge.Server.Dispatch.{
  mark_finished, finish_tx, finish_row, dropped, finish_dropped, mark_dispatching, start_dispatch,
  check_approval, after_valid, after_snapshot, claim_tx,
}
use budge.Server.Maintenance.{mark_ended, end_request, end_requests, recover_tx}

-- A row after an operation is a row before, moved, or a row with a new identifier.
Grows-In :
    (S : Status → Status → Type 0) (xs ys : List RequestRow) (y : RequestRow)
    → Grows S xs ys
    → Distinct (ids_of ys)
    → In y ys
    → ((x : RequestRow) × In x xs × IsMoved S x y) ⊎ (¬ In y.id (ids_of xs))
Grows-In S [] ys y h d m = inr (λ k. k)
Grows-In S (x ∷ xs) [] y h d m = elim h [ ]
Grows-In S (x ∷ xs) (z ∷ ys) y (n, h) (d, ds) (inl e) =
    inl (x, inl refl, subst (IsMoved S x) (sym e) n)
Grows-In S (x ∷ xs) (z ∷ ys) y (n, h) (d, ds) (inr k) = elim (Grows-In S xs ys y h ds k) [
  | inl (w, there, moved) ↦ inl (w, inr there, moved)
  | inr out ↦ inr (λ m. elim m [
    | inl e ↦ d (subst (λ t. In t (ids_of ys)) (e ∙ sym n.id) (In-ids_of ys y k))
    | inr m' ↦ out m'
  ])
]

Grows-ids :
    (S : Status → Status → Type 0) (xs ys : List RequestRow) (t : Text)
    → Grows S xs ys
    → In t (ids_of xs)
    → In t (ids_of ys)
Grows-ids S [] ys t h m = elim m [ ]
Grows-ids S (x ∷ xs) [] t h m = elim h [ ]
Grows-ids S (x ∷ xs) (y ∷ ys) t (n, h) (inl e) = inl (e ∙ sym n.id)
Grows-ids S (x ∷ xs) (y ∷ ys) t (n, h) (inr m) = inr (Grows-ids S xs ys t h m)

pub update-ids :
    (p : RequestRow → Bool) (f : RequestRow → RequestRow)
    → ((r : RequestRow) → (f r).id ≡ r.id)
    → (rows : List RequestRow) → ids_of (update p f rows) ≡ ids_of rows
update-ids p f k [] = refl
update-ids p f k (r ∷ rows) = elim (Bool-cases (p r)) [
  | inl e ↦ rw e (cc (k r, update-ids p f k rows))
  | inr e ↦ rw e (cc (update-ids p f k rows))
]

-- The identifiers are of rows, and their rows have a status of `Q`.
pub record IsKept (Q : Status → Type 0) (ids : List Text) (db : Db) : Type 0 where
  pub keys : HasKeys db
  pub known : All (λ t. In t (ids_of db.requests)) ids
  pub rows : All (λ (r : RequestRow). In r.id ids → Q r.status) db.requests

-- The status of a request that was sent.
abbrev pub Left : Status → Type 0
Left s = is_waiting s ≡ false

pub IsKept_grown :
    (S : Status → Status → Type 0) (Q : Status → Type 0) (ids : List Text)
    → ((s t : Status) → Q s → Star S s t → Q t)
    → (a b : Db) → IsKept Q ids a
    → IsGrown S a b
    → IsKept Q ids b
IsKept_grown S Q ids still a b k g = record {
  keys = g.distinct;
  known =
      All-of_In _ ids λ t m. Grows-ids S a.requests b.requests t g.grown (All-In _ ids k.known m);
  rows = All-of_In _ b.requests λ y m there.
      elim (Grows-In S a.requests b.requests y g.grown g.distinct m) [
        | inl (x, mx, moved) ↦
            still x.status y.status
              (All-In _ a.requests k.rows mx (subst (λ t. In t ids) moved.id there)) moved.status
        | inr out ↦ absurd (out (All-In _ ids k.known there))
      ];
}

-- An UPDATE that gives its rows a status of `Q`, or finds none of the identifiers.
pub IsKept_update :
    (Q : Status → Type 0) (ids : List Text) (p : RequestRow → Bool) (f : RequestRow → RequestRow)
    → ((r : RequestRow) → (f r).id ≡ r.id)
    → (a b : Db) → b.requests ≡ update p f a.requests
    → IsKept Q ids a
    → ((r : RequestRow) → In r a.requests → p r ≡ true → In r.id ids → Q (f r).status)
    → IsKept Q ids b
IsKept_update Q ids p f same a b e k good = record {
  keys = subst Distinct (sym all_ids) k.keys;
  known = subst (λ l. All (λ t. In t l) ids) (sym all_ids) k.known;
  rows = All-of_In _ b.requests λ y m there. row y (subst (In y) e m) there;
}
  where
    all_ids : ids_of b.requests ≡ ids_of a.requests
    all_ids = ap ids_of e ∙ update-ids p f same a.requests

    row : (y : RequestRow) → In y (update p f a.requests) → In y.id ids → Q y.status
    row y m there =
        let (x, mx, how) = In-update p f a.requests y m in
        elim how [
          | inl (px, q) ↦
              subst (λ (r : RequestRow). Q r.status) (sym q)
                (good x mx px
                  (subst (λ t. In t ids) (ap (λ (r : RequestRow). r.id) q ∙ same x) there))
          | inr (px, q) ↦
              subst (λ (r : RequestRow). Q r.status) (sym q)
                (All-In _ a.requests k.rows mx
                  (subst (λ t. In t ids) (ap (λ (r : RequestRow). r.id) q) there))
        ]

-- Operations that keep the rows of sent requests from waiting, whatever statements fail.
abbrev pub KeepsLeft {ℓ} : List Text → {A : Type ℓ} → Tx A → Type 0
KeepsLeft sent m = Relates (IsKept Left sent) (λ a b. IsKept Left sent b) m

module _ (sent : List Text) where
  audit_left :
      (event : Event) (db : Db)
      → IsKept Left sent db
      → IsKept Left sent (record db { audit = db.audit ++ (event ∷ []) })
  audit_left event db k = record { keys = k.keys; known = k.known; rows = k.rows }

  update_left :
      (p : RequestRow → Bool) (f : RequestRow → RequestRow)
      → ((r : RequestRow) → (f r).id ≡ r.id)
      → ((r : RequestRow) → is_waiting (f r).status ≡ false)
      → (db : Db) → IsKept Left sent db
      → IsKept Left sent (record db { requests = update p f db.requests })
  update_left p f same gone db k =
      IsKept_update Left sent p f same db _ refl k (λ r m e there. gone r)

  mark_dispatching_left :
      (id : Text) (db : Db) → IsKept Left sent db → IsKept Left sent (mark_dispatching id db)
  unfolding mark_dispatching
  mark_dispatching_left id = update_left _ _ (λ r. refl) (λ r. refl)

  mark_finished_left :
      (env : Environment) (id : Text) (t : Status) (reason : Text) (result : Option Result)
      → is_waiting t ≡ false
      → (db : Db) → IsKept Left sent db
      → IsKept Left sent (mark_finished env id t reason result db)
  unfolding mark_finished
  mark_finished_left env id t reason result e =
      update_left _ (finish_row env id t reason result) (λ r. refl) (λ r. e)

  mark_ended_left :
      (t : Status) (reason : Text) (now : ℕ) (id : Text)
      → is_waiting t ≡ false
      → (db : Db) → IsKept Left sent db
      → IsKept Left sent (mark_ended t reason now id db)
  unfolding mark_ended
  mark_ended_left t reason now id e = update_left _ _ (λ r. refl) (λ r. e)

  kept : IsPreorder (IsKept Left sent) (λ a b. IsKept Left sent b)
  kept = invariant (IsKept Left sent)

  pub finish_tx-left :
      (env : Environment) (id : Text) (t : Status) (reason : Text) (result : Option Result)
      → is_waiting t ≡ false
      → KeepsLeft sent (finish_tx env id t reason result)
  unfolding finish_tx
  finish_tx-left env id t reason result e =
      bind-Relates kept _ _
        (exec-Relates kept sql_error _ (mark_finished_left env id t reason result e))
        (λ _.
          bind-Relates kept _ _ (audit-Relates kept sql_error _ (audit_left _))
            (λ _. commit-Relates kept sql_error))

  finish_dropped-left :
      (env : Environment) (id : Text) (t : Status) (reason : Text)
      → is_waiting t ≡ false
      → KeepsLeft sent (finish_dropped env id t reason)
  finish_dropped-left env id t reason e =
      bind-Relates kept _ _ (finish_tx-left env id t reason none e)
        (λ _. return-Relates kept dropped)

  start_dispatch-left :
      (id : Text) (snap : Snapshot) (svc : Service) → KeepsLeft sent (start_dispatch id snap svc)
  unfolding start_dispatch
  start_dispatch-left id snap svc =
      search
        (
          kept, bind-Relates, return-Relates, exec-Relates, audit-Relates, commit-Relates,
          mark_dispatching_left, audit_left,
        )
        depth 20

  check_approval-left :
      (env : Environment) (id : Text) (snap : Snapshot) (svc : Service) (m : Mode)
      → KeepsLeft sent (check_approval env id snap svc m)
  check_approval-left env id snap svc standing = start_dispatch-left id snap svc
  check_approval-left env id snap svc approval_required =
      bind-Relates kept _ _ (query-Relates kept sql_error _) λ n. elim (Bool-cases (n == 1)) [
        | inl e ↦ rw e (start_dispatch-left id snap svc)
        | inr e ↦ rw e (finish_dropped-left env id failed _ refl)
      ]

  after_valid-left :
      (env : Environment) (id : Text) (snap : Snapshot) (valid : Option Service)
      → KeepsLeft sent (after_valid env id snap valid)
  after_valid-left env id snap none = finish_dropped-left env id cancelled _ refl
  after_valid-left env id snap (some svc) = search (kept, reading, check_approval-left) depth 12

  after_snapshot-left :
      (env : Environment) (id : Text) (found : Option Snapshot)
      → KeepsLeft sent (after_snapshot env id found)
  after_snapshot-left env id none = finish_dropped-left env id failed _ refl
  after_snapshot-left env id (some snap) =
      search (kept, reading, valid_snapshot-Relates, after_valid-left) depth 12

  pub claim_tx-left : (env : Environment) (id : Text) → KeepsLeft sent (claim_tx env id)
  unfolding claim_tx
  claim_tx-left env id =
      search (kept, reading, begin-Relates, snapshot-Relates, after_snapshot-left) depth 20

  end_request-left :
      (t : Status) (kind reason : Text) (now : ℕ) (id : Text)
      → is_waiting t ≡ false
      → KeepsLeft sent (end_request t kind reason now id)
  unfolding end_request
  end_request-left t kind reason now id e =
      bind-Relates kept _ _ (exec-Relates kept sql_error _ (mark_ended_left t reason now id e))
        (λ _. audit-Relates kept sql_error _ (audit_left _))

  pub recover_tx-left : (env : Environment) → KeepsLeft sent (recover_tx env)
  unfolding recover_tx end_requests
  recover_tx-left env = bind-Relates kept _ _ (begin-Relates kept sql_error) λ _.
      bind-Relates kept _ _
        (bind-Relates kept _ _ (query-Relates kept sql_error _) λ ids.
          for_each_all-Relates kept ids _
            (λ id. end_request-left outcome_unknown _ _ env.now id refl))
        (λ _. commit-Relates kept sql_error)
