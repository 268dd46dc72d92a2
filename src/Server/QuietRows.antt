-- ===== src/Server/QuietRows.antt =====
-- What the statements of the operations do to the rows of the requests.
use budge.Base.{
  ℕ, leb, ◌≡◌, refl, sym, subst, ◌↔◌, inl, inr, Bool, true, none, some, List, [], ◌∷◌, ◌++◌, arith,
  In, Any, any, any-Any, update, All-of_every, Any-map, Bool-cases, and-true,
}
use budge.Base.Text.{Text, text_eq, text_eq_iff}
use budge.Access.Scope.{Permission}
use budge.Requests.Environment.{Environment}
use budge.Store.Tables.{
  Status, pending_approval, queued, denied, is_pending, is_waiting, expired, cancelled, Decision,
  approve, deny, Approval, Event, RequestRow, has_id, Db,
}
use budge.Store.Transaction.{Tx}
use budge.Store.Relates.{Relates}
use budge.Server.Lifecycle.{
  Quiet, approve as approve_move, deny as deny_move, lapse, cancel, here, next, IsMoved, moved_to,
  Moved-update, Moved_refl, Distinct, ids_of,
}
use budge.Server.Growth.{
  Grows, Grows-append, IsGrown, HasKeys, IsGrown-of_moved, IsGrown-same, IsSpent-same,
  end_requests-Relates,
}
use budge.Server.Submit.{conflicts, insert_request}
use budge.Server.Decide.{decide_row, insert_approval, mark_decided}
use budge.Server.Maintenance.{
  Column, column, end_requests, overdue, in_scope, purgeable, purge, drop_sessions, cancel_requests,
  mark_revoked, drop_all_sessions,
}
use budge.Server.Owner.{
  insert_permission, mark_permission_revoked, mark_disabled, mark_device_revoked,
}

abbrev pub IsQuiet {ℓ} : {A : Type ℓ} → Tx A → Type 0
IsQuiet m = Relates HasKeys (IsGrown Quiet) m

pub audit-IsGrown :
    (event : Event) (db : Db)
    → HasKeys db
    → IsGrown Quiet db (record db { audit = db.audit ++ (event ∷ []) })
audit-IsGrown event db k = IsGrown-same Quiet db _ k refl (λ h q. q)

update-IsGrown :
    (p : RequestRow → Bool) (f : RequestRow → RequestRow)
    → ((r : RequestRow) → p r ≡ true → IsMoved Quiet r (f r))
    → (db : Db) → HasKeys db
    → IsGrown Quiet db (record db { requests = update p f db.requests })
update-IsGrown p f moves db k =
    IsGrown-of_moved Quiet db _ k
      (Moved-update Quiet p f db.requests db.requests (Moved_refl Quiet db.requests)
        (All-of_every _ moves db.requests))
      refl

-- A row with a fresh identifier.
fresh-Distinct :
    (rows : List RequestRow) (row : RequestRow)
    → Distinct (ids_of rows)
    → ¬ Any (λ (r : RequestRow). r.id ≡ row.id) rows
    → Distinct (ids_of (rows ++ (row ∷ [])))
fresh-Distinct [] row d h = ((λ m. m), tt)
fresh-Distinct (r ∷ rows) row (d, ds) h =
    (later rows (λ e. h (inl e)) d, fresh-Distinct rows row ds (λ m. h (inr m)))
  where
    later :
        (rest : List RequestRow)
        → ¬ (r.id ≡ row.id)
        → ¬ In r.id (ids_of rest)
        → ¬ In r.id (ids_of (rest ++ (row ∷ [])))
    later [] ne out (inl e) = ne e
    later [] ne out (inr m) = m
    later (q ∷ rest) ne out (inl e) = out (inl e)
    later (q ∷ rest) ne out (inr m) = later rest ne (λ k. out (inr k)) m

insert_request_fresh :
    (row : RequestRow) (db db' : Db)
    → insert_request row db ≡ some db'
    → (db'.requests ≡ db.requests ++ (row ∷ []))
      × (db'.invitations ≡ db.invitations)
      × (¬ Any (λ (r : RequestRow). r.id ≡ row.id) db.requests)
unfolding insert_request
insert_request_fresh row db db' e = elim (Bool-cases (any (conflicts row) db.requests)) [
  | inl old ↦ let h : none ≡ some db' = rw (old, insert_request) at e in cc
  | inr new ↦ (
    ground arith,
    ground arith,
    λ m.
        let clash =
          (any-Any (conflicts row) db.requests).1
            (Any-map (λ (r : RequestRow) q. same r q) db.requests m) in
        cc,
  )
]
  where
    same : (r : RequestRow) → r.id ≡ row.id → conflicts row r ≡ true
    same r q = rw ((text_eq_iff r.id row.id).1 q)

pub insert_request-IsGrown :
    (row : RequestRow) (db db' : Db)
    → HasKeys db
    → insert_request row db ≡ some db'
    → IsGrown Quiet db db'
insert_request-IsGrown row db db' k e =
    let (rows, invitations, fresh) = insert_request_fresh row db db' e in
    record {
      grown =
          subst (Grows Quiet db.requests) (sym rows) (Grows-append Quiet db.requests (row ∷ []));
      distinct =
          subst (λ l. Distinct (ids_of l)) (sym rows) (fresh-Distinct db.requests row k fresh);
      spent = IsSpent-same db db' invitations;
    }

pub insert_approval-IsGrown :
    (a : Approval) (db db' : Db)
    → HasKeys db
    → insert_approval a db ≡ some db'
    → IsGrown Quiet db db'
unfolding insert_approval
insert_approval-IsGrown a db db' k e =
    IsGrown-same Quiet db db' k (ground arith) (IsSpent-same db db' (ground arith))

is_pending_iff : (s : Status) → (is_pending s ≡ true) ↔ (s ≡ pending_approval)
is_pending_iff s = ground arith

decided :
    (env : Environment) (d : Decision) (r : RequestRow)
    → r.status ≡ pending_approval
    → IsMoved Quiet r (decide_row env d r)
decided env approve r e =
    moved_to r queued _ _ _ _ (next here (subst (λ s. Quiet s queued) (sym e) approve_move))
decided env deny r e =
    moved_to r denied _ _ _ _ (next here (subst (λ s. Quiet s denied) (sym e) deny_move))

pub mark_decided-IsGrown :
    (env : Environment) (id : Text) (d : Decision) (db : Db)
    → HasKeys db
    → IsGrown Quiet db (mark_decided env id d db)
unfolding mark_decided
mark_decided-IsGrown env id d = update-IsGrown _ (decide_row env d) λ r h.
    decided env d r ((is_pending_iff r.status).0 (and-true (has_id id r) (is_pending r.status) h).1)

waiting_lapses : (s : Status) → is_waiting s ≡ true → Quiet s expired
waiting_lapses s h = lapse h

waiting_cancels : (s : Status) → is_waiting s ≡ true → Quiet s cancelled
waiting_cancels s h = cancel h

pub purge-IsGrown : (now : ℕ) (db : Db) → HasKeys db → IsGrown Quiet db (purge now db)
unfolding purge
purge-IsGrown now = update-IsGrown (purgeable now) _ (λ r h. moved_to r r.status _ _ _ _ here)

pub drop_sessions-IsGrown :
    (now : ℕ) (db : Db) → HasKeys db → IsGrown Quiet db (drop_sessions now db)
unfolding drop_sessions
drop_sessions-IsGrown now db k = IsGrown-same Quiet db _ k refl (λ h q. q)

pub expire-IsQuiet :
    (env : Environment) (kind reason : Text)
    → IsQuiet (end_requests (overdue env.now) expired kind reason env.now)
expire-IsQuiet env kind reason =
    end_requests-Relates Quiet is_waiting expired waiting_lapses (overdue env.now)
      (λ r h. (and-true (is_waiting r.status) (leb r.expires env.now) h).0) kind reason env.now

pub cancel_requests-IsQuiet :
    (env : Environment) (c : Column) (id reason : Text) → IsQuiet (cancel_requests env c id reason)
unfolding cancel_requests
cancel_requests-IsQuiet env c id reason =
    end_requests-Relates Quiet is_waiting cancelled waiting_cancels (in_scope c id)
      (λ r h. (and-true (text_eq (column c r) id) (is_waiting r.status) h).1) _ reason env.now

pub insert_permission-IsGrown :
    (p : Permission) (db db' : Db)
    → HasKeys db
    → insert_permission p db ≡ some db'
    → IsGrown Quiet db db'
unfolding insert_permission
insert_permission-IsGrown p db db' k e =
    IsGrown-same Quiet db db' k (ground (arith, e)) (λ h q. ground (arith, e, q))

pub mark_permission_revoked-IsGrown :
    (id : Text) (db db' : Db)
    → HasKeys db
    → mark_permission_revoked id db ≡ some db'
    → IsGrown Quiet db db'
unfolding mark_permission_revoked
mark_permission_revoked-IsGrown id db db' k e =
    IsGrown-same Quiet db db' k (ground arith) (IsSpent-same db db' (ground arith))

pub mark_disabled-IsGrown :
    (id : Text) (db db' : Db) → HasKeys db → mark_disabled id db ≡ some db' → IsGrown Quiet db db'
unfolding mark_disabled
mark_disabled-IsGrown id db db' k e =
    IsGrown-same Quiet db db' k (ground arith) (IsSpent-same db db' (ground arith))

pub mark_device_revoked-IsGrown :
    (id : Text) (db db' : Db)
    → HasKeys db
    → mark_device_revoked id db ≡ some db'
    → IsGrown Quiet db db'
unfolding mark_device_revoked mark_revoked
mark_device_revoked-IsGrown id db db' k e =
    IsGrown-same Quiet db db' k (ground arith) (IsSpent-same db db' (ground arith))

pub mark_revoked-IsGrown :
    (id : Text) (db : Db) → HasKeys db → IsGrown Quiet db (mark_revoked id db)
unfolding mark_revoked
mark_revoked-IsGrown id db k = IsGrown-same Quiet db _ k refl (λ h q. q)

pub drop_all_sessions-IsGrown : (db : Db) → HasKeys db → IsGrown Quiet db (drop_all_sessions db)
unfolding drop_all_sessions
drop_all_sessions-IsGrown db k = IsGrown-same Quiet db _ k refl (λ h q. q)
