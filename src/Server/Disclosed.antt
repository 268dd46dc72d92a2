-- ===== src/Server/Disclosed.antt =====
-- What `RequestStatus` tells a device.
use budge.Base.{
  arith, ℕ, ◌≡◌, ◌↔◌, ◌⊎◌, inl, inr, none, In, refl, sym, ap, subst, ◌∙◌, Bool, true, false, ◌||◌,
  Option, some, List, [], ◌∷◌,
}
use budge.Base.Text.{Text, text_eq, text_eq_iff}
use budge.Requests.Types.{Result, sql_error, request_not_found, ok}
use budge.Requests.Environment.{Environment}
use budge.Store.Tables.{
  Status, pending_approval, queued, dispatching, completed, failed, outcome_unknown, denied,
  expired, cancelled, RequestRow, Db,
}
use budge.Server.Claims.{request_row-In}
use budge.Store.Transaction.{Conn, done, lift, guard, query, begin, transact}
use budge.Store.Inversion.{
  done_inj, lift-done, query-done, bind-done, guard-done, begin-done, transact-ok,
}
use budge.Server.Authorize.{is_active_device, active_device, or_else}
use budge.Server.Authorized.{or_else-ok, active_device-done}
use budge.Server.Snapshot.{request_row}
use budge.Server.Status.{
  NextAction, poll, check_provider, nothing, is_absent, StatusView, is_owner, open_result,
  status_view, check_device, status_tx,
}

check_device-done :
    (device : Text) (c : Conn) {u : Unit {0}} {d : Conn}
    → check_device device c ≡ done u d
    → (is_owner device ≡ false → is_active_device device c.db ≡ true) × (d.db ≡ c.db)
check_device-done [] c h = ((λ e. cc), ap (λ (x : Conn). x.db) (sym (done_inj h).1))
check_device-done (x ∷ device) c h =
    let (active, c1, e1, h1) = bind-done (active_device (x ∷ device)) _ c h in
    let (q1, s1) = active_device-done (x ∷ device) c e1 in
    let (q2, s2) = guard-done active request_not_found c1 h1 in
    ((λ _. q1 q2), ap (λ (y : Conn). y.db) s2 ∙ s1)

-- What a status says of the way on: poll again, ask the provider, or nothing.
pub data Advice : Status → NextAction → ℕ → Type 0 where
  awaiting : Advice pending_approval poll 3000
  in_queue : Advice queued poll 3000
  under_way : Advice dispatching poll 3000
  unknown : Advice outcome_unknown check_provider 0
  done_well : Advice completed nothing 0
  done_badly : Advice failed nothing 0
  refused : Advice denied nothing 0
  too_late : Advice expired nothing 0
  withdrawn : Advice cancelled nothing 0

-- The view tells the columns of the row.
pub record IsToldOf (row : RequestRow) (result : Option Result) (view : StatusView) : Type 0 where
  pub request_id : view.request_id ≡ row.id
  pub status : view.status ≡ row.status
  pub expires : view.expires ≡ row.expires
  pub digest : view.digest ≡ row.snapshot_digest
  pub reason : view.reason ≡ row.reason
  pub result_told : view.result ≡ result
  pub advice : Advice row.status view.next_action view.poll_after_ms
  pub purged : (view.payload_purged ≡ true) ↔ ((row.snapshot ≡ none) ⊎ (row.snapshot ≡ some []))

Advice-of :
    (row : RequestRow) (result : Option Result) (s : Status)
    → Advice s
        (status_view (record row { status = s }) result).next_action
        (status_view (record row { status = s }) result).poll_after_ms
Advice-of row result pending_approval = awaiting
Advice-of row result queued = in_queue
Advice-of row result dispatching = under_way
Advice-of row result outcome_unknown = unknown
Advice-of row result completed = done_well
Advice-of row result failed = done_badly
Advice-of row result denied = refused
Advice-of row result expired = too_late
Advice-of row result cancelled = withdrawn

absent_iff : (o : Option Text) → (is_absent o ≡ true) ↔ ((o ≡ none) ⊎ (o ≡ some []))
absent_iff none = (λ e. inl refl, λ e. refl)
absent_iff (some []) = (λ e. inr refl, λ e. refl)
absent_iff (some (c ∷ s)) = ground arith

status_view-IsToldOf :
    (row : RequestRow) (result : Option Result) → IsToldOf row result (status_view row result)
status_view-IsToldOf row result = record {
  request_id = refl;
  status = refl;
  expires = refl;
  digest = refl;
  reason = refl;
  result_told = refl;
  advice = Advice-of row result row.status;
  purged = absent_iff row.snapshot;
}

-- What `RequestStatus` tells is a row of the tables with the identifier: its columns, its result
-- opened, what its status advises, and whether its snapshot was purged; the tables stay as they
-- are. A device is told of its own requests only, and only while it is active.
pub status_tx-own :
    (env : Environment) (device id : Text) (faults : List Bool) (db db' : Db) (view : StatusView)
    → transact (status_tx env device id) faults db ≡ (ok view, db')
    → (row : RequestRow) × (result : Option Result) × In row db.requests
      × (row.id ≡ id)
      × (open_result env id row.result ≡ ok result)
      × IsToldOf row result view
      × (db' ≡ db)
      × (is_owner device ≡ false → (row.device_id ≡ device) × (is_active_device device db ≡ true))
unfolding status_tx
status_tx-own env device id faults db db' view h =
    let (d, came, same) = transact-ok (status_tx env device id) faults db h in
    let (u0, c0, e0, h0) = bind-done (begin sql_error) _ _ came in
    let (u1, c1, e1, h1) = bind-done (check_device device) _ c0 h0 in
    let (found, c2, e2, h2) = bind-done (query request_not_found (request_row id)) _ c1 h1 in
    let (row, c3, e3, h3) = bind-done (lift (or_else request_not_found found)) _ c2 h2 in
    let (u4, c4, e4, h4) =
      bind-done (guard (is_owner device || text_eq row.device_id device) request_not_found) _ c3
        h3 in
    let (result, c5, e5, h5) = bind-done (lift (open_result env id row.result)) _ c4 h4 in
    let (f, s2) = query-done request_not_found (request_row id) c1 e2 in
    let (l, s3) = lift-done (or_else request_not_found found) c2 e3 in
    let (g, s4) =
      guard-done (is_owner device || text_eq row.device_id device) request_not_found c3 e4 in
    let (o, s5) = lift-done (open_result env id row.result) c4 e5 in
    let (active, s1) = check_device-done device c0 e1 in
    let s0 : c0.db ≡ db = begin-done sql_error _ e0 in
    let (v, s6) = done_inj h5 in
    let (there, same_id) =
      request_row-In id db row
        (ap (request_row id) (sym (s1 ∙ s0)) ∙ sym f ∙ or_else-ok request_not_found found l) in
    (
      row,
      result,
      there,
      same_id,
      o,
      subst (IsToldOf row result) v (status_view-IsToldOf row result),
      sym same ∙ ap (λ (x : Conn). x.db) (sym s6 ∙ s5 ∙ s4 ∙ s3) ∙ s2 ∙ s1 ∙ s0,
      λ e. (own row g e, subst (λ x. is_active_device device x ≡ true) s0 (active e)),
    )
  where
    own :
        (row : RequestRow)
        → (is_owner device || text_eq row.device_id device) ≡ true
        → is_owner device ≡ false
        → row.device_id ≡ device
    own row g e = (text_eq_iff row.device_id device).0 (ground (arith, g, e))
