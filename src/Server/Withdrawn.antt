-- ===== src/Server/Withdrawn.antt =====
-- What the owner withdraws: a device, a permission, a service.
use budge.Base.{
  arith, inl, inr, ◌≡◌, refl, sym, ap, subst, ◌∙◌, Bool, true, false, not, ◌&&◌, none, some, List,
  [], ◌∷◌, any, find, All, update, Bool-cases,
}
use budge.Base.Text.{Text, text_eq, text_eq_iff}
use budge.Requests.Types.{not_found, ok}
use budge.Requests.Environment.{Environment}
use budge.Store.Tables.{cancelled, Device, ServiceRow, PermissionRow, Db}
use budge.Store.Transaction.{transact}
use budge.Server.Growth.{HasKeys}
use budge.Server.Loops.{Swept}
use budge.Server.Sweeps.{withdrawal-done}
use budge.Server.Authorize.{is_active_device, service_of, enabled_service}
use budge.Server.Maintenance.{device_id, service_id, permission_id, in_scope, mark_revoked}
use budge.Server.Owner.{
  if_any, mark_device_revoked, revoke_tx, mark_disabled, disable_row, disable_service_tx,
  revoke_row, mark_permission_revoked, revoke_permission_tx,
}

if_any-some {ℓ} :
    {A : Type ℓ} (p : A → Bool) (rows : List A) (a b : Db) → if_any p rows a ≡ some b → b ≡ a
if_any-some p rows a b h = ground (arith, h)

no_active_device :
    (id : Text) (ds : List Device)
    → any
        (λ (d : Device). text_eq d.id id && not d.revoked)
        (update (λ (d : Device). text_eq d.id id) (λ d. record d { revoked = true }) ds)
      ≡ false
no_active_device id [] = refl
no_active_device id (d ∷ ds) = elim (Bool-cases (text_eq d.id id)) [
  | inl e ↦ rw e (ground (arith, e, no_active_device id ds))
  | inr e ↦ rw e (ground (arith, e, no_active_device id ds))
]

-- When the transaction of `revoke` comes through, the device is not active, exactly its requests
-- that waited are cancelled, and no other request has changed.
pub revoke_tx-Swept :
    (env : Environment) (owner id : Text) (faults : List Bool) (db db' : Db)
    → HasKeys db
    → transact (revoke_tx env owner id) faults db ≡ (ok tt, db')
    → (is_active_device id db' ≡ false) × Swept (in_scope device_id id) cancelled db db'
unfolding revoke_tx mark_device_revoked mark_revoked is_active_device
revoke_tx-Swept env owner id faults db db' keys h =
    let (db1, changed, swept, framed) =
      withdrawal-done env not_found (mark_device_revoked id) device_id id _ _ faults db db'
        (λ a b e. ap (λ (x : Db). x.requests) (if_any-some _ a.devices (mark_revoked id a) b e))
        keys h in
    (
      ap (any (λ (d : Device). text_eq d.id id && not d.revoked)) (
            framed.devices
            ∙ ap (λ (x : Db). x.devices)
                (if_any-some _ db.devices (mark_revoked id db) db1 changed))
          ∙ no_active_device id db.devices,
      swept,
    )

no_enabled_service :
    (id : Text) (ss : List ServiceRow)
    → find
        (λ (s : ServiceRow). text_eq s.id id && s.enabled)
        (update (λ (s : ServiceRow). text_eq s.id id) disable_row ss)
      ≡ none
no_enabled_service id [] = refl
no_enabled_service id (s ∷ ss) = elim (Bool-cases (text_eq s.id id)) [
  | inl e ↦ rw e (ground (arith, e, no_enabled_service id ss))
  | inr e ↦ rw e (ground (arith, e, no_enabled_service id ss))
]

-- When the transaction of `disableService` comes through, the service is not found by `GetService`,
-- exactly the requests for it that waited are cancelled, and no other request has changed.
pub disable_service_tx-Swept :
    (env : Environment) (owner id : Text) (faults : List Bool) (db db' : Db)
    → HasKeys db
    → transact (disable_service_tx env owner id) faults db ≡ (ok tt, db')
    → (enabled_service id db' ≡ none) × Swept (in_scope service_id id) cancelled db db'
unfolding disable_service_tx mark_disabled enabled_service
disable_service_tx-Swept env owner id faults db db' keys h =
    let (db1, changed, swept, framed) =
      withdrawal-done env not_found (mark_disabled id) service_id id _ _ faults db db'
        (λ a b e. ap (λ (x : Db). x.requests) (if_any-some _ a.services _ b e)) keys h in
    (
      ap (λ l. service_of (find (λ (s : ServiceRow). text_eq s.id id && s.enabled) l))
            (framed.services
              ∙ ap (λ (x : Db). x.services) (if_any-some _ db.services _ db1 changed))
          ∙ ap service_of (no_enabled_service id db.services),
      swept,
    )

revoked_rows :
    (id : Text) (ps : List PermissionRow)
    → All
        (λ (p : PermissionRow). p.id ≡ id → p.revoked ≡ true)
        (update (λ (p : PermissionRow). text_eq p.id id) revoke_row ps)
revoked_rows id [] = tt
revoked_rows id (p ∷ ps) = (
  elim (Bool-cases (text_eq p.id id)) [
    | inl e ↦ rw e (λ _. refl)
    | inr e ↦ rw e (λ q. ground (arith, text_eq_iff p.id id))
  ],
  revoked_rows id ps,
)

-- When the transaction of `revokePermission` comes through, every permission of the identifier is
-- revoked, exactly the requests under it that waited are cancelled, and no other request has
-- changed.
pub revoke_permission_tx-Swept :
    (env : Environment) (owner id : Text) (faults : List Bool) (db db' : Db)
    → HasKeys db
    → transact (revoke_permission_tx env owner id) faults db ≡ (ok tt, db')
    → All (λ (p : PermissionRow). p.id ≡ id → p.revoked ≡ true) db'.permissions
      × Swept (in_scope permission_id id) cancelled db db'
unfolding revoke_permission_tx mark_permission_revoked
revoke_permission_tx-Swept env owner id faults db db' keys h =
    let (db1, changed, swept, framed) =
      withdrawal-done env not_found (mark_permission_revoked id) permission_id id _ _ faults db db'
        (λ a b e. ap (λ (x : Db). x.requests) (if_any-some _ a.permissions _ b e)) keys h in
    (
      subst (All (λ (p : PermissionRow). p.id ≡ id → p.revoked ≡ true))
          (sym (
            framed.permissions
            ∙ ap (λ (x : Db). x.permissions) (if_any-some _ db.permissions _ db1 changed)))
          (revoked_rows id db.permissions),
      swept,
    )
