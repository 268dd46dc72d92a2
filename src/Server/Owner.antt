-- ===== src/Server/Owner.antt =====
-- internal/server/owner.go: the owner's changes of permissions and devices, and the end of services.
use budge.Base.{
  ℕ, suc, Bool, true, false, not, Option, none, some, List, [], ◌∷◌, ◌++◌, ltb, if◌then◌else◌, any,
  update,
}
use budge.Base.Text.{Text, codes, text_eq}
use budge.Access.Syntax.{path}
use budge.Access.Methods.{methods}
use budge.Access.Scope.{
  Permission, Kind, exact, subtree, Mode, standing, approval_required, overlap,
}
use budge.Requests.Types.{
  sql_error, not_found, active_required, overlapping_rule, invalid_permission, invalid_expiry,
  Outcome, ok, err,
}
use budge.Requests.Environment.{Environment}
use budge.Store.Tables.{Device, ServiceRow, PermissionRow, Db}
use budge.Store.Transaction.{
  Tx, ◌>>=◌, ◌>>◌, lift, guard, query, exec_checked, or_throw, audit, begin, commit,
}
use budge.Server.Authorize.{active_device, get_service, permissions_in_force, or_else}
use budge.Server.Maintenance.{device_id, service_id, permission_id, mark_revoked, cancel_requests}

-- The form of `/permission`.
pub record PermissionForm : Type 0 where
  pub device : Text
  pub service : Text
  pub method : Text
  pub path : Text
  pub path_kind : Text
  pub mode : Text
  pub expires : Text

abbrev pub parse_kind : Text → Option Kind
parse_kind [] = some exact
parse_kind (c ∷ s) =
    if text_eq (c ∷ s) (codes "exact")
    then some exact
    else if text_eq (c ∷ s) (codes "subtree")
    then some subtree
    else none

abbrev pub parse_mode : Text → Option Mode
parse_mode [] = some standing
parse_mode (c ∷ s) =
    if text_eq (c ∷ s) (codes "standing")
    then some standing
    else if text_eq (c ∷ s) (codes "approval_required")
    then some approval_required
    else none

-- `!t.After(time.Now())`, in whole seconds.
abbrev future : ℕ → Option ℕ → Outcome (Option ℕ)
future now none = err invalid_expiry
future now (some t) = if ltb now t then ok (some t) else err invalid_expiry

abbrev pub parse_expiry : Environment → Text → Outcome (Option ℕ)
parse_expiry env [] = ok none
parse_expiry env (c ∷ s) = future env.now (env.parse_time (c ∷ s))

-- `INSERT INTO permissions`, whose primary key is the identifier.
unfoldable pub insert_permission : Permission → Db → Option Db
insert_permission p db =
    if any (λ (r : PermissionRow). text_eq r.id p.id) db.permissions
    then none
    else some (record db {
      permissions = db.permissions ++ (record { permission = p; revoked = false } ∷ []);
    })

unfoldable pub add_permission_tx : Environment → Text → PermissionForm → Tx (Unit {0})
unfolding insert_permission
add_permission_tx env owner f = do
  listed ← lift (or_else invalid_permission (methods f.method))
  guard (path f.path) invalid_permission
  kind ← lift (or_else invalid_permission (parse_kind f.path_kind))
  mode ← lift (or_else invalid_permission (parse_mode f.mode))
  expires ← lift (parse_expiry env f.expires)
  begin sql_error
  svc ← or_throw active_required (get_service f.service)
  active ← active_device f.device
  guard active active_required
  let candidate : Permission = record {
    id = env.new_id;
    device_id = f.device;
    service_id = svc.id;
    revision = svc.revision;
    method = listed;
    path = f.path;
    kind = kind;
    mode = mode;
    owner = owner;
    expires = expires;
  }
  rows ← query sql_error (permissions_in_force env.now f.device svc.id svc.revision)
  guard (not (any (λ (r : PermissionRow). overlap candidate r.permission) rows)) overlapping_rule
  exec_checked sql_error (insert_permission candidate)
  audit sql_error (record {
    owner = owner;
    device = f.device;
    kind = codes "permission_created";
    entity = env.new_id;
  })
  commit sql_error

-- An UPDATE that must find a row: `RowsAffected() == 0` is an error.
abbrev pub if_any {ℓ} : {A : Type ℓ} → (A → Bool) → List A → Db → Option Db
if_any p rows db = if any p rows then some db else none

abbrev pub revoke_row : PermissionRow → PermissionRow
revoke_row p = record p { revoked = true }

-- `UPDATE permissions SET revoked=1 WHERE id=?`.
unfoldable pub mark_permission_revoked : Text → Db → Option Db
mark_permission_revoked id db =
    if_any (λ (p : PermissionRow). text_eq p.id id) db.permissions
      (record db {
        permissions = update (λ (p : PermissionRow). text_eq p.id id) revoke_row db.permissions;
      })

unfoldable pub revoke_permission_tx : Environment → Text → Text → Tx (Unit {0})
unfolding mark_permission_revoked cancel_requests
revoke_permission_tx env owner id = do
  begin sql_error
  exec_checked not_found (mark_permission_revoked id)
  cancel_requests env permission_id id (codes "permission_revoked")
  audit sql_error
      (record { owner = owner; device = []; kind = codes "permission_revoked"; entity = id })
  commit sql_error

abbrev pub disable_row : ServiceRow → ServiceRow
disable_row s = record s {
  service = record s.service { revision = suc s.revision };
  enabled = false;
}

-- `UPDATE services SET enabled=0,revision=revision+1 WHERE id=?`.
unfoldable pub mark_disabled : Text → Db → Option Db
mark_disabled id db =
    if_any (λ (s : ServiceRow). text_eq s.id id) db.services
      (record db {
        services = update (λ (s : ServiceRow). text_eq s.id id) disable_row db.services;
      })

unfoldable pub disable_service_tx : Environment → Text → Text → Tx (Unit {0})
unfolding mark_disabled cancel_requests
disable_service_tx env owner id = do
  begin sql_error
  exec_checked not_found (mark_disabled id)
  cancel_requests env service_id id (codes "service_disabled")
  audit sql_error
      (record { owner = owner; device = []; kind = codes "service_disabled"; entity = id })
  commit sql_error

-- `UPDATE devices SET revoked=1 WHERE id=?`, of a device that there is.
unfoldable pub mark_device_revoked : Text → Db → Option Db
unfolding mark_revoked
mark_device_revoked id db = if_any (λ (d : Device). text_eq d.id id) db.devices (mark_revoked id db)

-- `revoke`.
unfoldable pub revoke_tx : Environment → Text → Text → Tx (Unit {0})
unfolding mark_device_revoked cancel_requests
revoke_tx env owner id = do
  begin sql_error
  exec_checked not_found (mark_device_revoked id)
  cancel_requests env device_id id (codes "device_revoked")
  audit sql_error
      (record { owner = owner; device = id; kind = codes "device_revoked"; entity = id })
  commit sql_error
