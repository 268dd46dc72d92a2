-- ===== src/Server/Authorize.antt =====
-- internal/access/access.go: `ActiveDevice`, `GetService` and `Authorize`, on the tables.
use budge.Base.{
  ℕ, Bool, true, false, not, ◌&&◌, Option, none, some, List, [], ◌∷◌, ltb, ◌==◌, if◌then◌else◌, any,
  find, select,
}
use budge.Base.Text.{Text, text_eq}
use budge.Access.Scope.{Permission, matches}
use budge.Requests.Types.{
  Service, Code, device_revoked, permission_denied, not_found, sql_error, Outcome, ok, err,
}
use budge.Store.Tables.{Device, ServiceRow, PermissionRow, Db}
use budge.Store.Transaction.{Tx, ◌>>=◌, ◌>>◌, return, lift, guard, try_query, query, or_throw}

-- `SELECT 1 FROM devices WHERE id=? AND revoked=0`.
unfoldable pub is_active_device : Text → Db → Bool
is_active_device id db = any (λ (d : Device). text_eq d.id id && not d.revoked) db.devices

abbrev pub found_true : Option Bool → Bool
found_true none = false
found_true (some b) = b

-- `ActiveDevice`: an error of the query is an inactive device.
unfoldable pub active_device : Text → Tx Bool
unfolding is_active_device
active_device id = do found ← try_query (is_active_device id); return (found_true found)

abbrev pub service_of : Option ServiceRow → Option Service
service_of none = none
service_of (some row) = some row.service

-- `SELECT … FROM services WHERE id=? AND enabled=1`.
unfoldable pub enabled_service : Text → Db → Option Service
enabled_service id db =
    service_of (find (λ (s : ServiceRow). text_eq s.id id && s.enabled) db.services)

abbrev pub or_else {ℓ} : {A : Type ℓ} → Code → Option A → Outcome A
or_else e none = err e
or_else e (some a) = ok a

-- `GetService`.
unfoldable pub get_service : Text → Tx Service
unfolding enabled_service
get_service id = do found ← query sql_error (enabled_service id); lift (or_else not_found found)

-- `expires IS NULL OR expires>?`.
abbrev pub unexpired : ℕ → Option ℕ → Bool
unexpired now none = true
unexpired now (some t) = ltb now t

-- The WHERE clause of the permissions that `Authorize` and `addPermission` read.
unfoldable pub in_force : ℕ → Text → Text → ℕ → PermissionRow → Bool
in_force now device service revision p =
    text_eq p.device_id device
    && text_eq p.service_id service
    && p.revision == revision
    && not p.revoked
    && unexpired now p.expires

unfoldable pub permissions_in_force : ℕ → Text → Text → ℕ → Db → List PermissionRow
unfolding in_force
permissions_in_force now device service revision db =
    select (in_force now device service revision) db.permissions

-- The loop over the rows.
unfoldable pub first_match : List PermissionRow → Text → Text → Option Permission
first_match [] method path = none
first_match (p ∷ ps) method path =
    let rest = first_match ps method path in
    if matches p.permission method path then some p.permission else rest

unfoldable pub authorize : ℕ → Text → Text → Text → Text → Tx (Service × Permission)
unfolding active_device get_service permissions_in_force first_match
authorize now device service method path = do
  active ← active_device device
  guard active device_revoked
  svc ← or_throw permission_denied (get_service service)
  rows ← query sql_error (permissions_in_force now device service svc.revision)
  p ← lift (or_else permission_denied (first_match rows method path))
  return (svc, p)
