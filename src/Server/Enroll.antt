-- ===== src/Server/Enroll.antt =====
-- internal/server: `issue` and `Invitation` of tls.go, `enroll` of server.go and `renew` of
-- renewal.go.
use budge.Base.{
  ℕ, ◌+◌, ◌*◌, ◌-◌, Bool, true, false, not, ◌&&◌, Option, none, some, List, [], ◌∷◌, ◌++◌, ltb,
  if◌then◌else◌, any, find, update,
}
use budge.Base.Text.{Text, codes, text_eq}
use budge.Requests.Types.{http, sql_error, invalid_csr, Outcome, err}
use budge.Requests.Environment.{Environment}
use budge.Store.Tables.{Device, InvitationRow, Db}
use budge.Store.Transaction.{
  Tx, ◌>>=◌, ◌>>◌, return, lift, guard, query, exec, exec_checked, or_throw, audit, begin, commit,
  transact,
}
use budge.Server.Authorize.{active_device, or_else}
use budge.Server.Handler.{unavailable, decode, Throttles, throttle_key}

-- A signing request, as far as `issue` reads it.
pub record Csr : Type 0 where
  pub signed : Bool
  pub p256 : Bool
  pub key : Text

-- The `x509.Certificate` that is signed, and what is read of a certificate.
pub record Template : Type 0 where
  pub serial : Text
  pub subject : Text
  pub names : List Text
  pub not_before : ℕ
  pub not_after : ℕ
  pub client_auth : Bool

-- `crypto/x509` and `encoding/pem`, with the authority's key and a serial number that is drawn.
pub record X509 : Type 0 where
  pub serial : Text
  pub parse_request : Text → Option Csr
  pub create : Template → Text → Option Text
  pub parse_certificate : Text → Option Template

-- `30*24*time.Hour`.
abbrev pub thirty_days : ℕ
thirty_days = 30 * 24 * 3600

unfoldable pub client_template : Environment → X509 → Text → Template
client_template env x device = record {
  serial = x.serial;
  subject = device;
  names = [];
  not_before = env.now - 60;
  not_after = env.now + thirty_days;
  client_auth = true;
}

-- `issue`.
unfoldable pub issue : Environment → X509 → Text → Text → Outcome Text
unfolding client_template
issue env x device csr = elim (x.parse_request csr) [
  | none ↦ err invalid_csr
  | some r ↦
      if r.signed && r.p256
      then or_else sql_error (x.create (client_template env x device) r.key)
      else err invalid_csr
]

-- `INSERT INTO devices`, whose primary key is the identifier.
unfoldable pub insert_device : Text → Text → Db → Option Db
insert_device id label db =
    if any (λ (d : Device). text_eq d.id id) db.devices
    then none
    else some (record db {
      devices =
          db.devices
          ++ (record {
            id = id;
            label = label;
            revoked = false;
            certificate_serial = [];
            certificate_expires = 0;
          }
              ∷ []);
    })

-- `INSERT INTO invitations`, whose primary key is the hash.
unfoldable pub insert_invitation : InvitationRow → Db → Option Db
insert_invitation row db =
    if any (λ (i : InvitationRow). text_eq i.hash row.hash) db.invitations
    then none
    else some (record db { invitations = db.invitations ++ (row ∷ []) })

-- `Invitation`; the secret that is drawn is returned.
unfoldable pub invitation_tx : Environment → Text → Text → Text → Tx Text
unfolding insert_device insert_invitation
invitation_tx env secret owner label = do
  begin sql_error
  exec_checked sql_error (insert_device env.new_id label)
  exec_checked sql_error (
      insert_invitation (record {
        hash = env.hash secret;
        device_id = env.new_id;
        expires = env.now + 5 * 60;
        used = false;
      }))
  audit sql_error (record {
    owner = owner;
    device = env.new_id;
    kind = codes "invitation_created";
    entity = env.new_id;
  })
  commit sql_error
  return secret

-- The `JOIN` with the devices, and its `WHERE`.
abbrev pub is_open : ℕ → Text → List Device → InvitationRow → Bool
is_open now hash devices i =
    text_eq i.hash hash
    && not i.used
    && ltb now i.expires
    && any (λ (d : Device). text_eq d.id i.device_id && not d.revoked) devices

abbrev pub invited : Option InvitationRow → Option Text
invited none = none
invited (some i) = some i.device_id

unfoldable pub open_invitation : ℕ → Text → Db → Option Text
open_invitation now hash db = invited (find (is_open now hash db.devices) db.invitations)

-- `UPDATE invitations SET used=1 WHERE hash=?`.
unfoldable pub mark_used : Text → Db → Db
mark_used hash db = record db {
  invitations =
      update (λ (i : InvitationRow). text_eq i.hash hash) (λ i. record i { used = true })
        db.invitations;
}

-- `UPDATE devices SET certificate_serial=?,certificate_expires=? WHERE id=?`.
unfoldable pub set_certificate : Template → Text → Db → Db
set_certificate c id db = record db {
  devices =
      update (λ (d : Device). text_eq d.id id)
        (λ d. record d { certificate_serial = c.serial; certificate_expires = c.not_after })
        db.devices;
}

-- The end of `enroll` and of `renew`: the certificate is parsed and its columns are written.
unfoldable pub record_certificate : X509 → Text → Text → Tx (Unit {0})
unfolding set_certificate
record_certificate x id cert = do
  parsed ← lift (or_else (http 500 (codes "certificate_failed")) (x.parse_certificate cert))
  exec unavailable (set_certificate parsed id)

-- The transaction of `enroll`: the device and its certificate.
unfoldable pub enroll_tx : Environment → X509 → Text → Text → Tx (Text × Text)
unfolding open_invitation issue mark_used record_certificate
enroll_tx env x secret csr = do
  begin unavailable
  found ← query (http 403 (codes "invitation_invalid")) (open_invitation env.now (env.hash secret))
  id ← lift (or_else (http 403 (codes "invitation_invalid")) found)
  cert ← or_throw (http 400 (codes "invalid_csr")) (lift (issue env x id csr))
  exec unavailable (mark_used (env.hash secret))
  record_certificate x id cert
  audit unavailable (record { owner = []; device = id; kind = codes "enrolled"; entity = id })
  commit unavailable
  return (id, cert)

abbrev after_enroll :
    Environment → X509 → Option (Text × Text) → List Bool → Db → Outcome (Text × Text) × Db
after_enroll env x none faults db = (err (http 400 (codes "invalid_enrollment")), db)
after_enroll env x (some (secret, csr)) faults db = transact (enroll_tx env x secret csr) faults db

-- `enroll`; `clock` is `time.Now()` of `throttle`.
unfoldable pub handle_enroll :
    Environment
    → X509
    → (Text → Option ((Text × Text) × Text))
    → ℕ
    → Text
    → List Bool
    → Throttles × Db
    → Outcome (Text × Text) × (Throttles × Db)
unfolding throttle_key decode enroll_tx
handle_enroll env x parse clock body faults (times, db) =
    let (free, times') = throttle_key clock (codes "enroll") 20 times in
    let (answer, db') = after_enroll env x (decode parse (32 * 1024) body) faults db in
    if free then (answer, (times', db')) else (err (http 429 (codes "throttled")), (times', db))

-- The transaction of `renew`.
unfoldable pub renew_tx : Environment → X509 → Text → Text → Tx (Text × Text)
unfolding issue record_certificate
renew_tx env x device csr = do
  begin unavailable
  active ← active_device device
  guard active (http 401 (codes "device_revoked"))
  cert ← or_throw (http 400 (codes "invalid_csr")) (lift (issue env x device csr))
  record_certificate x device cert
  audit unavailable
      (record { owner = []; device = device; kind = codes "certificate_renewed"; entity = device })
  commit unavailable
  return (device, cert)

-- `7*24*time.Hour`.
abbrev pub seven_days : ℕ
seven_days = 7 * 24 * 3600

abbrev after_renew :
    Environment → X509 → Text → Option Text → List Bool → Db → Outcome (Text × Text) × Db
after_renew env x device none faults db = (err (http 400 (codes "invalid_csr")), db)
after_renew env x device (some csr) faults db = transact (renew_tx env x device csr) faults db

-- `renew`; `not_after` is the end of the certificate that the device has shown.
unfoldable pub handle_renew :
    Environment
    → X509
    → (Text → Option (Text × Text))
    → ℕ
    → Text
    → ℕ
    → Text
    → List Bool
    → Throttles × Db
    → Outcome (Text × Text) × (Throttles × Db)
unfolding throttle_key decode renew_tx
handle_renew env x parse clock device not_after body faults (times, db) =
    let (free, times') = throttle_key clock (codes "renew:" ++ device) 5 times in
    let (answer, db') = after_renew env x device (decode parse (32 * 1024) body) faults db in
    if not free
    then (err (http 429 (codes "throttled")), (times', db))
    else if ltb (env.now + seven_days) not_after
    then (err (http 409 (codes "renewal_not_due")), (times', db))
    else (answer, (times', db'))
