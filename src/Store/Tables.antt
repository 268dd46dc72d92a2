-- ===== src/Store/Tables.antt =====
-- internal/store/migrations: the tables, as lists of rows in the order of insertion.
use budge.Base.{ℕ, Bool, true, false, Option, List}
use budge.Base.Text.{Text, text_eq}
use budge.Access.Scope.{Permission}
use budge.Requests.Types.{Service}

-- The column `status` of `requests`, with the values that its CHECK allows.
pub data Status : Type 0 where
  pending_approval queued dispatching completed failed outcome_unknown denied expired : Status
  cancelled : Status

pub data Decision : Type 0 where
  approve deny : Decision

pub record Device : Type 0 where
  pub id : Text
  pub label : Text
  pub revoked : Bool
  pub certificate_serial : Text
  pub certificate_expires : ℕ

pub record ServiceRow : Type 0 where
  pub service : Service
  pub open service use *
  pub enabled : Bool

pub record PermissionRow : Type 0 where
  pub permission : Permission
  pub open permission use *
  pub revoked : Bool

pub record RequestRow : Type 0 where
  pub id : Text
  pub device_id : Text
  pub service_id : Text
  pub revision : ℕ
  pub permission_id : Text
  pub key_hash : Text
  pub submission_digest : Text
  pub snapshot_digest : Text
  pub snapshot : Option Text
  pub status : Status
  pub expires : ℕ
  pub finished : Option ℕ
  pub result : Option Text
  pub reason : Text

pub record Approval : Type 0 where
  pub request_id : Text
  pub owner : Text
  pub digest : Text
  pub decision : Decision

pub record Session : Type 0 where
  pub hash : Text
  pub owner_id : Text
  pub csrf : Text
  pub expires : ℕ

pub record Owner : Type 0 where
  pub id : Text
  pub password_hash : Text

pub record InvitationRow : Type 0 where
  pub hash : Text
  pub device_id : Text
  pub expires : ℕ
  pub used : Bool

pub record HttpEvent : Type 0 where
  pub device_id : Text
  pub service_id : Text
  pub permission_id : Text
  pub method : Text
  pub status : ℕ
  pub duration_ms : ℕ
  pub request_bytes : ℕ
  pub response_bytes : ℕ

pub record Event : Type 0 where
  pub owner : Text
  pub device : Text
  pub kind : Text
  pub entity : Text

pub record Db : Type 0 where
  pub metadata : List (Text × Text)
  pub owners : List Owner
  pub devices : List Device
  pub invitations : List InvitationRow
  pub services : List ServiceRow
  pub permissions : List PermissionRow
  pub requests : List RequestRow
  pub approvals : List Approval
  pub sessions : List Session
  pub audit : List Event
  pub http_events : List HttpEvent

-- `WHERE id=?` on the requests.
abbrev pub has_id : Text → RequestRow → Bool
has_id id r = text_eq r.id id

-- Status tests.
abbrev pub is_pending : Status → Bool
is_pending pending_approval = true
is_pending _ = false

abbrev pub is_queued : Status → Bool
is_queued queued = true
is_queued _ = false

abbrev pub is_dispatching : Status → Bool
is_dispatching dispatching = true
is_dispatching _ = false

-- `status IN ('pending_approval','queued')`.
abbrev pub is_waiting : Status → Bool
is_waiting pending_approval = true
is_waiting queued = true
is_waiting _ = false

-- `terminal`.
abbrev pub terminal : Status → Bool
terminal pending_approval = false
terminal queued = false
terminal dispatching = false
terminal _ = true
