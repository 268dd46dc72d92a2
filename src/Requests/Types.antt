-- ===== src/Requests/Types.antt =====
-- internal/requests/types.go and the record `Service` of internal/access/access.go.
-- A `map[string]string` and an `http.Header` are lists of fields, in the order of iteration.
use budge.Base.{ℕ, Bool, List}
use budge.Base.Text.{Text}
use budge.Access.Syntax.{Url}
use budge.Upstream.Header.{Field}

pub record Submission : Type 0 where
  pub service : Text
  pub method : Text
  pub path : Text
  pub query : Text
  pub headers : List Field
  pub body : Text
  pub idempotency_key : Text

pub record Snapshot : Type 0 where
  pub version : ℕ
  pub device_id : Text
  pub service_id : Text
  pub service_label : Text
  pub revision : ℕ
  pub permission_id : Text
  pub credential_ref : Text
  pub url : Url
  pub method : Text
  pub path : Text
  pub headers : List Field
  pub body : Text
  pub expires : ℕ
  pub private_cidr : Text

pub record Result : Type 0 where
  pub http_status : ℕ
  pub headers : List Field
  pub body : Text
  pub encoding : Text
  pub truncated : Bool
  pub incomplete : Bool

pub record Service : Type 0 where
  pub id : Text
  pub label : Text
  pub base_url : Text
  pub auth : Text
  pub auth_header : Text
  pub private_cidr : Text
  pub revision : ℕ
  pub credential : Text
  pub request_headers : List Text
  pub response_headers : List Text

-- The error texts that the handlers return; `sql_error` is any error of the database driver.
pub data Code : Type 0 where
  invalid_submission invalid_idempotency_key invalid_query invalid_header duplicate_header : Code
  headers_too_large header_not_allowed storage_unavailable permission_denied : Code
  idempotency_conflict invalid_target pending_limit device_revoked sql_error : Code
  invalid_decision request_digest_mismatch request_not_pending snapshot_integrity_failed : Code
  authorization_changed_or_expired request_not_found result_unavailable : Code
  not_found active_required overlapping_rule invalid_permission invalid_expiry : Code
  invalid_service invalid_credential invalid_header_list invalid_cidr : Code
  invalid_csr : Code
  -- `Error(w, status, code)`.
  http : (status : ℕ) (code : Text) → Code

-- A Go result `(value, error)`.
pub data Outcome {ℓ} (A : Type ℓ) : Type ℓ where
  ok : A → Outcome A
  err : Code → Outcome A
