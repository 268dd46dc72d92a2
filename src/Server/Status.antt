-- ===== src/Server/Status.antt =====
-- internal/server/requests.go: `RequestStatus`. The owner asks with an empty device.
use budge.Base.{ℕ, Bool, true, false, ◌||◌, Option, none, some, [], ◌∷◌}
use budge.Base.Text.{Text, text_eq}
use budge.Requests.Types.{
  Result, sql_error, request_not_found, result_unavailable, Outcome, ok, err,
}
use budge.Requests.Environment.{Environment}
use budge.Store.Tables.{Status, pending_approval, queued, dispatching, outcome_unknown, RequestRow}
use budge.Store.Transaction.{Tx, ◌>>=◌, ◌>>◌, return, lift, guard, query, begin}
use budge.Server.Authorize.{active_device, or_else}
use budge.Server.Snapshot.{request_row, result_purpose}

-- What the caller is told to do next.
pub data NextAction : Type 0 where
  poll check_provider nothing : NextAction

-- `requests.Status`; the expiry stays a number, and the text of the next action a value.
pub record StatusView : Type 0 where
  pub request_id : Text
  pub status : Status
  pub expires : ℕ
  pub digest : Text
  pub reason : Text
  pub next_action : NextAction
  pub poll_after_ms : ℕ
  pub result : Option Result
  pub payload_purged : Bool

abbrev pub is_owner : Text → Bool
is_owner [] = true
is_owner (c ∷ device) = false

-- `len(snapshot) == 0`, of a column that may be NULL.
abbrev pub is_absent : Option Text → Bool
is_absent none = true
is_absent (some []) = true
is_absent (some (c ∷ s)) = false

abbrev next_action : Status → NextAction
next_action pending_approval = poll
next_action queued = poll
next_action dispatching = poll
next_action outcome_unknown = check_provider
next_action _ = nothing

abbrev poll_after : NextAction → ℕ
poll_after poll = 3000
poll_after _ = 0

abbrev decoded_result : Option Result → Outcome (Option Result)
decoded_result none = err sql_error
decoded_result (some r) = ok (some r)

abbrev unsealed_result : Environment → Option Text → Outcome (Option Result)
unsealed_result env none = err result_unavailable
unsealed_result env (some b) = decoded_result (env.unmarshal_result b)

-- The result that the row holds, opened.
unfoldable pub open_result : Environment → Text → Option Text → Outcome (Option Result)
open_result env id none = ok none
open_result env id (some []) = ok none
open_result env id (some (c ∷ s)) = unsealed_result env (env.unseal (result_purpose id) (c ∷ s))

abbrev pub status_view : RequestRow → Option Result → StatusView
status_view row result = record {
  request_id = row.id;
  status = row.status;
  expires = row.expires;
  digest = row.snapshot_digest;
  reason = row.reason;
  next_action = next_action row.status;
  poll_after_ms = poll_after (next_action row.status);
  result = result;
  payload_purged = is_absent row.snapshot;
}

-- `device != "" && !ActiveDevice(tx, device)`.
abbrev pub check_device : Text → Tx (Unit {0})
check_device [] = return tt
check_device (c ∷ device) = do active ← active_device (c ∷ device); guard active request_not_found

-- The transaction only reads; it is rolled back.
unfoldable pub status_tx : Environment → Text → Text → Tx StatusView
unfolding open_result
status_tx env device id = do
  begin sql_error
  check_device device
  found ← query request_not_found (request_row id)
  row ← lift (or_else request_not_found found)
  guard (is_owner device || text_eq row.device_id device) request_not_found
  result ← lift (open_result env id row.result)
  return (status_view row result)
