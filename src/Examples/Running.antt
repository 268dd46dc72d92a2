-- ===== src/Examples/Running.antt =====
-- What the tests compute.
use budge.Access.Methods.{fields, sort, collect_methods, methods}
use budge.Access.Scope.{has_method, match_path, matches, overlap_method, overlap}
use budge.Access.Syntax.{
  path_byte, plain_segment, path, token_byte, method, slug, base_ok, base, query_byte, target,
  cut_slash, route,
}
use budge.Base.Text.{
  text_eq, has_prefix, trim_slash, split, to_lower, equal_fold, contains, join, itoa,
}
use budge.Client.Connector.{caller_rejected, sent_fields_of, connect}
use budge.Client.Identity.{read_file, create_file, sealed_identity, save, load}
use budge.Client.Refresh.{rename, accepted, refresh}
use budge.Requests.Environment.{digest, submission_digest}
use budge.Requests.Normalize.{
  submission_ok, key_ok, header_ok, collect_headers, normalize, header_allowed, set_field,
  allow_headers, application_headers,
}
use budge.Server.Authorize.{
  is_active_device, active_device, enabled_service, get_service, in_force, permissions_in_force,
  first_match, authorize,
}
use budge.Server.Decide.{insert_approval, mark_decided, decide_tx}
use budge.Server.Device.{
  device_tx, forward_tx, delete_header, insert_http_event, http_audit, answered, handle_forward,
}
use budge.Server.DevicePages.{
  page_of, is_listed, before, insert_row, sort_rows, join_rows, listed_rows, services,
  handle_submit, poll_status, handle_status,
}
use budge.Server.Dispatch.{
  mark_finished, finish_tx, finish, mark_dispatching, approval_count, permission_row,
  start_dispatch, claim_tx, result_of, verdict, outcome_of,
}
use budge.Server.Enroll.{
  client_template, issue, insert_device, insert_invitation, invitation_tx, open_invitation,
  mark_used, set_certificate, record_certificate, enroll_tx, handle_enroll, renew_tx, handle_renew,
}
use budge.Server.Handler.{decode, times_of, set_times, throttle_key}
use budge.Server.Maintenance.{
  request_ids, mark_ended, end_request, end_requests, purge, drop_sessions, maintenance_tx,
  recover_tx, cancel_requests, mark_revoked, revoke_restored, device_ids, drop_all_sessions,
  recover_restored_tx,
}
use budge.Server.Owner.{
  insert_permission, add_permission_tx, mark_permission_revoked, revoke_permission_tx,
  mark_disabled, disable_service_tx, mark_device_revoked, revoke_tx,
}
use budge.Server.OwnerPages.{act, handle_owner}
use budge.Server.OwnerRequests.{get, origin_rejected, review_tx, permission_form, service_form}
use budge.Server.Services.{
  cidr, stored_credential, collect_names, header_list, insert_service, revise_service,
  service_revision, save_service, add_service_tx,
}
use budge.Server.Session.{
  hash_password, check_password, live_session, first_owner, insert_session, new_session, login_tx,
  handle_login, drop_session, logout_tx,
}
use budge.Server.Slots.{active_of, set_active, acquire, release, throttle}
use budge.Server.Snapshot.{
  request_row, credential_ref, same_columns, open_snapshot, snapshot, still_authorized, same_url,
  valid_snapshot,
}
use budge.Server.Status.{open_result, status_tx}
use budge.Server.Submit.{
  request_by_key, pending_count, insert_request, new_snapshot, new_request, create_request,
  submit_tx, submit_status,
}
use budge.Server.System.{run, after_claim, after_flight}
use budge.Server.Worker.{candidates, launch, worker_turn}
use budge.Store.Migrate.{migrate_from, migrate}
use budge.Store.Migrated.{run_all}
use budge.Store.Transaction.{
  try_query, query, exec, exec_checked, try_exec, catch, or_throw, for_each, audit, begin, commit,
  transact,
}
use budge.Store.Vault.{seal, unseal, metadata_value, new_metadata, open_vault}
use budge.Upstream.Address.{allowed_address, dial_each, dial}
use budge.Upstream.Header.{
  reserved, header_name, value_byte, header_value, canonical_key, trim_space, values, nominated,
  passes, headers_from, headers,
}
use budge.Upstream.Send.{set_header, with_credential, send}
use budge.Upstream.Stream.{stream_body, stream}
use budge.Upstream.Streamed.{body_of, has_end}

unfoldable pub running : Unit {0}
unfolding fields sort collect_methods methods has_method match_path matches overlap_method overlap
    path_byte plain_segment path token_byte method slug base_ok base query_byte target cut_slash
    route text_eq has_prefix trim_slash split to_lower equal_fold contains join itoa caller_rejected
    sent_fields_of connect read_file create_file sealed_identity save load rename accepted refresh
    digest submission_digest submission_ok key_ok header_ok collect_headers normalize header_allowed
    set_field allow_headers application_headers is_active_device active_device enabled_service
    get_service in_force permissions_in_force first_match authorize insert_approval mark_decided
    decide_tx device_tx forward_tx delete_header insert_http_event http_audit answered
    handle_forward page_of is_listed before insert_row sort_rows join_rows listed_rows services
    handle_submit poll_status handle_status mark_finished finish_tx finish mark_dispatching
    approval_count permission_row start_dispatch claim_tx result_of verdict outcome_of
    client_template issue insert_device insert_invitation invitation_tx open_invitation mark_used
    set_certificate record_certificate enroll_tx handle_enroll renew_tx handle_renew decode times_of
    set_times throttle_key request_ids mark_ended end_request end_requests purge drop_sessions
    maintenance_tx recover_tx cancel_requests mark_revoked revoke_restored device_ids
    drop_all_sessions recover_restored_tx insert_permission add_permission_tx
    mark_permission_revoked revoke_permission_tx mark_disabled disable_service_tx
    mark_device_revoked revoke_tx act handle_owner get origin_rejected review_tx permission_form
    service_form cidr stored_credential collect_names header_list insert_service revise_service
    service_revision save_service add_service_tx hash_password check_password live_session
    first_owner insert_session new_session login_tx handle_login drop_session logout_tx active_of
    set_active acquire release throttle request_row credential_ref same_columns open_snapshot
    snapshot still_authorized same_url valid_snapshot open_result status_tx request_by_key
    pending_count insert_request new_snapshot new_request create_request submit_tx submit_status run
    after_claim after_flight candidates launch worker_turn migrate_from migrate run_all try_query
    query exec exec_checked try_exec catch or_throw for_each audit begin commit transact seal unseal
    metadata_value new_metadata open_vault allowed_address dial_each dial reserved header_name
    value_byte header_value canonical_key trim_space values nominated passes headers_from headers
    set_header with_credential send stream_body stream body_of has_end
running = tt
