-- ===== src/Examples/Open.antt =====
-- The loop with every definition open, for the tests.
use safactory_server.Base.{ℕ}
use safactory_server.Exec.{Context, World}
use safactory_server.Base.{select, all, insert_by, insert_all, order_by, lookup}
use safactory_server.Text.{count_chars, take, lstrip, rstrip, strip, all_chars, split}
use safactory_server.Domain.Errors.{error_specs, new_domain_error}
use safactory_server.RJob.{state_value, join, gateway_command}
use safactory_server.Store.Row.{
  has_unsupported, requested_status, pop_phase, assign, assign_all, new_control_job,
}
use safactory_server.Store.Table.{find_row, rowcount, write_rows, clashes_any, breaks_unique}
use safactory_server.Store.Methods.{
  get, add, list_active, list_cleanup_pending, reread, write, admit, updated, update_current,
  update, closing_row, with_flag, request_close, is_denied, sanitize_event_payload, add_event,
  events,
}
use safactory_server.Exec.{
  interfere, interfere_all, pure, raise, continue, ◌>>=◌, recover, try_catch, lift, for_each,
  settle, transact, now, call,
}
use safactory_server.Orchestrator.Names.{
  replace_runs, safe_rjob_name, append_url_path, url_host, gateway_url_of, put, merge,
}
use safactory_server.Orchestrator.Checks.{
  last_char_is, is_label, is_hostname, is_route_address, is_route_host, is_route, gateway_has_route,
  results_complete, timed_out, started_timed_out, controller_timed_out,
}
use safactory_server.Orchestrator.Config.{
  as_object, json_object, texts, as_string_list, json_string_list, string_environment_from,
  string_environment, get_field, truthy_text, has_missing, has_placeholder, cloud_values_valid,
  validate_cloud_environment,
}
use safactory_server.Orchestrator.Steps.{
  get_job, update_at, update_job, event_of, event, record_gateway_status, record_controller_status,
}
use safactory_server.Orchestrator.Submit.{stored_model, create, text_or}
use safactory_server.Orchestrator.Submit.{
  gateway_environment, gateway_spec, gateway_submitted, submit_gateway,
}
use safactory_server.Orchestrator.Submit.{
  launcher_options, launcher_command, controller_environment, controller_spec, controller_submitted,
  controller_kept, keep_rjob_id, submit_controller, with_gateway_url, submit_safactory,
}
use safactory_server.Orchestrator.Cleanup.{
  stop, skip_cleanup, when_id, stop_controller, stop_gateway, stop_rjobs, cleanup_changes,
  finish_cleanup, retry_later, release, cleanup_row, cleanup_found, cleanup, failed_changes,
  give_way, mark_failed, cleanup_failed, fail_found, fail,
}
use safactory_server.Orchestrator.Reconcile.{
  gateway_late, controller_late, fail_if, bound_changes, found_or_gone, files_bound, bind_job_files,
}
use safactory_server.Orchestrator.Reconcile.{
  succeeded_changes, conclude, judge_controller, rjob_snapshot, snapshot_of, watch_controller,
  run_controller,
}
use safactory_server.Orchestrator.Reconcile.{
  gateway_ready_changes, reread_and_run, fix_gateway_url, await_gateway, after_health, check_health,
  await_route, judge_gateway, watch_gateway, run_gateway, stored_binding, reconcile_bound,
}
use safactory_server.Orchestrator.Reconcile.{
  reconcile, dependency_late, dependency_failed, handle_failure, reconcile_guarded, reconcile_once,
  run_rounds,
}

unfoldable pub state_after : Context → ℕ → World → World
unfolding select all insert_by insert_all order_by lookup count_chars take lstrip rstrip strip
    all_chars split error_specs new_domain_error state_value join gateway_command has_unsupported
    requested_status pop_phase assign assign_all new_control_job find_row rowcount write_rows
    clashes_any breaks_unique get add list_active list_cleanup_pending reread write admit updated
    update_current update closing_row with_flag request_close is_denied sanitize_event_payload
    add_event events interfere interfere_all pure raise continue ◌>>=◌ recover try_catch lift
    for_each settle transact now call replace_runs safe_rjob_name append_url_path url_host
    gateway_url_of put merge last_char_is is_label is_hostname is_route_address is_route_host
    is_route gateway_has_route results_complete timed_out started_timed_out controller_timed_out
    as_object json_object texts as_string_list json_string_list string_environment_from
    string_environment get_field truthy_text has_missing has_placeholder cloud_values_valid
    validate_cloud_environment get_job update_at update_job event_of event record_gateway_status
    record_controller_status stored_model create text_or gateway_environment gateway_spec
    gateway_submitted submit_gateway launcher_options launcher_command controller_environment
    controller_spec controller_submitted controller_kept keep_rjob_id submit_controller
    with_gateway_url submit_safactory stop skip_cleanup when_id stop_controller stop_gateway
    stop_rjobs cleanup_changes finish_cleanup retry_later release cleanup_row cleanup_found cleanup
    failed_changes give_way mark_failed cleanup_failed fail_found fail gateway_late controller_late
    fail_if bound_changes found_or_gone files_bound bind_job_files succeeded_changes conclude
    judge_controller rjob_snapshot snapshot_of watch_controller run_controller gateway_ready_changes
    reread_and_run fix_gateway_url await_gateway after_health check_health await_route judge_gateway
    watch_gateway run_gateway stored_binding reconcile_bound reconcile dependency_late
    dependency_failed handle_failure reconcile_guarded reconcile_once run_rounds
state_after ctx n w = (run_rounds ctx n w).1
