-- ===== src/Runtime/Reports.antt =====
-- `get_result` and `get_milestones` of runtime_repository.py, without their log lines.
use safactory_server.Base.{
  ℕ, String, Bool, true, false, not, ◌&&◌, Option, none, some, List, [], ◌∷◌, all, if◌then◌else◌,
  is_some,
}
use safactory_server.Json.{text, array, nil, cons, Fields, end, field}
use safactory_server.Domain.{ResultStatus, MilestoneStatus}
use safactory_server.Domain.Errors.{
  ErrorCode, invalid_request, session_not_found, dependency_unavailable, milestones_not_found,
  milestones_not_supported, milestones_unavailable,
}
use safactory_server.Domain.Entities.{SessionResult, SessionMilestones}
use safactory_server.Store.Failure.{
  Failure, key_error, type_error, file_binding_error, artifact_error, json_decode_error, Outcome,
  ok, raised,
}
use safactory_server.Store.Row.{ControlJob, terminal}
use safactory_server.Files.{JobFileBinding}
use safactory_server.Files.Text.{from_json}
use safactory_server.Exec.{M, pure, raise, ◌>>=◌, ◌>>◌, try_catch}
use safactory_server.Catalog.{RangeConfig, RangeGroupConfig, resolve_range}
use safactory_server.Platform.Sessions.{is_among}
use safactory_server.Runtime.Repository.{
  Repository, ask, domain_failure, about_session, require_job, query_failure,
}
use safactory_server.Runtime.Jobs.{untrusted}
use safactory_server.Runtime.Results.{is_open, reconcile_result}
use safactory_server.Runtime.Artifacts.{
  FileSystem, read_result_artifact, read_milestone_snapshot, is_safe_name,
}

unfoldable pub result_or_missing : String → String → Option SessionResult → M SessionResult
unfolding domain_failure
result_or_missing job_id session_id none =
    raise (domain_failure session_not_found (about_session job_id session_id))
result_or_missing job_id session_id (some result) = pure result

-- The range of a job, as the catalog has it now.
unfoldable pub job_range : Repository → ControlJob → M (Option RangeConfig)
unfolding ask resolve_range untrusted
job_range r job = try_catch (ask (λ n. resolve_range r.catalog n job.range_id)) untrusted

-- `range_config.groups[0].result_artifact` of a range that has one group.
unfoldable pub first_artifact : List RangeGroupConfig → M (Option String)
unfolding domain_failure
first_artifact [] = raise (domain_failure dependency_unavailable end)
first_artifact (group ∷ []) = pure group.result_artifact
first_artifact (group ∷ other ∷ groups) = raise (domain_failure dependency_unavailable end)

unfoldable pub only_artifact : Option RangeConfig → M (Option String)
unfolding domain_failure first_artifact
only_artifact none = raise (domain_failure dependency_unavailable end)
only_artifact (some range_config) = first_artifact range_config.groups

unfoldable pub check_session_name : String → M (Unit {0})
unfolding is_safe_name domain_failure
check_session_name session_id =
    if not (is_safe_name session_id)
    then raise
        (domain_failure invalid_request (field "fields" (array (cons (text "session_id") nil)) end))
    else pure tt

unfoldable pub read_below :
    (String → Outcome (Option Fields)) → Outcome JobFileBinding → Outcome (Option Fields)
read_below read (raised e) = raised e
read_below read (ok binding) = read binding.result_local_path

-- A read below the results of the binding of the job, where it has one.
unfoldable pub read_bound :
    Repository → ControlJob → (FileSystem → String → Outcome (Option Fields)) → M (Option Fields)
unfolding ask read_below from_json
read_bound r job read = elim (job.binding_json) [
  | none ↦ pure none
  | some raw ↦ ask (λ n. read_below (read (r.files n)) (from_json r.ctx.lib.codec raw))
]

-- The `except` clause of both reads.
unfoldable pub unreadable : ErrorCode → String → String → Failure → M (Option Fields)
unfolding domain_failure
unreadable code job_id session_id file_binding_error =
    raise (domain_failure code (about_session job_id session_id))
unreadable code job_id session_id json_decode_error =
    raise (domain_failure code (about_session job_id session_id))
unreadable code job_id session_id key_error =
    raise (domain_failure code (about_session job_id session_id))
unreadable code job_id session_id artifact_error =
    raise (domain_failure code (about_session job_id session_id))
unreadable code job_id session_id type_error =
    raise (domain_failure code (about_session job_id session_id))
unreadable code job_id session_id e = raise e

abbrev pub has_succeeded : ResultStatus → Bool
has_succeeded ResultStatus.succeeded = true
has_succeeded ResultStatus.pending = false
has_succeeded ResultStatus.running = false
has_succeeded ResultStatus.failed = false

unfoldable pub with_payload : String → String → SessionResult → Option Fields → M SessionResult
unfolding domain_failure
with_payload job_id session_id result payload =
    if not (is_some payload) && has_succeeded result.result_status
    then raise (domain_failure dependency_unavailable (about_session job_id session_id))
    else pure (record result { result = payload })

-- The part of `get_result` on the file that the range names.
unfoldable pub with_artifact :
    Repository → ControlJob → String → String → SessionResult → Option String → M SessionResult
unfolding check_session_name read_bound read_result_artifact unreadable with_payload
with_artifact r job job_id session_id result none = pure result
with_artifact r job job_id session_id result (some artifact_name) = do
  check_session_name session_id
  payload ←
      try_catch
        (read_bound r job
          (λ files root. read_result_artifact files root job_id session_id artifact_name))
        (unreadable dependency_unavailable job_id session_id)
  with_payload job_id session_id result payload

unfoldable pub with_retry : ℕ → SessionResult → SessionResult
with_retry seconds result =
    if is_open result.result_status
    then record result { retry_after_seconds = some seconds }
    else result

-- `get_result`.
unfoldable pub get_result : Repository → String → String → M SessionResult
unfolding require_job query_failure result_or_missing job_range only_artifact with_artifact
    with_retry reconcile_result ask
get_result r job_id session_id = do
  job ← require_job r job_id
  reply ←
      try_catch (ask (λ n. r.result_reply n job_id session_id))
        (query_failure r job_id "get_result")
  result ← result_or_missing job_id session_id reply
  range_config ← job_range r job
  artifact_name ← only_artifact range_config
  report ← with_artifact r job job_id session_id (reconcile_result result job.status) artifact_name
  pure (with_retry r.retry_after_seconds report)

unfoldable pub check_supported : String → String → Option RangeConfig → M (Unit {0})
unfolding domain_failure all
check_supported job_id session_id none = raise (domain_failure dependency_unavailable end)
check_supported job_id session_id (some range_config) =
    if not (all (λ g. g.supports_milestones) range_config.groups)
    then raise (domain_failure milestones_not_supported (about_session job_id session_id))
    else pure tt

-- The answer where no snapshot is there yet.
unfoldable pub without_snapshot :
    Repository → ControlJob → String → String → List String → M SessionMilestones
unfolding domain_failure is_among
without_snapshot r job job_id session_id session_ids =
    if not (is_among session_id session_ids)
    then raise (domain_failure session_not_found (about_session job_id session_id))
    else if terminal job
    then raise (domain_failure milestones_not_found (about_session job_id session_id))
    else pure (record {
      job_id = job_id;
      session_id = session_id;
      milestone_status = MilestoneStatus.pending;
      snapshot = none;
      retry_after_seconds = some r.retry_after_seconds;
    })

unfoldable pub snapshot_or_pending :
    Repository → ControlJob → String → String → Option Fields → M SessionMilestones
unfolding ask query_failure without_snapshot
snapshot_or_pending r job job_id session_id (some snapshot) = pure (record {
  job_id = job_id;
  session_id = session_id;
  milestone_status = MilestoneStatus.available;
  snapshot = some snapshot;
  retry_after_seconds = none;
})
snapshot_or_pending r job job_id session_id none = do
  session_ids ←
      try_catch (ask (λ n. r.list_session_ids n job_id)) (query_failure r job_id "get_milestones")
  without_snapshot r job job_id session_id session_ids

-- `get_milestones`.
unfoldable pub get_milestones : Repository → String → String → M SessionMilestones
unfolding require_job job_range check_supported check_session_name read_bound
    read_milestone_snapshot unreadable snapshot_or_pending
get_milestones r job_id session_id = do
  job ← require_job r job_id
  range_config ← job_range r job
  check_supported job_id session_id range_config
  check_session_name session_id
  snapshot ←
      try_catch
        (read_bound r job (λ files root. read_milestone_snapshot files root job_id session_id))
        (unreadable milestones_unavailable job_id session_id)
  snapshot_or_pending r job job_id session_id snapshot
