-- ===== src/Runtime/Sessions.antt =====
-- `list_sessions`, `get_steps` and `get_trajectory` of runtime_repository.py.
use safactory_server.Base.{String, false, Option, none, some, List, if◌then◌else◌}
use safactory_server.Json.{text, end, field}
use safactory_server.Text.{is_empty}
use safactory_server.Domain.{JobStatus, same_status}
use safactory_server.Domain.Errors.{session_not_found, step_not_found, dependency_unavailable}
use safactory_server.Domain.Entities.{JobSessions, SessionSteps, StepTrajectory}
use safactory_server.Store.Failure.{Failure, data_platform_error}
use safactory_server.Store.Row.{ControlJob, terminal}
use safactory_server.Exec.{M, pure, raise, ◌>>=◌, ◌>>◌, try_catch}
use safactory_server.Runtime.Repository.{
  Repository, ask, domain_failure, about_session, require_job, query_failure,
}

-- `job.status_reason or "JOB_EXECUTION_FAILED"`.
abbrev pub failure_code : Option String → String
failure_code none = "JOB_EXECUTION_FAILED"
failure_code (some reason) = if is_empty reason then "JOB_EXECUTION_FAILED" else reason

unfoldable pub sessions_of : Repository → String → ControlJob → List String → JobSessions
sessions_of r job_id job session_ids = record {
  job_id = job_id;
  job_status = job.status;
  session_ids = session_ids;
  retry_after_seconds = if terminal job then none else some r.retry_after_seconds;
  error =
      if same_status job.status JobStatus.failed
      then some (record {
        code = failure_code job.status_reason;
        message = "The job failed during execution.";
        details = end;
        retryable = false;
      })
      else none;
}

-- `list_sessions`, without its log line.
unfoldable pub list_sessions : Repository → String → M JobSessions
unfolding require_job query_failure sessions_of ask
list_sessions r job_id = do
  job ← require_job r job_id
  session_ids ←
      try_catch (ask (λ n. r.list_session_ids n job_id)) (query_failure r job_id "list_sessions")
  pure (sessions_of r job_id job session_ids)

unfoldable pub steps_or_missing : String → String → Option SessionSteps → M SessionSteps
unfolding domain_failure
steps_or_missing job_id session_id none =
    raise (domain_failure session_not_found (about_session job_id session_id))
steps_or_missing job_id session_id (some steps) = pure steps

-- `get_steps`, without its log line.
unfoldable pub get_steps : Repository → String → String → M SessionSteps
unfolding require_job query_failure steps_or_missing ask
get_steps r job_id session_id = do
  require_job r job_id
  result ←
      try_catch (ask (λ n. r.steps_reply n job_id session_id)) (query_failure r job_id "get_steps")
  steps_or_missing job_id session_id result

-- `except DataPlatformError` of the second query, which logs no event.
unfoldable pub unavailable : {A : Type 0} → Failure → M A
unfolding domain_failure
unavailable data_platform_error = raise (domain_failure dependency_unavailable end)
unavailable e = raise e

-- An unknown session, or a step that is absent in a known one.
unfoldable pub missing_step : String → String → String → Option SessionSteps → M StepTrajectory
unfolding domain_failure
missing_step job_id session_id step_id none =
    raise (domain_failure session_not_found (about_session job_id session_id))
missing_step job_id session_id step_id (some steps) = raise (
    domain_failure step_not_found
      (field "session_id" (text session_id) (field "step_id" (text step_id) end)))

unfoldable pub trajectory_or_missing :
    Repository → String → String → String → Option StepTrajectory → M StepTrajectory
unfolding missing_step unavailable ask
trajectory_or_missing r job_id session_id step_id (some trajectory) = pure trajectory
trajectory_or_missing r job_id session_id step_id none =
    try_catch (ask (λ n. r.steps_reply n job_id session_id)) unavailable
    >>= missing_step job_id session_id step_id

-- `get_trajectory`, without its log line.
unfoldable pub get_trajectory : Repository → String → String → String → M StepTrajectory
unfolding require_job query_failure trajectory_or_missing ask
get_trajectory r job_id session_id step_id = do
  require_job r job_id
  result ←
      try_catch (ask (λ n. r.trajectory_reply n job_id session_id step_id))
        (query_failure r job_id "get_trajectory")
  trajectory_or_missing r job_id session_id step_id result
