-- ===== src/Runtime/Repository.antt =====
-- What a `RealRuntimeRepository` of runtime_repository.py is made with, the caller of one request,
-- and the steps that its operations share. The data platform, the catalog and the identifiers are
-- functions of the counter, as the other replies are.
use safactory_server.Base.{
  ℕ, ◌+◌, String, Bool, true, false, Option, none, some, List, [], ◌∷◌, not, same_text,
  if◌then◌else◌,
}
use safactory_server.Json.{Json, text, Fields, end, field}
use safactory_server.Domain.Errors.{
  ErrorCode, job_not_found, dependency_unavailable, new_domain_error,
}
use safactory_server.Domain.Entities.{SessionResult, SessionSteps, StepTrajectory}
use safactory_server.Store.Failure.{Failure, data_platform_error, domain_error, Outcome}
use safactory_server.Store.Row.{ControlJob, timestamp}
use safactory_server.Store.Methods
use safactory_server.Store.Methods.{sanitize_event_payload}
use safactory_server.Exec.{Context, M, pure, raise, ◌>>=◌, ◌>>◌, transact, now}
use safactory_server.Catalog.{RealCatalog}
use safactory_server.Runtime.Artifacts.{FileSystem}
use safactory_server.Orchestrator.Steps.{get_job}

pub record Repository : Type 0 where
  pub ctx : Context
  pub username : Option String
  pub request_id : Option String
  pub gateway_image : String
  pub safactory_image : String
  pub retry_after_seconds : ℕ
  pub new_id : ℕ → String
  pub catalog : RealCatalog
  pub list_session_ids : ℕ → String → Outcome (List String)
  pub result_reply : ℕ → String → String → Outcome (Option SessionResult)
  pub files : ℕ → FileSystem
  pub steps_reply : ℕ → String → String → Outcome (Option SessionSteps)
  pub trajectory_reply : ℕ → String → String → String → Outcome (Option StepTrajectory)

-- A read of the catalog, the identifiers or the data platform. What other tasks do meanwhile comes
-- before the next transaction.
unfoldable pub ask : {A : Type 0} → (ℕ → Outcome A) → M A
ask reply w = (reply w.tick, record w { tick = w.tick + 1 })

-- `raise DomainError(code, details)`.
unfoldable pub domain_failure : ErrorCode → Fields → Failure
unfolding new_domain_error
domain_failure code details = domain_error (new_domain_error code details none)

abbrev pub about_job : String → Fields
about_job job_id = field "job_id" (text job_id) end

abbrev pub about_session : String → String → Fields
about_session job_id session_id =
    field "job_id" (text job_id) (field "session_id" (text session_id) end)

-- `job is None or (username is not None and job.owner_username != username)`.
unfoldable pub is_hidden_from : Option String → Option ControlJob → Bool
is_hidden_from username none = true
is_hidden_from none (some job) = false
is_hidden_from (some name) (some job) = not (same_text job.owner_username name)

unfoldable pub found_job : Repository → String → Option ControlJob → M ControlJob
unfolding is_hidden_from domain_failure
found_job r job_id none = raise (domain_failure job_not_found (about_job job_id))
found_job r job_id (some job) =
    if is_hidden_from r.username (some job)
    then raise (domain_failure job_not_found (about_job job_id))
    else pure job

-- `_require_job`.
unfoldable pub require_job : Repository → String → M ControlJob
unfolding found_job get_job
require_job r job_id = get_job r.ctx job_id >>= found_job r job_id

unfoldable pub log_event_at :
    Repository → String → String → String → ℕ → List (String × Json) → M (Unit {0})
log_event_at r job_id kind phase t payload = transact r.ctx.env (
    Methods.add_event (record {
      event_job = job_id;
      event_type = kind;
      event_phase = phase;
      payload = sanitize_event_payload r.ctx.lib.lower payload;
      event_created_at = timestamp t;
    }))

abbrev pub phase_of : Option ControlJob → String
phase_of none = "unknown"
phase_of (some job) = job.phase

-- `_query_failed`.
unfoldable pub query_failed : Repository → String → String → M (Unit {0})
unfolding log_event_at
query_failed r job_id operation = do
  job ← get_job r.ctx job_id
  t ← now r.ctx.env
  log_event_at r job_id "data_platform_query_failed" (phase_of job) t
      (("operation", text operation) ∷ [])

-- `except DataPlatformError as exc`: the event, then the exception for the API.
unfoldable pub query_failure : {A : Type 0} → Repository → String → String → Failure → M A
unfolding query_failed domain_failure
query_failure r job_id operation data_platform_error =
    query_failed r job_id operation >> raise (domain_failure dependency_unavailable end)
query_failure r job_id operation e = raise e
