-- ===== src/Runtime/Jobs.antt =====
-- `create_job` and `close_job` of runtime_repository.py.
use safactory_server.Base.{
  ℕ, String, Bool, true, false, Option, none, some, [], ◌∷◌, not, get_or, if◌then◌else◌, is_some,
}
use safactory_server.Json.{text, end}
use safactory_server.Domain.{JobStatus, same_status}
use safactory_server.Domain.Errors.{job_not_found, dependency_unavailable}
use safactory_server.Domain.Entities.{CreatedJob, CloseJobResult}
use safactory_server.Store.Failure.{Failure, key_error, sqlite_error, trusted_config_error, Outcome}
use safactory_server.Store.Row.{ControlJob, new_control_job, parse_timestamp}
use safactory_server.Store.Methods
use safactory_server.Exec.{M, pure, raise, ◌>>=◌, ◌>>◌, try_catch, transact, now}
use safactory_server.Catalog.{
  ModelConfig, RangeConfig, resolve_model, resolve_range, model_checksum,
}
use safactory_server.Runtime.Repository.{
  Repository, ask, domain_failure, about_job, require_job, log_event_at,
}

-- What the catalog says of the model and the range, and the checksum of the models.
pub record Resolved : Type 0 where
  pub model : Option ModelConfig
  pub range_config : Option RangeConfig
  pub checksum : String

unfoldable pub resolve : Repository → String → String → M Resolved
unfolding ask resolve_model resolve_range model_checksum
resolve r model_id range_id = do
  model ← ask (λ n. resolve_model r.catalog model_id)
  range_config ← ask (λ n. resolve_range r.catalog n range_id)
  pure (record { model = model; range_config = range_config; checksum = model_checksum r.catalog })

-- `except TrustedConfigError`.
unfoldable pub untrusted : {A : Type 0} → Failure → M A
unfolding domain_failure
untrusted trusted_config_error = raise (domain_failure dependency_unavailable end)
untrusted e = raise e

unfoldable pub insert_job : Repository → String → String → String → String → M CreatedJob
unfolding log_event_at ask
insert_job r model_id range_id gateway_json checksum = do
  job_id ← ask (λ n. Outcome.ok (r.new_id n))
  t ← now r.ctx.env
  let job = new_control_job (record {
    job_id = job_id;
    request_id = get_or r.request_id "req_internal";
    owner_username = get_or r.username "system";
    model_id = model_id;
    model_checksum = checksum;
    model_gateway_json = gateway_json;
    range_id = range_id;
    gateway_image = r.gateway_image;
    safactory_image = r.safactory_image;
    now = t;
  })
  transact r.ctx.env (Methods.add job)
  log_event_at r job_id "job_created" job.phase t (("model_id", text model_id) ∷ [])
  pure (record {
    job_id = job_id;
    status = JobStatus.queued;
    model_id = model_id;
    range_id = range_id;
    created_at = t;
  })

unfoldable pub insert_resolved : Repository → String → String → Resolved → M CreatedJob
unfolding insert_job domain_failure
insert_resolved r model_id range_id found = elim (found.model) [
  | none ↦ raise (domain_failure dependency_unavailable end)
  | some model ↦
      if not (is_some found.range_config)
      then raise (domain_failure dependency_unavailable end)
      else insert_job r model_id range_id (r.catalog.dump_gateway model.gateway) found.checksum
]

-- `create_job`.
unfoldable pub create_job : Repository → String → String → M CreatedJob
unfolding resolve untrusted insert_resolved
create_job r model_id range_id =
    try_catch (resolve r model_id range_id) untrusted >>= insert_resolved r model_id range_id

unfoldable pub close_requested : Repository → String → ℕ → ControlJob × Bool → M ControlJob
unfolding log_event_at
close_requested r job_id t (job, true) =
    log_event_at r job_id "job_close_requested" job.phase t
      (("requested_by", text (get_or r.username "system")) ∷ [])
    >> pure job
close_requested r job_id t (job, false) = pure job

-- The `except` clauses of `close_job`.
unfoldable pub close_refused : String → Failure → M ControlJob
unfolding domain_failure
close_refused job_id key_error = raise (domain_failure job_not_found (about_job job_id))
close_refused job_id sqlite_error = raise (domain_failure dependency_unavailable end)
close_refused job_id e = raise e

unfoldable pub close_row : Repository → String → ℕ → M ControlJob
unfolding require_job close_requested
close_row r job_id t = do
  require_job r job_id
  closed ← transact r.ctx.env (Methods.request_close job_id t)
  close_requested r job_id t closed

unfoldable pub close_result : ℕ → ControlJob → CloseJobResult
close_result retry_after job = record {
  job_id = job.job_id;
  job_status = job.status;
  updated_at = parse_timestamp job.updated_at;
  retry_after_seconds = if same_status job.status JobStatus.closing then some retry_after else none;
}

-- `close_job`.
unfoldable pub close_job : Repository → String → M CloseJobResult
unfolding close_row close_refused close_result
close_job r job_id = do
  t ← now r.ctx.env
  job ← try_catch (close_row r job_id t) (close_refused job_id)
  pure (close_result r.retry_after_seconds job)
