-- ===== src/Orchestrator/Steps.antt =====
-- The small steps of the orchestrator: its events, its reads and writes of the store, the snapshots
-- that it records, and the binding of the input files.
use safactory_server.Base.{ℕ, String, Option, some, List, [], ◌∷◌, lookup, get_or}
use safactory_server.Json.{Json}
use safactory_server.Store.Failure.{ok}
use safactory_server.Store.Row.{ControlJob, Change, timestamp}
use safactory_server.Store.Table.{JobEvent}
use safactory_server.Store.Methods
use safactory_server.Store.Methods.{sanitize_event_payload}
use safactory_server.RJob.{state_value, RJobSnapshot}
use safactory_server.Exec.{Context, M, ◌>>=◌, transact, now}

-- `self._store.get`.
unfoldable pub get_job : Context → String → M (Option ControlJob)
get_job ctx job_id = transact ctx.env (λ s. (ok (Methods.get job_id s), s))

-- `self._store.update` at a clock reading.
unfoldable pub update_at : Context → String → ℕ → List Change → M ControlJob
update_at ctx job_id t changes = transact ctx.env (Methods.update job_id t changes)

-- `self._store.update(…, now=self._clock.now(), …)`.
unfoldable pub update_job : Context → String → List Change → M ControlJob
update_job ctx job_id changes = do t ← now ctx.env; update_at ctx job_id t changes

unfoldable pub event_of : Context → ControlJob → String → List (String × Json) → ℕ → JobEvent
event_of ctx job event_type payload t = record {
  event_job = job.job_id;
  event_type = event_type;
  event_phase = job.phase;
  payload = sanitize_event_payload ctx.lib.lower payload;
  event_created_at = timestamp t;
}

-- `_event`, without its log line.
unfoldable pub event : Context → ControlJob → String → List (String × Json) → M (Unit {0})
event ctx job event_type payload = do
  t ← now ctx.env
  transact ctx.env (Methods.add_event (event_of ctx job event_type payload t))

-- `_record_gateway_status`, without its log line.
unfoldable pub record_gateway_status : Context → ControlJob → RJobSnapshot → M ControlJob
record_gateway_status ctx job snapshot = update_job ctx job.job_id (
    Change.gateway_status (some (state_value snapshot.state))
    ∷ Change.gateway_exit_code snapshot.exit_code
    ∷ Change.gateway_failure_summary snapshot.failure_summary
    ∷ [])

-- `_record_controller_status`, without its log line.
unfoldable pub record_controller_status : Context → ControlJob → RJobSnapshot → M ControlJob
record_controller_status ctx job snapshot =
    let summary = snapshot.workload_summary in
    update_job ctx job.job_id (
      Change.safactory_status (some (state_value snapshot.state))
      ∷ Change.safactory_exit_code snapshot.exit_code
      ∷ Change.safactory_failure_summary snapshot.failure_summary
      ∷ Change.episode_total (get_or (lookup "total" summary) job.episode_total)
      ∷ Change.episode_running (get_or (lookup "running" summary) job.episode_running)
      ∷ Change.episode_succeeded (get_or (lookup "succeeded" summary) job.episode_succeeded)
      ∷ Change.episode_failed (get_or (lookup "failed" summary) job.episode_failed)
      ∷ Change.episode_collected (get_or (lookup "collected" summary) job.episode_collected)
      ∷ [])
