-- ===== src/Orchestrator/Reconcile/Binding.antt =====
-- `_bind_files` of orchestrator.py, and the tests of a timeout at a clock reading.
use safactory_server.Base.{String, Option, none, some, List, [], ◌∷◌, Bool, if◌then◌else◌, length}
use safactory_server.Domain.{JobStatus, same_status}
use safactory_server.Json.{count}
use safactory_server.Store.Failure.{runtime_error, file_binding_error, Outcome, ok, raised}
use safactory_server.Store.Row.{ControlJob, Change}
use safactory_server.Files.{JobFileBinding}
use safactory_server.Files.Text.{to_json}
use safactory_server.Exec.{Context, M, pure, raise, ◌>>=◌, ◌>>◌, now, call, bind_files}
use safactory_server.Orchestrator.Checks.{timed_out, controller_timed_out}
use safactory_server.Orchestrator.Steps.{get_job, update_job, event}
use safactory_server.Orchestrator.Cleanup.{fail}

abbrev pub is_closing : ControlJob → Bool
is_closing job = same_status job.status JobStatus.closing

-- `self._timed_out(job, settings.gateway_ready_timeout_seconds)`, at a clock reading.
unfoldable pub gateway_late : Context → ControlJob → M Bool
gateway_late ctx job = do
  t ← now ctx.env
  pure (timed_out t job ctx.settings.gateway_ready_timeout_seconds)

unfoldable pub controller_late : Context → ControlJob → M Bool
controller_late ctx job = do t ← now ctx.env; pure (controller_timed_out ctx.settings t job)

-- `if late: await self._fail(…)`.
unfoldable pub fail_if : Context → ControlJob → Bool → String → M (Unit {0})
fail_if ctx job late reason = if late then fail ctx job.job_id reason else pure tt

abbrev preparing_changes : List Change
preparing_changes = Change.status JobStatus.preparing ∷ Change.phase "resolving_job_files" ∷ []

unfoldable pub bound_changes : Context → JobFileBinding → List Change
unfolding to_json
bound_changes ctx binding =
    Change.binding_json (some (to_json ctx.lib.codec binding))
    ∷ Change.episode_total binding.total_episodes
    ∷ Change.phase "submitting_gateway_rjob"
    ∷ []

unfoldable pub found_or_gone : Option ControlJob → M ControlJob
found_or_gone none = raise runtime_error
found_or_gone (some job) = pure job

-- The two ways out of the `try` of `_bind_files`.
unfoldable pub files_bound : Context → ControlJob → Outcome JobFileBinding → M ControlJob
unfolding bound_changes found_or_gone
files_bound ctx job (ok binding) = do
  bound ← update_job ctx job.job_id (bound_changes ctx binding)
  event ctx bound "job_files_bound" (
      ("environment_groups", count (length binding.groups))
      ∷ ("episodes", count binding.total_episodes)
      ∷ [])
  pure bound
files_bound ctx job (raised file_binding_error) = do
  fail ctx job.job_id "FILE_BINDING_FAILED"
  failed ← get_job ctx job.job_id
  found_or_gone failed
files_bound ctx job (raised e) = raise e

-- `_bind_files`.
unfoldable pub bind_job_files : Context → ControlJob → M ControlJob
unfolding files_bound
bind_job_files ctx job = do
  preparing ← update_job ctx job.job_id preparing_changes
  reply ←
      call (bind_files preparing.job_id preparing.range_id)
        (λ n. ok (ctx.env.bind_reply n preparing.job_id preparing.range_id))
  files_bound ctx preparing reply
