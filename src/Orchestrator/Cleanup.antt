-- ===== src/Orchestrator/Cleanup.antt =====
-- `_fail` and `_cleanup` of orchestrator.py.
use safactory_server.Base.{
  ℕ, String, Option, none, some, List, [], ◌∷◌, Bool, true, false, not, ◌&&◌, ◌||◌, if◌then◌else◌,
}
use safactory_server.Domain.{JobStatus, same_status}
use safactory_server.Json.{Json, text, null}
use safactory_server.Store.Failure.{Failure, rjob_dependency_error, job_state_conflict}
use safactory_server.Store.Row.{ControlJob, Change, timestamp}
use safactory_server.Text.{is_empty}
use safactory_server.Exec.{Context, M, pure, raise, ◌>>=◌, ◌>>◌, try_catch, now, call, stop_rjob}
use safactory_server.Orchestrator.Steps.{get_job, update_at, update_job, event}

abbrev optional_text : Option String → Json
optional_text none = null
optional_text (some t) = text t

-- `self._rjobs.stop`.
unfoldable pub stop : Context → String → M (Unit {0})
stop ctx rjob_id = call (stop_rjob rjob_id) (λ n. ctx.env.stop_reply n rjob_id)

-- The part of `_cleanup` under `settings.keep_rjobs`.
unfoldable pub skip_cleanup : Context → ControlJob → M (Unit {0})
skip_cleanup ctx job = do
  update_job ctx job.job_id (Change.cleanup_requested 0 ∷ [])
  event ctx job "rjob_cleanup_skipped" (
      ("reason", text "SAFACTORY_KEEP_RJOBS")
      ∷ ("gateway_rjob_id", optional_text job.gateway_rjob_id)
      ∷ ("safactory_rjob_id", optional_text job.safactory_rjob_id)
      ∷ [])

-- `if rjob_id:`, for an optional text.
unfoldable pub when_id : Option String → (String → M (Unit {0})) → M (Unit {0})
when_id none f = pure tt
when_id (some rjob_id) f = if is_empty rjob_id then pure tt else f rjob_id

unfoldable pub stop_controller : Context → ControlJob → String → M (Unit {0})
stop_controller ctx job rjob_id = do
  event ctx job "episode_cleanup_requested" []
  stop ctx rjob_id
  event ctx job "safactory_rjob_deleted" []

unfoldable pub stop_gateway : Context → ControlJob → String → M (Unit {0})
stop_gateway ctx job rjob_id = do stop ctx rjob_id; event ctx job "gateway_rjob_deleted" []

-- The `try` of `_cleanup`: the controller goes first.
unfoldable pub stop_rjobs : Context → ControlJob → M (Unit {0})
unfolding when_id stop_controller stop_gateway stop
stop_rjobs ctx job = do
  when_id job.safactory_rjob_id (stop_controller ctx job)
  when_id job.gateway_rjob_id (stop_gateway ctx job)

unfoldable pub cleanup_changes : Bool → ℕ → List Change
cleanup_changes true t =
    Change.cleanup_requested 0
    ∷ Change.status JobStatus.closed
    ∷ Change.phase "completed"
    ∷ Change.completed_at (some (timestamp t))
    ∷ Change.status_reason none
    ∷ []
cleanup_changes false t = Change.cleanup_requested 0 ∷ []

-- The end of `_cleanup`, behind its `try`.
unfoldable pub finish_cleanup : Context → ControlJob → Bool → M (Unit {0})
unfolding cleanup_changes
finish_cleanup ctx job closing = do
  t ← now ctx.env
  done ← update_at ctx job.job_id t (cleanup_changes closing t)
  event ctx done "cleanup_completed" []
  if closing then event ctx done "job_closed" [] else pure tt

-- `except RJobDependencyError: return`; any other exception goes on.
unfoldable pub retry_later : Failure → M Bool
retry_later rjob_dependency_error = pure false
retry_later e = raise e

unfoldable pub release : Context → ControlJob → Bool → M (Unit {0})
unfolding stop_rjobs finish_cleanup retry_later
release ctx job closing = do
  stopped ← try_catch (stop_rjobs ctx job >> pure true) retry_later
  if stopped then finish_cleanup ctx job closing else pure tt

-- `_cleanup`, from the row that it reads again.
unfoldable pub cleanup_row : Context → ControlJob → M (Unit {0})
unfolding skip_cleanup release
cleanup_row ctx job =
    let closing = same_status job.status JobStatus.closing in
    if ctx.settings.keep_rjobs && not closing then skip_cleanup ctx job else release ctx job closing

unfoldable pub cleanup_found : Context → Option ControlJob → M (Unit {0})
unfolding cleanup_row
cleanup_found ctx none = pure tt
cleanup_found ctx (some job) = cleanup_row ctx job

-- `_cleanup`.
unfoldable pub cleanup : Context → ControlJob → M (Unit {0})
unfolding cleanup_found
cleanup ctx job = do latest ← get_job ctx job.job_id; cleanup_found ctx latest

unfoldable pub failed_changes : String → ℕ → List Change
failed_changes reason t =
    Change.status JobStatus.failed
    ∷ Change.phase "cleaning_rjobs"
    ∷ Change.status_reason (some reason)
    ∷ Change.completed_at (some (timestamp t))
    ∷ Change.cleanup_requested 1
    ∷ []

-- `except JobStateConflict: return` in `_fail`.
unfoldable pub give_way : Failure → M (Option ControlJob)
give_way job_state_conflict = pure none
give_way e = raise e

unfoldable pub mark_failed : Context → String → String → M (Option ControlJob)
unfolding failed_changes give_way
mark_failed ctx job_id reason = do
  t ← now ctx.env
  try_catch (update_at ctx job_id t (failed_changes reason t) >>= λ job. pure (some job)) give_way

unfoldable pub cleanup_failed : Context → String → Option ControlJob → M (Unit {0})
cleanup_failed ctx reason none = pure tt
cleanup_failed ctx reason (some job) = do
  event ctx job "job_failed" (("reason", text reason) ∷ [])
  cleanup ctx job

-- The statuses in which `_fail` does nothing.
abbrev pub is_settled : JobStatus → Bool
is_settled s =
    same_status s JobStatus.succeeded
    || (same_status s JobStatus.closing || same_status s JobStatus.closed)

unfoldable pub fail_found : Context → String → String → Option ControlJob → M (Unit {0})
unfolding cleanup_failed mark_failed
fail_found ctx job_id reason none = pure tt
fail_found ctx job_id reason (some job) =
    if is_settled job.status
    then pure tt
    else if not (same_status job.status JobStatus.failed)
    then mark_failed ctx job_id reason >>= cleanup_failed ctx reason
    else cleanup ctx job

-- `_fail`.
unfoldable pub fail : Context → String → String → M (Unit {0})
unfolding fail_found
fail ctx job_id reason = do found ← get_job ctx job_id; fail_found ctx job_id reason found
