-- ===== src/Orchestrator/Reconcile/Controller.antt =====
-- The end of `_reconcile` of orchestrator.py: the controller is submitted, watched and judged.
use safactory_server.Base.{
  ℕ, String, Option, none, some, is_some, List, [], ◌∷◌, not, ◌||◌, if◌then◌else◌,
}
use safactory_server.Domain.{JobStatus}
use safactory_server.Store.Failure.{rjob_dependency_error}
use safactory_server.Store.Row.{ControlJob, Change, timestamp}
use safactory_server.RJob.{RJobState, same_state, RJobSnapshot}
use safactory_server.Files.{JobFileBinding}
use safactory_server.Exec.{Context, M, pure, raise, ◌>>=◌, now, call, get_rjob}
use safactory_server.Orchestrator.Checks.{results_complete}
use safactory_server.Orchestrator.Steps.{update_at, event, record_controller_status}
use safactory_server.Orchestrator.Submit.{submit_safactory}
use safactory_server.Orchestrator.Cleanup.{fail}
use safactory_server.Orchestrator.Reconcile.Binding.{controller_late, is_closing}

unfoldable pub succeeded_changes : ℕ → List Change
succeeded_changes t =
    Change.status JobStatus.succeeded
    ∷ Change.phase "completed"
    ∷ Change.completed_at (some (timestamp t))
    ∷ Change.cleanup_requested 1
    ∷ []

-- The branch of a controller that has succeeded.
unfoldable pub conclude : Context → ControlJob → JobFileBinding → RJobSnapshot → M (Unit {0})
unfolding succeeded_changes
conclude ctx job binding controller =
    if not (results_complete binding controller)
    then fail ctx job.job_id "EPISODE_RESULTS_INCOMPLETE"
    else do
      t ← now ctx.env
      done ← update_at ctx job.job_id t (succeeded_changes t)
      event ctx done "job_succeeded" []

-- From the recorded controller snapshot on.
unfoldable pub judge_controller :
    Context → ControlJob → JobFileBinding → RJobSnapshot → M (Unit {0})
unfolding conclude
judge_controller ctx job binding controller =
    if is_closing job
    then pure tt
    else if same_state controller.state RJobState.succeeded
    then conclude ctx job binding controller
    else if same_state controller.state RJobState.failed
        || same_state controller.state RJobState.cancelled
    then fail ctx job.job_id "SAFACTORY_RJOB_FAILED"
    else do
      late ← controller_late ctx job
      if late
          then fail ctx job.job_id "SAFACTORY_RJOB_TIMEOUT"
          else event ctx job "rjob_reconciliation_completed" []

-- `self._rjobs.get`.
unfoldable pub rjob_snapshot : Context → String → M RJobSnapshot
rjob_snapshot ctx rjob_id = call (get_rjob rjob_id) (λ n. ctx.env.get_reply n rjob_id)

-- `self._rjobs.get` of an id that may be missing; the platform client refuses `None`.
unfoldable pub snapshot_of : Context → Option String → M RJobSnapshot
unfolding rjob_snapshot
snapshot_of ctx none = raise rjob_dependency_error
snapshot_of ctx (some rjob_id) = rjob_snapshot ctx rjob_id

-- From the check that the Gateway still runs on.
unfoldable pub watch_controller :
    Context → ControlJob → JobFileBinding → RJobSnapshot → M (Unit {0})
unfolding judge_controller snapshot_of
watch_controller ctx job binding gateway =
    if not (same_state gateway.state RJobState.running) || not gateway.ready
    then fail ctx job.job_id "GATEWAY_LOST_DURING_RUN"
    else do
      controller ← snapshot_of ctx job.safactory_rjob_id
      recorded ← record_controller_status ctx job controller
      judge_controller ctx recorded binding controller

-- From the last read of the row on: the controller is submitted if it is not there.
unfoldable pub run_controller :
    Context → JobFileBinding → RJobSnapshot → Option ControlJob → M (Unit {0})
unfolding watch_controller
run_controller ctx binding gateway none = pure tt
run_controller ctx binding gateway (some job) =
    if is_closing job
    then pure tt
    else if is_some job.safactory_rjob_id
    then watch_controller ctx job binding gateway
    else do
      submitted ← submit_safactory ctx job binding
      if is_closing submitted then pure tt else watch_controller ctx submitted binding gateway
