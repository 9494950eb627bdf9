-- ===== src/Orchestrator/Reconcile/Loop.antt =====
-- `_reconcile`, `reconcile_once` and `_run` of orchestrator.py.
use safactory_server.Base.{ℕ, zero, suc, Option, none, some, is_some, [], ◌∷◌, ◌||◌, if◌then◌else◌}
use safactory_server.Store.Failure.{
  Failure, job_state_conflict, rjob_dependency_error, trusted_config_error, ok,
}
use safactory_server.Store.Row.{ControlJob, Change, terminal}
use safactory_server.Store.Methods
use safactory_server.Exec.{Context, M, pure, ◌>>=◌, ◌>>◌, try_catch, for_each, transact}
use safactory_server.Orchestrator.Steps.{get_job, update_job, event}
use safactory_server.Orchestrator.Cleanup.{fail, cleanup}
use safactory_server.Orchestrator.Reconcile.Binding.{
  bind_job_files, controller_late, fail_if, gateway_late, is_closing,
}
use safactory_server.Orchestrator.Reconcile.Gateway.{reconcile_bound}

-- `_reconcile`.
unfoldable pub reconcile : Context → ControlJob → M (Unit {0})
unfolding reconcile_bound bind_job_files
reconcile ctx job0 = do
  job ←
      update_job ctx job0.job_id (Change.orchestrator_attempt (suc job0.orchestrator_attempt) ∷ [])
  if is_closing job then pure tt else do
    event ctx job "rjob_reconciliation_started" []
    if is_some job.binding_json then reconcile_bound ctx job else do
      bound ← bind_job_files ctx job
      if terminal bound || is_closing bound then pure tt else reconcile_bound ctx bound

-- The handler of `RJobDependencyError` and `TrustedConfigError` in `reconcile_once`.
unfoldable pub dependency_late : Context → Option ControlJob → M (Unit {0})
dependency_late ctx none = pure tt
dependency_late ctx (some job) = do
  late ← (if is_some job.safactory_rjob_id then controller_late ctx job else gateway_late ctx job)
  fail_if ctx job late "DEPENDENCY_UNAVAILABLE"

unfoldable pub dependency_failed : Context → ControlJob → M (Unit {0})
unfolding dependency_late
dependency_failed ctx job = do latest ← get_job ctx job.job_id; dependency_late ctx latest

-- The `except` clauses of `reconcile_once`.
unfoldable pub handle_failure : Context → ControlJob → Failure → M (Unit {0})
unfolding dependency_failed
handle_failure ctx job rjob_dependency_error = dependency_failed ctx job
handle_failure ctx job trusted_config_error = dependency_failed ctx job
handle_failure ctx job job_state_conflict = pure tt
handle_failure ctx job e = fail ctx job.job_id "INTERNAL_ORCHESTRATION_ERROR"

unfoldable pub reconcile_guarded : Context → ControlJob → M (Unit {0})
unfolding reconcile handle_failure
reconcile_guarded ctx job = try_catch (reconcile ctx job) (handle_failure ctx job)

-- `reconcile_once`.
unfoldable pub reconcile_once : Context → M (Unit {0})
unfolding reconcile_guarded
reconcile_once ctx = do
  active ← transact ctx.env (λ s. (ok (Methods.list_active s), s))
  for_each active (reconcile_guarded ctx)
  pending ← transact ctx.env (λ s. (ok (Methods.list_cleanup_pending s), s))
  for_each pending (cleanup ctx)

-- So many rounds of the loop of `_run`, which has no end; an exception ends it.
unfoldable pub run_rounds : Context → ℕ → M (Unit {0})
unfolding reconcile_once
run_rounds ctx zero = pure tt
run_rounds ctx (suc n) = reconcile_once ctx >>= λ _. run_rounds ctx n
