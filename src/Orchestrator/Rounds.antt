-- ===== src/Orchestrator/Rounds.antt =====
-- A round of reconciliation keeps what other tasks, the events and the legal updates keep.
use safactory_server.Base.{String, Option, none, some, Bool}
use safactory_server.Store.Failure.{Failure, Outcome, ok, raised}
use safactory_server.Store.Row.{ControlJob}
use safactory_server.Store.Table.{Store}
use safactory_server.RJob.{RJobSnapshot}
use safactory_server.Files.{JobFileBinding}
use safactory_server.Exec.{Context}
use safactory_server.Exec.Keeps.{Carries, keeps_rules}
use safactory_server.Orchestrator.Rows.{
  attempt-IsLegal, phase-IsLegal, preparing-IsLegal, bound-IsLegal, gateway_ready-IsLegal,
  succeeded-IsLegal,
}
use safactory_server.Orchestrator.Kept.{
  IsKept, update_at-Keeps, update_job-Keeps, get_job-Keeps, event-Keeps,
  record_gateway_status-Keeps, record_controller_status-Keeps, submit_gateway-Keeps,
  submit_safactory-Keeps,
}
use safactory_server.Orchestrator.Cleaning.{fail-Keeps}
use safactory_server.Orchestrator.Reconcile.{
  gateway_late, controller_late, fail_if, found_or_gone, files_bound, bind_job_files, conclude,
  judge_controller, snapshot_of, watch_controller, run_controller, reread_and_run, fix_gateway_url,
  await_gateway, after_health, check_health, await_route, judge_gateway, watch_gateway, run_gateway,
  reconcile_bound, reconcile, dependency_late, dependency_failed, handle_failure, reconcile_guarded,
}

module _ {P : Store → Type 0} (kept : IsKept P) (ctx : Context) where
  ruleset round_rules = (
    keeps_rules, update_at-Keeps, update_job-Keeps, get_job-Keeps, event-Keeps,
    record_gateway_status-Keeps, record_controller_status-Keeps, submit_gateway-Keeps,
    submit_safactory-Keeps, fail-Keeps, attempt-IsLegal, phase-IsLegal, preparing-IsLegal,
    bound-IsLegal, gateway_ready-IsLegal, succeeded-IsLegal,
  )

  gateway_late-Keeps : (job : ControlJob) → Carries P P (gateway_late ctx job)
  unfolding gateway_late
  gateway_late-Keeps job = search keeps_rules

  controller_late-Keeps : (job : ControlJob) → Carries P P (controller_late ctx job)
  unfolding controller_late
  controller_late-Keeps job = search keeps_rules

  fail_if-Keeps :
      (job : ControlJob) (late : Bool) (reason : String) → Carries P P (fail_if ctx job late reason)
  unfolding fail_if
  fail_if-Keeps job late reason = search round_rules

  found_or_gone-Keeps : (o : Option ControlJob) → Carries P P (found_or_gone o)
  unfolding found_or_gone
  found_or_gone-Keeps none = search keeps_rules
  found_or_gone-Keeps (some job) = search keeps_rules

  files_bound-Keeps :
      (job : ControlJob) (o : Outcome JobFileBinding) → Carries P P (files_bound ctx job o)
  unfolding files_bound
  files_bound-Keeps job (ok b) = search round_rules depth 7
  files_bound-Keeps job (raised Failure.file_binding_error) =
      search (round_rules, found_or_gone-Keeps) depth 7
  files_bound-Keeps job (raised e) = search keeps_rules

  bind_job_files-Keeps : (job : ControlJob) → Carries P P (bind_job_files ctx job)
  unfolding bind_job_files
  bind_job_files-Keeps job = search (round_rules, files_bound-Keeps) depth 7

  conclude-Keeps :
      (job : ControlJob) (b : JobFileBinding) (c : RJobSnapshot)
      → Carries P P (conclude ctx job b c)
  unfolding conclude
  conclude-Keeps job b c = search round_rules depth 8

  judge_controller-Keeps :
      (job : ControlJob) (b : JobFileBinding) (c : RJobSnapshot)
      → Carries P P (judge_controller ctx job b c)
  unfolding judge_controller
  judge_controller-Keeps job b c =
      search (round_rules, conclude-Keeps, controller_late-Keeps) depth 9

  snapshot_of-Keeps : (o : Option String) → Carries P P (snapshot_of ctx o)
  unfolding snapshot_of
  snapshot_of-Keeps none = search keeps_rules
  snapshot_of-Keeps (some k) = search keeps_rules

  watch_controller-Keeps :
      (job : ControlJob) (b : JobFileBinding) (g : RJobSnapshot)
      → Carries P P (watch_controller ctx job b g)
  unfolding watch_controller
  watch_controller-Keeps job b g =
      search (round_rules, snapshot_of-Keeps, judge_controller-Keeps) depth 8

  run_controller-Keeps :
      (b : JobFileBinding) (g : RJobSnapshot) (o : Option ControlJob)
      → Carries P P (run_controller ctx b g o)
  unfolding run_controller
  run_controller-Keeps b g none = search keeps_rules
  run_controller-Keeps b g (some job) = search (round_rules, watch_controller-Keeps) depth 8

  reread_and_run-Keeps :
      (k : String) (b : JobFileBinding) (g : RJobSnapshot) → Carries P P (reread_and_run ctx k b g)
  unfolding reread_and_run
  reread_and_run-Keeps k b g = search (round_rules, run_controller-Keeps)

  fix_gateway_url-Keeps :
      (job : ControlJob) (b : JobFileBinding) (g : RJobSnapshot) (url : String) (o : Option String)
      → Carries P P (fix_gateway_url ctx job b g url o)
  unfolding fix_gateway_url
  fix_gateway_url-Keeps job b g url none = search (round_rules, reread_and_run-Keeps) depth 9
  fix_gateway_url-Keeps job b g url (some known) = search (round_rules, reread_and_run-Keeps)

  await_gateway-Keeps : (job : ControlJob) → Carries P P (await_gateway ctx job)
  unfolding await_gateway
  await_gateway-Keeps job = search (round_rules, gateway_late-Keeps, fail_if-Keeps) depth 8

  after_health-Keeps :
      (b : JobFileBinding) (g : RJobSnapshot) (url : String) (ready : Bool) (o : Option ControlJob)
      → Carries P P (after_health ctx b g url ready o)
  unfolding after_health
  after_health-Keeps b g url ready none = search keeps_rules
  after_health-Keeps b g url ready (some job) =
      search (keeps_rules, await_gateway-Keeps, fix_gateway_url-Keeps)

  check_health-Keeps :
      (job : ControlJob) (b : JobFileBinding) (g : RJobSnapshot)
      → Carries P P (check_health ctx job b g)
  unfolding check_health
  check_health-Keeps job b g = search (round_rules, after_health-Keeps) depth 7

  await_route-Keeps : (job : ControlJob) → Carries P P (await_route ctx job)
  unfolding await_route
  await_route-Keeps job = search (round_rules, gateway_late-Keeps, fail_if-Keeps) depth 8

  judge_gateway-Keeps :
      (job : ControlJob) (b : JobFileBinding) (g : RJobSnapshot)
      → Carries P P (judge_gateway ctx job b g)
  unfolding judge_gateway
  judge_gateway-Keeps job b g = search (round_rules, await_route-Keeps, check_health-Keeps) depth 8

  watch_gateway-Keeps :
      (job : ControlJob) (b : JobFileBinding) → Carries P P (watch_gateway ctx job b)
  unfolding watch_gateway
  watch_gateway-Keeps job b = search (round_rules, snapshot_of-Keeps, judge_gateway-Keeps) depth 8

  run_gateway-Keeps :
      (b : JobFileBinding) (o : Option ControlJob) → Carries P P (run_gateway ctx b o)
  unfolding run_gateway
  run_gateway-Keeps b none = search keeps_rules
  run_gateway-Keeps b (some job) = search (round_rules, watch_gateway-Keeps) depth 8

  reconcile_bound-Keeps : (job : ControlJob) → Carries P P (reconcile_bound ctx job)
  unfolding reconcile_bound
  reconcile_bound-Keeps job = search (round_rules, run_gateway-Keeps) depth 7

  pub reconcile-Keeps : (job : ControlJob) → Carries P P (reconcile ctx job)
  unfolding reconcile
  reconcile-Keeps job = search (round_rules, reconcile_bound-Keeps, bind_job_files-Keeps) depth 11

  dependency_late-Keeps : (o : Option ControlJob) → Carries P P (dependency_late ctx o)
  unfolding dependency_late
  dependency_late-Keeps none = search keeps_rules
  dependency_late-Keeps (some job) =
      search (keeps_rules, gateway_late-Keeps, controller_late-Keeps, fail_if-Keeps) depth 7

  dependency_failed-Keeps : (job : ControlJob) → Carries P P (dependency_failed ctx job)
  unfolding dependency_failed
  dependency_failed-Keeps job = search (round_rules, dependency_late-Keeps)

  handle_failure-Keeps : (job : ControlJob) (e : Failure) → Carries P P (handle_failure ctx job e)
  unfolding handle_failure
  handle_failure-Keeps job Failure.rjob_dependency_error = dependency_failed-Keeps job
  handle_failure-Keeps job Failure.trusted_config_error = dependency_failed-Keeps job
  handle_failure-Keeps job Failure.job_state_conflict = search keeps_rules
  handle_failure-Keeps job e = search round_rules

  pub reconcile_guarded-Keeps : (job : ControlJob) → Carries P P (reconcile_guarded ctx job)
  unfolding reconcile_guarded
  reconcile_guarded-Keeps job = search (keeps_rules, reconcile-Keeps, handle_failure-Keeps)
