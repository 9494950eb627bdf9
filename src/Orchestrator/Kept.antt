-- ===== src/Orchestrator/Kept.antt =====
-- A condition on the store that other tasks, the events and the legal updates keep is kept by every
-- step of the orchestrator that starts no cleanup.
use safactory_server.Base.{ℕ, String, Option, none, some, List, [], ◌∷◌, ◌≡◌, Bool}
use safactory_server.Store.Failure.{Failure, ok}
use safactory_server.Store.Row.{ControlJob, Change}
use safactory_server.Store.Table.{JobEvent, Store, find_row}
use safactory_server.Store.Methods
use safactory_server.Store.Methods.{admit, updated}
use safactory_server.Json.{Json}
use safactory_server.RJob.{RJobSnapshot}
use safactory_server.Files.{JobFileBinding}
use safactory_server.Exec.{Context, M, Interference, interfere}
use safactory_server.Exec.Keeps.{Carries, keeps_rules, Keeps-transact}
use safactory_server.Orchestrator.Rows.{
  RowOk, IsLegal, attempt-IsLegal, phase-IsLegal, preparing-IsLegal, bound-IsLegal,
  gateway_submitted-IsLegal, gateway_status-IsLegal, safactory_status-IsLegal,
  gateway_ready-IsLegal, controller_submitted-IsLegal, controller_kept-IsLegal, succeeded-IsLegal,
  failed-IsLegal, closed-IsLegal,
}
use safactory_server.Orchestrator.Steps.{
  get_job, update_at, update_job, event, record_gateway_status, record_controller_status,
}
use safactory_server.Orchestrator.Submit.{
  gateway_spec, submit_gateway, controller_spec, keep_rjob_id, submit_controller, with_gateway_url,
  submit_safactory,
}
use safactory_server.Orchestrator.Cleanup.{
  stop, when_id, stop_controller, stop_gateway, stop_rjobs, retry_later, release, finish_cleanup,
  cleanup_changes, skip_cleanup,
}

pub record IsKept (P : Store → Type 0) : Type 0 where
  pub disturbed : (i : Interference) (s : Store) → P s → P (interfere i s)
  pub logged : (e : JobEvent) (s : Store) → P s → P (Methods.add_event e s).1
  pub updated_legally :
      (k : String) (t : ℕ) (cs : List Change) (s : Store)
      → ((j : ControlJob) (admitted : List Change)
          → find_row k s.jobs ≡ some j
          → RowOk j
          → admit j cs ≡ ok admitted
          → RowOk (updated t admitted j))
      → P s
      → P (Methods.update k t cs s).1

module _ {P : Store → Type 0} (kept : IsKept P) (ctx : Context) where
  pub update_at-Keeps :
      (k : String) (t : ℕ) (cs : List Change) → IsLegal cs → Carries P P (update_at ctx k t cs)
  unfolding update_at
  update_at-Keeps k t cs legal =
      Keeps-transact kept.disturbed ctx.env (Methods.update k t cs)
        (λ s. kept.updated_legally k t cs s (λ j admitted _ r h. legal.keeps t j admitted r h))

  pub update_job-Keeps :
      (k : String) (cs : List Change) → IsLegal cs → Carries P P (update_job ctx k cs)
  unfolding update_job
  update_job-Keeps k cs legal = search (keeps_rules, update_at-Keeps)

  pub get_job-Keeps : (k : String) → Carries P P (get_job ctx k)
  unfolding get_job
  get_job-Keeps k =
      Keeps-transact kept.disturbed ctx.env (λ s. (ok (Methods.get k s), s)) (λ s h. h)

  pub event-Keeps :
      (job : ControlJob) (kind : String) (payload : List (String × Json))
      → Carries P P (event ctx job kind payload)
  unfolding event
  event-Keeps job kind payload = search (keeps_rules, Keeps-transact kept.disturbed, kept.logged)

  ruleset step_rules = (
    keeps_rules, update_at-Keeps, update_job-Keeps, get_job-Keeps, event-Keeps, attempt-IsLegal,
    phase-IsLegal, preparing-IsLegal, bound-IsLegal, gateway_submitted-IsLegal,
    gateway_status-IsLegal, safactory_status-IsLegal, gateway_ready-IsLegal,
    controller_submitted-IsLegal, controller_kept-IsLegal, succeeded-IsLegal, failed-IsLegal,
    closed-IsLegal,
  )

  pub record_gateway_status-Keeps :
      (job : ControlJob) (g : RJobSnapshot) → Carries P P (record_gateway_status ctx job g)
  unfolding record_gateway_status
  record_gateway_status-Keeps job g = search step_rules

  pub record_controller_status-Keeps :
      (job : ControlJob) (g : RJobSnapshot) → Carries P P (record_controller_status ctx job g)
  unfolding record_controller_status
  record_controller_status-Keeps job g = search step_rules

  gateway_spec-Keeps :
      (job : ControlJob) (b : JobFileBinding) → Carries P P (gateway_spec ctx job b)
  unfolding gateway_spec
  gateway_spec-Keeps job b = search keeps_rules depth 12

  pub submit_gateway-Keeps :
      (job : ControlJob) (b : JobFileBinding) → Carries P P (submit_gateway ctx job b)
  unfolding submit_gateway
  submit_gateway-Keeps job b = search (step_rules, gateway_spec-Keeps) depth 9

  keep_rjob_id-Keeps :
      (job : ControlJob) (rjob_id : String) (t : ℕ) (e : Failure)
      → Carries P P (keep_rjob_id ctx job rjob_id t e)
  unfolding keep_rjob_id
  keep_rjob_id-Keeps job rjob_id t Failure.job_state_conflict = search step_rules
  keep_rjob_id-Keeps job rjob_id t e = search step_rules

  controller_spec-Keeps :
      (job : ControlJob) (b : JobFileBinding) (url : String)
      → Carries P P (controller_spec ctx job b url)
  unfolding controller_spec
  controller_spec-Keeps job b url = search keeps_rules depth 14

  submit_controller-Keeps :
      (job : ControlJob) (b : JobFileBinding) (url : String)
      → Carries P P (submit_controller ctx job b url)
  unfolding submit_controller
  submit_controller-Keeps job b url =
      search (step_rules, controller_spec-Keeps, keep_rjob_id-Keeps) depth 10

  with_gateway_url-Keeps :
      (o : Option String) (f : String → M ControlJob)
      → ((url : String) → Carries P P (f url))
      → Carries P P (with_gateway_url o f)
  unfolding with_gateway_url
  with_gateway_url-Keeps none f kf = search keeps_rules
  with_gateway_url-Keeps (some url) f kf = search keeps_rules

  pub submit_safactory-Keeps :
      (job : ControlJob) (b : JobFileBinding) → Carries P P (submit_safactory ctx job b)
  unfolding submit_safactory
  submit_safactory-Keeps job b = search (with_gateway_url-Keeps, submit_controller-Keeps)

  when_id-Keeps :
      (o : Option String) (f : String → M (Unit {0}))
      → ((k : String) → Carries P P (f k))
      → Carries P P (when_id o f)
  unfolding when_id
  when_id-Keeps none f kf = search keeps_rules
  when_id-Keeps (some k) f kf = search keeps_rules

  stop_controller-Keeps : (job : ControlJob) (k : String) → Carries P P (stop_controller ctx job k)
  unfolding stop_controller stop
  stop_controller-Keeps job k = search step_rules depth 7

  stop_gateway-Keeps : (job : ControlJob) (k : String) → Carries P P (stop_gateway ctx job k)
  unfolding stop_gateway stop
  stop_gateway-Keeps job k = search step_rules depth 7

  pub stop_rjobs-Keeps : (job : ControlJob) → Carries P P (stop_rjobs ctx job)
  unfolding stop_rjobs
  stop_rjobs-Keeps job =
      search (keeps_rules, when_id-Keeps, stop_controller-Keeps, stop_gateway-Keeps)

  retry_later-Keeps : (e : Failure) → Carries P P (retry_later e)
  unfolding retry_later
  retry_later-Keeps Failure.rjob_dependency_error = search keeps_rules
  retry_later-Keeps e = search keeps_rules

  finish_cleanup-Keeps :
      (job : ControlJob) (closing : Bool)
      → ((t : ℕ) → Carries P P (update_at ctx job.job_id t (cleanup_changes closing t)))
      → Carries P P (finish_cleanup ctx job closing)
  unfolding finish_cleanup
  finish_cleanup-Keeps job closing ku = search (keeps_rules, event-Keeps) depth 8

  -- Releasing the RJobs keeps what its last update keeps.
  pub release-Keeps :
      (job : ControlJob) (closing : Bool)
      → ((t : ℕ) → Carries P P (update_at ctx job.job_id t (cleanup_changes closing t)))
      → Carries P P (release ctx job closing)
  unfolding release
  release-Keeps job closing ku =
      search (keeps_rules, stop_rjobs-Keeps, retry_later-Keeps, finish_cleanup-Keeps) depth 8

  pub skip_cleanup-Keeps :
      (job : ControlJob)
      → ((t : ℕ) → Carries P P (update_at ctx job.job_id t (Change.cleanup_requested 0 ∷ [])))
      → Carries P P (skip_cleanup ctx job)
  unfolding skip_cleanup update_job
  skip_cleanup-Keeps job ku = search (keeps_rules, event-Keeps) depth 8
