-- ===== src/Runtime/Kept/Rules.antt =====
-- The steps that the requests share keep what the orchestrator relies on.
use safactory_server.Base.{ℕ, String, Option, none, some, List}
use safactory_server.Json.{Json}
use safactory_server.Store.Failure.{Failure, Outcome, data_platform_error, trusted_config_error}
use safactory_server.Store.Row.{ControlJob}
use safactory_server.Store.Table.{Store}
use safactory_server.Exec.Keeps.{Carries, keeps_rules, Keeps-transact, Keeps-raise, Keeps-bind}
use safactory_server.Orchestrator.Steps.{get_job}
use safactory_server.Orchestrator.Kept.{IsKept, get_job-Keeps}
use safactory_server.Runtime.Repository.{
  Repository, ask, found_job, require_job, log_event_at, query_failed, query_failure,
}
use safactory_server.Runtime.Jobs.{untrusted}

module _ {P : Store → Type 0} (kept : IsKept P) (r : Repository) where
  pub ask-Keeps : {A : Type 0} (reply : ℕ → Outcome A) → Carries P P (ask reply)
  unfolding ask
  ask-Keeps reply = record { at = λ w h. h }

  pub found_job-Keeps : (k : String) (o : Option ControlJob) → Carries P P (found_job r k o)
  unfolding found_job
  found_job-Keeps k none = Keeps-raise _
  found_job-Keeps k (some j) = search keeps_rules

  pub require_job-Keeps : (k : String) → Carries P P (require_job r k)
  unfolding require_job
  require_job-Keeps k = Keeps-bind _ _ (get_job-Keeps kept r.ctx k) (found_job-Keeps k)

  pub log_event_at-Keeps :
      (k kind phase : String) (t : ℕ) (payload : List (String × Json))
      → Carries P P (log_event_at r k kind phase t payload)
  unfolding log_event_at
  log_event_at-Keeps k kind phase t payload =
      Keeps-transact kept.disturbed r.ctx.env _ (kept.logged _)

  pub read_job-Keeps : (k : String) → Carries P P (get_job r.ctx k)
  read_job-Keeps k = get_job-Keeps kept r.ctx k

  ruleset step_rules = (
    keeps_rules, ask-Keeps, found_job-Keeps, require_job-Keeps, log_event_at-Keeps, read_job-Keeps,
  )

  pub query_failed-Keeps : (k operation : String) → Carries P P (query_failed r k operation)
  unfolding query_failed
  query_failed-Keeps k operation = search step_rules

  pub query_failure-Keeps :
      {A : Type 0} (k operation : String) (e : Failure)
      → Carries P P (query_failure {A = A} r k operation e)
  unfolding query_failure
  query_failure-Keeps k operation data_platform_error = search (step_rules, query_failed-Keeps)
  query_failure-Keeps k operation e = search step_rules

  pub untrusted-Keeps : {A : Type 0} (e : Failure) → Carries P P (untrusted {A = A} e)
  unfolding untrusted
  untrusted-Keeps trusted_config_error = search step_rules
  untrusted-Keeps e = search step_rules

pub ruleset request_rules = (
  keeps_rules, ask-Keeps, found_job-Keeps, require_job-Keeps, log_event_at-Keeps, read_job-Keeps,
  query_failure-Keeps, untrusted-Keeps,
)
