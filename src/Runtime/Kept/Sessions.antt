-- ===== src/Runtime/Kept/Sessions.antt =====
-- `list_sessions`, `get_steps` and `get_trajectory` keep what the orchestrator relies on.
use safactory_server.Base.{String, Option, none, some}
use safactory_server.Store.Failure.{Failure, data_platform_error}
use safactory_server.Store.Table.{Store}
use safactory_server.Domain.Entities.{SessionSteps, StepTrajectory}
use safactory_server.Exec.Keeps.{Carries}
use safactory_server.Orchestrator.Kept.{IsKept}
use safactory_server.Runtime.Repository.{Repository}
use safactory_server.Runtime.Sessions.{
  list_sessions, steps_or_missing, get_steps, unavailable, missing_step, trajectory_or_missing,
  get_trajectory,
}
use safactory_server.Runtime.Kept.Rules.{request_rules}

module _ {P : Store → Type 0} (kept : IsKept P) (r : Repository) where
  pub list_sessions-Keeps : (k : String) → Carries P P (list_sessions r k)
  unfolding list_sessions
  list_sessions-Keeps k = search request_rules

  pub steps_or_missing-Keeps :
      (k session_id : String) (o : Option SessionSteps)
      → Carries P P (steps_or_missing k session_id o)
  unfolding steps_or_missing
  steps_or_missing-Keeps k session_id none = search request_rules
  steps_or_missing-Keeps k session_id (some steps) = search request_rules

  pub get_steps-Keeps : (k session_id : String) → Carries P P (get_steps r k session_id)
  unfolding get_steps
  get_steps-Keeps k session_id = search (request_rules, steps_or_missing-Keeps)

  pub unavailable-Keeps : {A : Type 0} (e : Failure) → Carries P P (unavailable {A = A} e)
  unfolding unavailable
  unavailable-Keeps data_platform_error = search request_rules
  unavailable-Keeps e = search request_rules

  pub missing_step-Keeps :
      (k session_id step_id : String) (o : Option SessionSteps)
      → Carries P P (missing_step k session_id step_id o)
  unfolding missing_step
  missing_step-Keeps k session_id step_id none = search request_rules
  missing_step-Keeps k session_id step_id (some steps) = search request_rules

  pub trajectory_or_missing-Keeps :
      (k session_id step_id : String) (o : Option StepTrajectory)
      → Carries P P (trajectory_or_missing r k session_id step_id o)
  unfolding trajectory_or_missing
  trajectory_or_missing-Keeps k session_id step_id none =
      search (request_rules, unavailable-Keeps, missing_step-Keeps)
  trajectory_or_missing-Keeps k session_id step_id (some t) = search request_rules

  pub get_trajectory-Keeps :
      (k session_id step_id : String) → Carries P P (get_trajectory r k session_id step_id)
  unfolding get_trajectory
  get_trajectory-Keeps k session_id step_id = search (request_rules, trajectory_or_missing-Keeps)
