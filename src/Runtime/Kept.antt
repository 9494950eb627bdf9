-- ===== src/Runtime/Kept.antt =====
-- The requests of the API keep what the orchestrator relies on.
pub mod Rules
pub mod Jobs
pub mod Sessions
pub mod Reports
use safactory_server.Base.{
  ℕ, String, Bool, true, false, Option, none, some, List, Option-cases, inl, inr,
}
use safactory_server.Json.{Json}
use safactory_server.Store.Failure.{
  Failure, Outcome, key_error, sqlite_error, data_platform_error, trusted_config_error,
}
use safactory_server.Store.Row.{ControlJob, NewJob, new_control_job}
use safactory_server.Store.Table.{Store}
use safactory_server.Store.Methods
use safactory_server.Domain.Entities.{SessionSteps, StepTrajectory}
use safactory_server.Exec.{World, transact, interfere, add_job}
use safactory_server.Exec.{close_job as closing_by}
use safactory_server.Exec.Keeps.{Carries, keeps_rules, Keeps-transact, Keeps-raise, Keeps-bind}
use safactory_server.Orchestrator.Steps.{get_job}
use safactory_server.Orchestrator.Kept.{IsKept, get_job-Keeps}
use safactory_server.Store.Lifecycle.{Extends, Extends-refl}
use safactory_server.Orchestrator.Cleaning.{both-IsKept}
use safactory_server.Orchestrator.Safety.{IsSound, IsSound-IsKept, Extends-IsKept}
use safactory_server.Runtime.Repository.{
  Repository, ask, found_job, require_job, log_event_at, query_failed, query_failure,
}
use safactory_server.Runtime.Jobs.{
  Resolved, resolve, untrusted, insert_job, insert_resolved, create_job, close_requested,
  close_refused, close_row, close_job,
}
use safactory_server.Runtime.Sessions.{
  list_sessions, steps_or_missing, get_steps, unavailable, missing_step, trajectory_or_missing,
  get_trajectory,
}
use safactory_server.Catalog.{RangeConfig, RangeGroupConfig}
use safactory_server.Json.{Fields}
use safactory_server.Domain.Errors.{ErrorCode}
use safactory_server.Domain.Entities.{SessionResult}
use safactory_server.Store.Failure.{
  type_error, file_binding_error, artifact_error, json_decode_error,
}
use safactory_server.Runtime.Artifacts.{FileSystem}
use safactory_server.Base.{[], ◌∷◌}
use safactory_server.Runtime.Reports.{
  result_or_missing, job_range, first_artifact, only_artifact, check_session_name, read_bound,
  unreadable, with_payload, with_artifact, get_result, check_supported, without_snapshot,
  snapshot_or_pending, get_milestones,
}
use safactory_server.Runtime.Kept.Jobs.{create_job-Keeps, close_job-Keeps}
use safactory_server.Runtime.Kept.Sessions.{
  list_sessions-Keeps, get_steps-Keeps, get_trajectory-Keeps,
}
use safactory_server.Runtime.Kept.Reports.{get_result-Keeps, get_milestones-Keeps}

-- The store is sound and extends an earlier one.
abbrev pub Grown : Store → Store → Type 0
Grown before after = IsSound after × Extends before after

-- The creation of a job, the closing of one, the listing of sessions, the result of one, its
-- milestones, the steps and a trajectory: each of these requests, whatever the other tasks do between
-- its transactions and whether or not it raises, leaves a store with the invariant if it starts from
-- one, and extends that store.
pub requests-IsSound :
    (r : Repository) (a b c : String) (w : World)
    → IsSound w.store
    → Grown w.store (create_job r a b w).1.store
      × (Grown w.store (close_job r a w).1.store
          × (Grown w.store (list_sessions r a w).1.store
              × (Grown w.store (get_result r a b w).1.store
                  × (Grown w.store (get_milestones r a b w).1.store
                      × (Grown w.store (get_steps r a b w).1.store
                          × Grown w.store (get_trajectory r a b c w).1.store)))))
requests-IsSound r a b c w h =
    let kept = both-IsKept IsSound-IsKept (Extends-IsKept w.store) in
    let start : IsSound w.store × Extends w.store w.store = (h, Extends-refl w.store) in
    (
      (create_job-Keeps kept r a b).at w start,
      (
        (close_job-Keeps kept r a).at w start,
        (
          (list_sessions-Keeps kept r a).at w start,
          (
            (get_result-Keeps kept r a b).at w start,
            (
              (get_milestones-Keeps kept r a b).at w start,
              (
                (get_steps-Keeps kept r a b).at w start,
                (get_trajectory-Keeps kept r a b c).at w start,
              ),
            ),
          ),
        ),
      ),
    )
