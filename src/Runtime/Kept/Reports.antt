-- ===== src/Runtime/Kept/Reports.antt =====
-- `get_result` and `get_milestones` keep what the orchestrator relies on.
use safactory_server.Base.{String, Option, none, some, List, Option-cases, inl, inr}
use safactory_server.Store.Failure.{Failure, Outcome, key_error}
use safactory_server.Store.Row.{ControlJob}
use safactory_server.Store.Table.{Store}
use safactory_server.Exec.Keeps.{Carries}
use safactory_server.Orchestrator.Kept.{IsKept}
use safactory_server.Runtime.Repository.{Repository}
use safactory_server.Catalog.{RangeConfig, RangeGroupConfig}
use safactory_server.Json.{Fields}
use safactory_server.Domain.Errors.{ErrorCode}
use safactory_server.Domain.Entities.{SessionResult}
use safactory_server.Store.Failure.{
  type_error, file_binding_error, artifact_error, json_decode_error,
}
use safactory_server.Runtime.Artifacts.{FileSystem}
use safactory_server.Base.{[], ◌∷◌}
use safactory_server.Runtime.Reports.{
  result_or_missing, job_range, first_artifact, only_artifact, check_session_name, read_bound,
  unreadable, with_payload, with_artifact, get_result, check_supported, without_snapshot,
  snapshot_or_pending, get_milestones,
}
use safactory_server.Runtime.Kept.Rules.{request_rules}

module _ {P : Store → Type 0} (kept : IsKept P) (r : Repository) where
  pub result_or_missing-Keeps :
      (k session_id : String) (o : Option SessionResult)
      → Carries P P (result_or_missing k session_id o)
  unfolding result_or_missing
  result_or_missing-Keeps k session_id none = search request_rules
  result_or_missing-Keeps k session_id (some result) = search request_rules

  pub job_range-Keeps : (job : ControlJob) → Carries P P (job_range r job)
  unfolding job_range
  job_range-Keeps job = search request_rules

  pub first_artifact-Keeps : (groups : List RangeGroupConfig) → Carries P P (first_artifact groups)
  unfolding first_artifact
  first_artifact-Keeps [] = search request_rules
  first_artifact-Keeps (group ∷ []) = search request_rules
  first_artifact-Keeps (group ∷ other ∷ groups) = search request_rules

  pub only_artifact-Keeps : (o : Option RangeConfig) → Carries P P (only_artifact o)
  unfolding only_artifact
  only_artifact-Keeps none = search request_rules
  only_artifact-Keeps (some range_config) = search (request_rules, first_artifact-Keeps)

  pub check_session_name-Keeps : (session_id : String) → Carries P P (check_session_name session_id)
  unfolding check_session_name
  check_session_name-Keeps session_id = search request_rules

  pub read_bound-Keeps :
      (job : ControlJob) (read : FileSystem → String → Outcome (Option Fields))
      → Carries P P (read_bound r job read)
  unfolding read_bound
  read_bound-Keeps job read = elim (Option-cases (job.binding_json)) [
    | inl unbound ↦ rw unbound (search request_rules)
    | inr (raw, set) ↦ rw set (search request_rules)
  ]

  pub unreadable-Keeps :
      (code : ErrorCode) (k session_id : String) (e : Failure)
      → Carries P P (unreadable code k session_id e)
  unfolding unreadable
  unreadable-Keeps code k session_id file_binding_error = search request_rules
  unreadable-Keeps code k session_id json_decode_error = search request_rules
  unreadable-Keeps code k session_id key_error = search request_rules
  unreadable-Keeps code k session_id artifact_error = search request_rules
  unreadable-Keeps code k session_id type_error = search request_rules
  unreadable-Keeps code k session_id e = search request_rules

  pub with_payload-Keeps :
      (k session_id : String) (result : SessionResult) (payload : Option Fields)
      → Carries P P (with_payload k session_id result payload)
  unfolding with_payload
  with_payload-Keeps k session_id result payload = search request_rules

  ruleset report_rules =
      (request_rules, check_session_name-Keeps, read_bound-Keeps, unreadable-Keeps, job_range-Keeps)

  pub with_artifact-Keeps :
      (job : ControlJob) (k session_id : String) (result : SessionResult) (o : Option String)
      → Carries P P (with_artifact r job k session_id result o)
  unfolding with_artifact
  with_artifact-Keeps job k session_id result none = search request_rules
  with_artifact-Keeps job k session_id result (some artifact_name) =
      search (report_rules, with_payload-Keeps)

  pub get_result-Keeps : (k session_id : String) → Carries P P (get_result r k session_id)
  unfolding get_result
  get_result-Keeps k session_id =
      search (report_rules, result_or_missing-Keeps, only_artifact-Keeps, with_artifact-Keeps) depth
        12

  pub check_supported-Keeps :
      (k session_id : String) (o : Option RangeConfig)
      → Carries P P (check_supported k session_id o)
  unfolding check_supported
  check_supported-Keeps k session_id none = search request_rules
  check_supported-Keeps k session_id (some range_config) = search request_rules

  pub without_snapshot-Keeps :
      (job : ControlJob) (k session_id : String) (session_ids : List String)
      → Carries P P (without_snapshot r job k session_id session_ids)
  unfolding without_snapshot
  without_snapshot-Keeps job k session_id session_ids = search request_rules

  pub snapshot_or_pending-Keeps :
      (job : ControlJob) (k session_id : String) (o : Option Fields)
      → Carries P P (snapshot_or_pending r job k session_id o)
  unfolding snapshot_or_pending
  snapshot_or_pending-Keeps job k session_id none = search (report_rules, without_snapshot-Keeps)
  snapshot_or_pending-Keeps job k session_id (some snapshot) = search request_rules

  pub get_milestones-Keeps : (k session_id : String) → Carries P P (get_milestones r k session_id)
  unfolding get_milestones
  get_milestones-Keeps k session_id =
      search (report_rules, check_supported-Keeps, snapshot_or_pending-Keeps) depth 12
