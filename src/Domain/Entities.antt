-- ===== src/Domain/Entities.antt =====
-- The records of src/server/domain/entities.py. A moment is a number of microseconds, and a score
-- is the text of its number.
use safactory_server.Base.{ℕ, String, Bool, Option, List}
use safactory_server.Json.{Fields}
use safactory_server.Domain.{JobStatus, ResultStatus, MilestoneStatus}

pub record Model : Type 0 where
  pub model_id : String
  pub name : String
  pub available : Bool

pub record Range : Type 0 where
  pub range_id : String
  pub description : String
  pub available : Bool
  pub availability_retryable : Bool

pub record CreatedJob : Type 0 where
  pub job_id : String
  pub status : JobStatus
  pub model_id : String
  pub range_id : String
  pub created_at : ℕ

pub record CloseJobResult : Type 0 where
  pub job_id : String
  pub job_status : JobStatus
  pub updated_at : ℕ
  pub retry_after_seconds : Option ℕ

pub record FailureInfo : Type 0 where
  pub code : String
  pub message : String
  pub details : Fields
  pub retryable : Bool

pub record JobSessions : Type 0 where
  pub job_id : String
  pub job_status : JobStatus
  pub session_ids : List String
  pub retry_after_seconds : Option ℕ
  pub error : Option FailureInfo

pub record SessionResult : Type 0 where
  pub session_id : String
  pub result_status : ResultStatus
  pub score : Option String
  pub completed_at : Option ℕ
  pub retry_after_seconds : Option ℕ
  pub result : Option Fields
  pub error : Option FailureInfo

pub record SessionMilestones : Type 0 where
  pub job_id : String
  pub session_id : String
  pub milestone_status : MilestoneStatus
  pub snapshot : Option Fields
  pub retry_after_seconds : Option ℕ

pub record StepIndex : Type 0 where
  pub step_id : String
  pub sequence_no : ℕ

pub record SessionSteps : Type 0 where
  pub session_id : String
  pub step_count : ℕ
  pub sealed : Bool
  pub steps : List StepIndex

pub record StepTrajectory : Type 0 where
  pub session_id : String
  pub step_id : String
  pub sequence_no : ℕ
  pub started_at : Option ℕ
  pub finished_at : Option ℕ
  pub trajectory : Fields
