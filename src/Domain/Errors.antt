-- ===== src/Domain/Errors.antt =====
-- The error codes and their table, from src/server/domain/errors.py.
use safactory_server.Base.{ℕ, Bool, true, false, String, Option, get_or}
use safactory_server.Json.{Fields}

pub data ErrorCode : Type 0 where
  forbidden invalid_request : ErrorCode
  model_not_found model_not_available range_not_found range_not_available : ErrorCode
  job_not_found session_not_found step_not_found : ErrorCode
  milestones_not_found milestones_not_supported milestones_unavailable : ErrorCode
  dependency_unavailable internal_error : ErrorCode

pub record ErrorSpec : Type 0 where
  pub status_code : ℕ
  pub message : String
  pub retryable : Bool

unfoldable pub error_specs : ErrorCode → ErrorSpec
error_specs forbidden = record {
  status_code = 403;
  message = "Authentication credentials are missing or invalid.";
  retryable = false;
}
error_specs invalid_request = record {
  status_code = 400;
  message = "The request is invalid.";
  retryable = false;
}
error_specs model_not_found = record {
  status_code = 422;
  message = "The selected model does not exist.";
  retryable = false;
}
error_specs model_not_available = record {
  status_code = 422;
  message = "The selected model is not available.";
  retryable = false;
}
error_specs range_not_found = record {
  status_code = 422;
  message = "The selected range does not exist.";
  retryable = false;
}
error_specs range_not_available = record {
  status_code = 422;
  message = "The selected range is not available.";
  retryable = false;
}
error_specs job_not_found = record {
  status_code = 404;
  message = "The specified job does not exist.";
  retryable = false;
}
error_specs session_not_found = record {
  status_code = 404;
  message = "The specified session does not exist for this job.";
  retryable = false;
}
error_specs step_not_found = record {
  status_code = 404;
  message = "The specified step does not exist for this session.";
  retryable = false;
}
error_specs milestones_not_found = record {
  status_code = 404;
  message = "The milestone snapshot does not exist for this session.";
  retryable = false;
}
error_specs milestones_not_supported = record {
  status_code = 422;
  message = "Milestones are not supported for this environment.";
  retryable = false;
}
error_specs milestones_unavailable = record {
  status_code = 503;
  message = "The milestone snapshot is temporarily unavailable.";
  retryable = true;
}
error_specs dependency_unavailable = record {
  status_code = 503;
  message = "A required service dependency is unavailable.";
  retryable = true;
}
error_specs internal_error = record {
  status_code = 500;
  message = "An internal server error occurred.";
  retryable = true;
}

-- `DomainError`.
pub record DomainError : Type 0 where
  pub code : ErrorCode
  pub spec : ErrorSpec
  pub details : Fields
  pub retryable : Bool

-- `DomainError.__init__`.
unfoldable pub new_domain_error : ErrorCode → Fields → Option Bool → DomainError
unfolding error_specs
new_domain_error c details retry = record {
  code = c;
  spec = error_specs c;
  details = details;
  retryable = get_or retry (error_specs c).retryable;
}
