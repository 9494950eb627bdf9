-- ===== src/Store/Failure.antt =====
-- The exceptions that the code of the server raises or lets pass, and a result with an exception.
use safactory_server.Domain.Errors.{DomainError}

pub data Failure : Type 0 where
  key_error : Failure
  value_error : Failure
  type_error : Failure
  runtime_error : Failure
  sqlite_error : Failure
  job_state_conflict : Failure
  rjob_dependency_error : Failure
  trusted_config_error : Failure
  file_binding_error : Failure
  data_platform_error : Failure
  artifact_error : Failure
  json_decode_error : Failure
  http_exception : Failure
  os_error : Failure
  domain_error : DomainError → Failure

pub data Outcome {ℓ} (A : Type ℓ) : Type ℓ where
  ok : A → Outcome A
  raised : Failure → Outcome A
