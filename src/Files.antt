-- ===== src/Files.antt =====
-- The file bindings of src/server/infrastructure/real/file_manager.py: the data that
-- `SharedFileManager.bind` returns and that the store keeps as text.
pub mod Sources
pub mod Text
pub mod RoundTrip
pub mod Render
pub mod Publish
pub mod Mounts
pub mod Immutable
pub mod Bound
use safactory_server.Base.{ℕ, String, Option, List}

pub record EnvironmentBinding : Type 0 where
  pub env_name : String
  pub env_image : String
  pub env_num : ℕ
  pub dataset_records : ℕ
  pub dataset_checksum : String
  pub start_config_checksum : String

pub record JobFileBinding : Type 0 where
  pub job_id : String
  pub range_id : String
  pub input_local_path : String
  pub input_source : String
  pub input_target : String
  pub result_local_path : String
  pub result_source : String
  pub result_target : String
  pub agent_config_path : String
  pub agent_start_config_path : String
  pub agent_config_checksum : String
  pub groups : List EnvironmentBinding
  pub total_episodes : ℕ
  pub launcher_rjob_config_path : Option String
  pub launcher_rjob_config_checksum : String
  pub gateway_config_source : String
  pub gateway_config_path : String
  pub gateway_config_checksum : String
