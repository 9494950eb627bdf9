-- ===== src/Settings.antt =====
-- The settings of src/server/config.py that the orchestrator reads, and the model configuration
-- that the store keeps as text. A setting of type `float` is kept as the text that `str` gives.
use safactory_server.Base.{ℕ, String, Bool, Option, List}
use safactory_server.Json.{Fields}

pub record Settings : Type 0 where
  pub rjob_backend : String
  pub rjob_endpoint : Option String
  pub rjob_cluster_entry : Option String
  pub rjob_access_key : Option String
  pub rjob_secret_key : Option String
  pub rjob_restart_policy : String
  pub rjob_namespace : String
  pub charged_group : String
  pub rjob_private_machine : String
  pub rjob_host_network : Option Bool
  pub keep_rjobs : Bool
  pub rjob_auto_delete_duration : String
  pub rjob_max_running_duration : String
  pub rjob_credential_ref : String
  pub data_platform_config_ref : String
  pub database_environment_json : String
  pub gateway_config_json : String
  pub gateway_resources_json : String
  pub gateway_requests_json : String
  pub safactory_resources_json : String
  pub safactory_requests_json : String
  pub episode_rjob_defaults_json : String
  pub gateway_config_mount_dir : String
  pub gateway_name_prefix : String
  pub gateway_workdir : String
  pub gateway_port : ℕ
  pub gateway_scheme : String
  pub gateway_health_path : String
  pub gateway_sessions_path : String
  pub runtime_no_proxy : String
  pub safactory_name_prefix : String
  pub safactory_workdir : String
  pub safactory_python_bin : String
  pub safactory_launcher_rjob_config : String
  pub safactory_storage_type : String
  pub safactory_pool_size : ℕ
  pub safactory_multiplier : String
  pub safactory_max_workers : ℕ
  pub safactory_max_steps : ℕ
  pub safactory_agent_start_timeout_seconds : String
  pub safactory_enable_evaluation : Bool
  pub safactory_launcher_args_json : String
  pub gateway_ready_timeout_seconds : ℕ
  pub safactory_timeout_seconds : ℕ
  pub image_pull_policy : String

-- `GatewayModelConfig` of configuration.py.
pub record GatewayModelConfig : Type 0 where
  pub route : Fields
  pub environment : List (String × String)
  pub llm_model : Option String
