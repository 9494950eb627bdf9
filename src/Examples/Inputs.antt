-- ===== src/Examples/Inputs.antt =====
-- A server with one model of the platform: every call succeeds, one job is added before the first
-- await, and a client closes it later.
use safactory_server.Base.{
  ℕ, ◌==◌, same_text, true, false, none, some, List, [], ◌∷◌, if◌then◌else◌,
}
use safactory_server.Json.{text, object, array, nil, end, field}
use safactory_server.Catalog.{RealCatalog, RangeConfig}
use safactory_server.Runtime.Artifacts.{FileEntry}
use safactory_server.Store.Failure.{
  type_error, ok, raised, rjob_dependency_error, data_platform_error,
}
use safactory_server.Runtime.Repository.{Repository}
use safactory_server.Store.Row.{ControlJob, NewJob, new_control_job}
use safactory_server.Store.Table.{Store}
use safactory_server.RJob.{RJobState, RJobSnapshot}
use safactory_server.Files.Text.{binding_json}
use safactory_server.Files.{JobFileBinding}
use safactory_server.Settings.{Settings}
use safactory_server.Exec.{Context, Library, World, Interference, add_job, close_job}

abbrev pub a_new_job : NewJob
a_new_job = record {
  job_id = "job_1";
  request_id = "req_1";
  owner_username = "alice";
  model_id = "m";
  model_checksum = "c";
  model_gateway_json = "{}";
  range_id = "r";
  gateway_image = "gw";
  safactory_image = "sf";
  now = 5000000;
}

abbrev pub a_binding : JobFileBinding
a_binding = record {
  job_id = "job_1";
  range_id = "r";
  input_local_path = "/in";
  input_source = "/in";
  input_target = "/mnt/safactory-job";
  result_local_path = "/out";
  result_source = "/out";
  result_target = "/app/results";
  agent_config_path = "/a.yaml";
  agent_start_config_path = "/s.yaml";
  agent_config_checksum = "c";
  groups = [];
  total_episodes = 2;
  launcher_rjob_config_path = none;
  launcher_rjob_config_checksum = "";
  gateway_config_source = "/in/gateway";
  gateway_config_path = "/app/runtime-config/gateway.yaml";
  gateway_config_checksum = "";
}

abbrev pub a_snapshot : RJobState → RJobSnapshot
a_snapshot state = record {
  rjob_id = "x";
  state = state;
  ready = true;
  address = some "10.0.0.7";
  port = some 8000;
  exit_code = none;
  failure_summary = none;
  workload_summary = [];
}

abbrev pub a_library : Library
a_library = record {
  lower = λ t. t;
  upper = λ t. t;
  is_alnum = λ c. true;
  is_space = λ c. false;
  json_loads = λ t. if same_text t "[]" then some (array nil) else some (object end);
  json_dumps = λ j. "{}";
  json_text = λ j. "";
  decimal = λ n. "8000";
  text_repr = λ t. t;
  ip_address = λ t. none;
  load_gateway_model = λ t. some (record { route = end; environment = []; llm_model = none });
  codec = record {
    json_dumps = λ j. "b";
    json_loads = λ t. ok (binding_json a_binding);
    untyped = λ j. raised type_error;
  };
}

abbrev pub some_settings : Settings
some_settings = record {
  rjob_backend = "brainpp";
  rjob_endpoint = none;
  rjob_cluster_entry = none;
  rjob_access_key = none;
  rjob_secret_key = none;
  rjob_restart_policy = "Never";
  rjob_namespace = "ns";
  charged_group = "g";
  rjob_private_machine = "Group";
  rjob_host_network = none;
  keep_rjobs = false;
  rjob_auto_delete_duration = "12h";
  rjob_max_running_duration = "14h";
  rjob_credential_ref = "";
  data_platform_config_ref = "";
  database_environment_json = "{}";
  gateway_config_json = "{}";
  gateway_resources_json = "{}";
  gateway_requests_json = "{}";
  safactory_resources_json = "{}";
  safactory_requests_json = "{}";
  episode_rjob_defaults_json = "{}";
  gateway_config_mount_dir = "/app/runtime-config";
  gateway_name_prefix = "safactory-gateway";
  gateway_workdir = "/app";
  gateway_port = 8000;
  gateway_scheme = "http";
  gateway_health_path = "/readyz";
  gateway_sessions_path = "/v1/sessions";
  runtime_no_proxy = "localhost";
  safactory_name_prefix = "safactory";
  safactory_workdir = "/app";
  safactory_python_bin = "python";
  safactory_launcher_rjob_config = "config.yaml";
  safactory_storage_type = "cloud";
  safactory_pool_size = 10;
  safactory_multiplier = "1.0";
  safactory_max_workers = 10;
  safactory_max_steps = 150;
  safactory_agent_start_timeout_seconds = "9000.0";
  safactory_enable_evaluation = true;
  safactory_launcher_args_json = "[]";
  gateway_ready_timeout_seconds = 300;
  safactory_timeout_seconds = 7200;
  image_pull_policy = "IfNotPresent";
}

-- A job comes before the first await; a close comes at the await that is given.
abbrev pub schedule : ℕ → ℕ → List Interference
schedule close_at n =
    if n == 0
    then add_job a_new_job ∷ []
    else if n == close_at
    then close_job "job_1" 9000000 ∷ []
    else []

abbrev pub a_context : ℕ → RJobState → Context
a_context close_at controller_state = record {
  env = record {
    clock = λ n. 6000000;
    interference = schedule close_at;
    db_fails = λ n. false;
    create_reply = λ n spec. ok spec.name;
    get_reply = λ n rjob_id. ok (a_snapshot controller_state);
    stop_reply = λ n rjob_id. ok tt;
    ready_reply = λ n url path. ok true;
    bind_reply = λ n job_id range_id. ok a_binding;
  };
  lib = a_library;
  settings = some_settings;
}

-- The platform refuses to stop an RJob.
abbrev pub a_stubborn_context : ℕ → Context
a_stubborn_context close_at =
    let ctx = a_context close_at RJobState.running in
    record ctx { env = record ctx.env { stop_reply = λ n rjob_id. raised rjob_dependency_error } }

-- No other task runs.
abbrev pub a_calm_context : Context
a_calm_context =
    let ctx = a_context 40 RJobState.running in
    record ctx { env = record ctx.env { interference = λ n. [] } }

abbrev pub empty_store : Store
empty_store = record { jobs = []; log = [] }

abbrev pub empty_world : World
empty_world = record { store = empty_store; tick = 0; calls = [] }

unfoldable pub a_job : ControlJob
unfolding new_control_job
a_job = new_control_job a_new_job

abbrev pub no_file : FileEntry
no_file = record {
  exists = false;
  is_symlink = false;
  is_file = false;
  size = 0;
  vanished = false;
  content = none;
}

abbrev pub a_range : RangeConfig
a_range = record {
  range_id = "r";
  description = "a range";
  available = true;
  availability_retryable = false;
  agent_config = "/a.yaml";
  launcher_rjob_config = none;
  groups =
      record {
        env_name = "e";
        dataset = "/d.json";
        start_config = "/s.yaml";
        supports_milestones = true;
        result_artifact = some "result.json";
      }
      ∷ [];
}

abbrev pub a_catalog : RealCatalog
a_catalog = record {
  gateway_routes = field "m" (object (field "url" (text "http://m") end)) end;
  read_ranges = λ n. some (a_range ∷ []);
  dump_gateway = λ gateway. "{}";
  checksum = λ routes. "c";
}

-- A client that owns no job.
abbrev pub a_repository : Repository
a_repository = record {
  ctx = a_context 40 RJobState.running;
  username = some "bob";
  request_id = none;
  gateway_image = "gw";
  safactory_image = "sf";
  retry_after_seconds = 5;
  new_id = λ n. "job_2";
  catalog = a_catalog;
  result_reply = λ n job_id session_id. ok none;
  files = λ n path. no_file;
  list_session_ids = λ n job_id. ok ("s" ∷ []);
  steps_reply = λ n job_id session_id. ok none;
  trajectory_reply = λ n job_id session_id step_id. raised data_platform_error;
}
