-- ===== src/Orchestrator/Submit/Controller.antt =====
-- `_launcher_command` and `_submit_safactory` of orchestrator.py.
use safactory_server.Base.{
  ℕ, String, Option, none, some, List, [], ◌∷◌, ◌++◌, true, false, get_or, if◌then◌else◌,
}
use safactory_server.Domain.{JobStatus}
use safactory_server.Json.{text}
use safactory_server.Text.{is_empty}
use safactory_server.Store.Failure.{Failure, runtime_error, job_state_conflict, Outcome, ok, raised}
use safactory_server.Store.Row.{ControlJob, Change, timestamp}
use safactory_server.RJob.{RJobState, state_value, RJobSpec}
use safactory_server.Files.{JobFileBinding}
use safactory_server.Settings.{Settings}
use safactory_server.Exec.{Context, Library, M, pure, raise, lift, ◌>>=◌, ◌>>◌, try_catch, now}
use safactory_server.Orchestrator.Names.{safe_rjob_name, append_url_path, merge, ◌<>◌}
use safactory_server.Orchestrator.Config.{json_object, json_string_list, string_environment}
use safactory_server.Orchestrator.Submit.Common.{
  stored_model, common_environment, labels_of, create, text_or,
}
use safactory_server.Orchestrator.Steps.{update_at, event}

-- `_launcher_command` up to the extra arguments.
unfoldable pub launcher_options :
    Library → Settings → JobFileBinding → String → String → String → List String
unfolding text_or
launcher_options lib settings binding job_id gateway_url llm_model =
    settings.safactory_python_bin
    ∷ "launcher.py"
    ∷ "--mode"
    ∷ "rjob"
    ∷ "--rjob-config"
    ∷ text_or binding.launcher_rjob_config_path settings.safactory_launcher_rjob_config
    ∷ "--agent-config"
    ∷ binding.agent_config_path
    ∷ "--agent-start-config"
    ∷ binding.agent_start_config_path
    ∷ "--gateway-base-url"
    ∷ gateway_url
    ∷ "--llm-model"
    ∷ llm_model
    ∷ "--storage-type"
    ∷ settings.safactory_storage_type
    ∷ "--job-id"
    ∷ job_id
    ∷ "--pool-size"
    ∷ lib.decimal settings.safactory_pool_size
    ∷ "--multiplier"
    ∷ settings.safactory_multiplier
    ∷ "--max-workers"
    ∷ lib.decimal settings.safactory_max_workers
    ∷ "--max-steps"
    ∷ lib.decimal settings.safactory_max_steps
    ∷ "--agent-start-timeout-s"
    ∷ settings.safactory_agent_start_timeout_seconds
    ∷ []

abbrev evaluation_flag : Settings → List String
evaluation_flag settings =
    if settings.safactory_enable_evaluation then "--enable-evaluation" ∷ [] else []

-- `_launcher_command`.
unfoldable pub launcher_command :
    Library → Settings → JobFileBinding → String → String → String → Outcome (List String)
unfolding launcher_options json_string_list
launcher_command lib settings binding job_id gateway_url llm_model =
    elim (json_string_list lib settings.safactory_launcher_args_json) [
      | raised e ↦ raised e
      | ok extra ↦ ok (
          launcher_options lib settings binding job_id gateway_url llm_model
          ++ (evaluation_flag settings ++ extra))
    ]

-- The environment of the controller's RJob.
unfoldable pub controller_environment :
    Context → ControlJob → JobFileBinding → String → List (String × String) → List (String × String)
unfolding merge
controller_environment ctx job binding sessions_url database =
    let s = ctx.settings in
    merge
      (merge
        (merge database (
          ("RJOB_CLUSTER_ENTRY", get_or s.rjob_cluster_entry "")
          ∷ ("RJOB_NAMESPACE", s.rjob_namespace)
          ∷ ("RJOB_ACCESS_KEY", get_or s.rjob_access_key "")
          ∷ ("RJOB_SECRET_KEY", get_or s.rjob_secret_key "")
          ∷ ("RJOB_CHARGED_GROUP", s.charged_group)
          ∷ ("RJOB_GATEWAY_BASE_URL", sessions_url)
          ∷ []))
        (common_environment s job s.safactory_workdir))
      (("SAFACTORY_GATEWAY_URL", sessions_url)
        ∷ ("SAFACTORY_AGENT_CONFIG", binding.agent_config_path)
        ∷ ("SAFACTORY_INPUT_ROOT", binding.input_target)
        ∷ ("SAFACTORY_RESULTS_ROOT", binding.result_target)
        ∷ ("SAFACTORY_RJOB_NAMESPACE", s.rjob_namespace)
        ∷ ("SAFACTORY_CHARGED_GROUP", s.charged_group)
        ∷ ("SAFACTORY_RJOB_ENDPOINT", get_or s.rjob_endpoint "")
        ∷ ("SAFACTORY_RJOB_CREDENTIAL_REF", s.rjob_credential_ref)
        ∷ ("SAFACTORY_DATA_PLATFORM_CONFIG_REF", s.data_platform_config_ref)
        ∷ ("SAFACTORY_EPISODE_RJOB_DEFAULTS", s.episode_rjob_defaults_json)
        ∷ [])

-- The specification that `_submit_safactory` builds, from the verified Gateway URL.
unfoldable pub controller_spec : Context → ControlJob → JobFileBinding → String → M RJobSpec
unfolding stored_model launcher_command controller_environment safe_rjob_name append_url_path
controller_spec ctx job binding gateway_url = do
  let sessions_url = append_url_path gateway_url ctx.settings.gateway_sessions_path
  model ← lift (stored_model (ctx.lib.load_gateway_model job.model_gateway_json))
  command ← lift (
      launcher_command ctx.lib ctx.settings binding job.job_id sessions_url
        (text_or model.llm_model job.model_id))
  fields ← lift (json_object ctx.lib ctx.settings.database_environment_json)
  database ← lift (string_environment ctx.lib fields)
  resources ← lift (json_object ctx.lib ctx.settings.safactory_resources_json)
  requests ← lift (json_object ctx.lib ctx.settings.safactory_requests_json)
  pure (record {
    name = safe_rjob_name ctx.lib.lower (ctx.settings.safactory_name_prefix <> "-" <> job.job_id);
    idempotency_key = job.job_id <> ":controller";
    namespace = ctx.settings.rjob_namespace;
    charged_group = ctx.settings.charged_group;
    image = job.safactory_image;
    image_pull_policy = ctx.settings.image_pull_policy;
    role = "safactory-controller";
    labels = labels_of job "launcher";
    environment = controller_environment ctx job binding sessions_url database;
    command = command;
    working_dir = ctx.settings.safactory_workdir;
    mounts =
        record { source = binding.input_source; target = binding.input_target; read_only = true }
        ∷ record {
          source = binding.result_source;
          target = binding.result_target;
          read_only = false;
        }
        ∷ [];
    resources = resources;
    requests = requests;
    timeout_seconds = ctx.settings.safactory_timeout_seconds;
    daemon = false;
    restart_policy = ctx.settings.rjob_restart_policy;
    private_machine = some ctx.settings.rjob_private_machine;
    host_network = ctx.settings.rjob_host_network;
    auto_delete_duration = some ctx.settings.rjob_auto_delete_duration;
    max_running_duration = some ctx.settings.rjob_max_running_duration;
  })

unfoldable pub controller_submitted : ControlJob → String → ℕ → List Change
unfolding state_value
controller_submitted job rjob_id t =
    Change.safactory_rjob_id (some rjob_id)
    ∷ Change.safactory_status (some (state_value RJobState.pending))
    ∷ Change.status JobStatus.running
    ∷ Change.phase "running_safactory"
    ∷ Change.started_at (some (get_or job.started_at (timestamp t)))
    ∷ []

unfoldable pub controller_kept : ControlJob → String → ℕ → List Change
unfolding state_value
controller_kept job rjob_id t =
    Change.safactory_rjob_id (some rjob_id)
    ∷ Change.safactory_status (some (state_value RJobState.pending))
    ∷ Change.started_at (some (get_or job.started_at (timestamp t)))
    ∷ []

-- `except JobStateConflict`: a close has won, and the RJob's id is kept for the cleanup.
unfoldable pub keep_rjob_id : Context → ControlJob → String → ℕ → Failure → M ControlJob
unfolding controller_kept
keep_rjob_id ctx job rjob_id t job_state_conflict =
    update_at ctx job.job_id t (controller_kept job rjob_id t)
keep_rjob_id ctx job rjob_id t e = raise e

-- `_submit_safactory` once there is a Gateway URL.
unfoldable pub submit_controller : Context → ControlJob → JobFileBinding → String → M ControlJob
unfolding controller_spec create controller_submitted keep_rjob_id
submit_controller ctx job binding gateway_url = do
  spec ← controller_spec ctx job binding gateway_url
  rjob_id ← create ctx spec
  t ← now ctx.env
  submitted ←
      try_catch (update_at ctx job.job_id t (controller_submitted job rjob_id t))
        (keep_rjob_id ctx job rjob_id t)
  event ctx submitted "safactory_rjob_submitted" (("rjob_id", text rjob_id) ∷ [])
  pure submitted

unfoldable pub with_gateway_url : Option String → (String → M ControlJob) → M ControlJob
with_gateway_url none f = raise runtime_error
with_gateway_url (some url) f = if is_empty url then raise runtime_error else f url

-- `_submit_safactory`, without its log line.
unfoldable pub submit_safactory : Context → ControlJob → JobFileBinding → M ControlJob
unfolding with_gateway_url submit_controller
submit_safactory ctx job binding =
    with_gateway_url job.gateway_url (submit_controller ctx job binding)
