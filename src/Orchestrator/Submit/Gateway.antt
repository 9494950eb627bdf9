-- ===== src/Orchestrator/Submit/Gateway.antt =====
-- `_submit_gateway` of orchestrator.py.
use safactory_server.Base.{String, none, some, List, [], ◌∷◌, true}
use safactory_server.Json.{text, object}
use safactory_server.Store.Row.{ControlJob, Change}
use safactory_server.RJob.{RJobState, state_value, RJobSpec, gateway_command}
use safactory_server.Files.{JobFileBinding}
use safactory_server.Settings.{GatewayModelConfig}
use safactory_server.Exec.{Context, M, pure, lift, ◌>>=◌, ◌>>◌}
use safactory_server.Orchestrator.Names.{safe_rjob_name, merge, ◌<>◌}
use safactory_server.Orchestrator.Config.{json_object, string_environment}
use safactory_server.Orchestrator.Submit.Common.{
  stored_model, common_environment, labels_of, create,
}
use safactory_server.Orchestrator.Steps.{update_job, event}

-- The environment of the Gateway's RJob.
unfoldable pub gateway_environment :
    Context → ControlJob → GatewayModelConfig → List (String × String) → List (String × String)
unfolding merge
gateway_environment ctx job model database =
    merge
      (merge (merge model.environment database)
        (common_environment ctx.settings job ctx.settings.gateway_workdir))
      (("SAFACTORY_MODEL_ROUTE", ctx.lib.json_dumps (object model.route))
        ∷ ("GATEWAY_LISTEN_PORT", ctx.lib.decimal ctx.settings.gateway_port)
        ∷ [])

-- The specification that `_submit_gateway` builds.
unfoldable pub gateway_spec : Context → ControlJob → JobFileBinding → M RJobSpec
unfolding stored_model gateway_environment safe_rjob_name gateway_command
gateway_spec ctx job binding = do
  model ← lift (stored_model (ctx.lib.load_gateway_model job.model_gateway_json))
  fields ← lift (json_object ctx.lib ctx.settings.database_environment_json)
  database ← lift (string_environment ctx.lib fields)
  resources ← lift (json_object ctx.lib ctx.settings.gateway_resources_json)
  requests ← lift (json_object ctx.lib ctx.settings.gateway_requests_json)
  pure (record {
    name = safe_rjob_name ctx.lib.lower (ctx.settings.gateway_name_prefix <> "-" <> job.job_id);
    idempotency_key = job.job_id <> ":gateway";
    namespace = ctx.settings.rjob_namespace;
    charged_group = ctx.settings.charged_group;
    image = job.gateway_image;
    image_pull_policy = ctx.settings.image_pull_policy;
    role = "gateway";
    labels = labels_of job "gateway";
    environment = gateway_environment ctx job model database;
    command = gateway_command ctx.lib.text_repr binding.gateway_config_path;
    working_dir = ctx.settings.gateway_workdir;
    mounts =
        record {
          source = binding.gateway_config_source;
          target = ctx.settings.gateway_config_mount_dir;
          read_only = true;
        }
        ∷ [];
    resources = resources;
    requests = requests;
    timeout_seconds = ctx.settings.safactory_timeout_seconds;
    daemon = true;
    restart_policy = ctx.settings.rjob_restart_policy;
    private_machine = some ctx.settings.rjob_private_machine;
    host_network = ctx.settings.rjob_host_network;
    auto_delete_duration = some ctx.settings.rjob_auto_delete_duration;
    max_running_duration = none;
  })

unfoldable pub gateway_submitted : String → List Change
unfolding state_value
gateway_submitted rjob_id =
    Change.gateway_rjob_id (some rjob_id)
    ∷ Change.gateway_status (some (state_value RJobState.pending))
    ∷ Change.phase "waiting_gateway_address"
    ∷ []

-- `_submit_gateway`.
unfoldable pub submit_gateway : Context → ControlJob → JobFileBinding → M ControlJob
unfolding gateway_spec create gateway_submitted
submit_gateway ctx job binding = do
  spec ← gateway_spec ctx job binding
  rjob_id ← create ctx spec
  submitted ← update_job ctx job.job_id (gateway_submitted rjob_id)
  event ctx submitted "gateway_rjob_submitted" (("rjob_id", text rjob_id) ∷ [])
  pure submitted
