-- ===== src/Files/Render.antt =====
-- `_render_binding` of file_manager.py.
use Prim.Native.String.{String, ◌++◌ as ◌<>◌}
use safactory_server.Base.{
  ℕ, suc, ◌*◌, pos, Bool, not, ◌&&◌, Option, none, some, List, [], ◌∷◌, ◌++◌, map, all, select,
  same_text, if◌then◌else◌,
}
use safactory_server.Json.{Json, int, text, array, object, Items, nil, cons, Fields, end, field}
use safactory_server.Store.Failure.{key_error, file_binding_error, Outcome, ok, raised}
use safactory_server.Outcomes.{◌>>=◌, ◌>>◌, require}
use safactory_server.Platform.Values.{get}
use safactory_server.Platform.Sessions.{is_among}
use safactory_server.Catalog.{RangeConfig, RangeGroupConfig}
use safactory_server.Runtime.Artifacts.{is_safe_name, join_path}
use safactory_server.Files.{EnvironmentBinding, JobFileBinding}
use safactory_server.Files.Sources.{
  FileManager, StartConfig, join_source, mount_target, is_target, as_object, as_filled, as_entries,
  read_yaml, read_dataset, validate_start_config, validate_launcher_rjob_config,
  validate_runner_entrypoint,
}

-- `d[name] = value`.
unfoldable pub set_field : String → Json → Fields → Fields
set_field name value end = field name value end
set_field name value (field k v fs) =
    let rest = set_field name value fs in
    if same_text k name then field k value fs else field k v rest

abbrev pub to_items : List Json → Items
to_items [] = nil
to_items (x ∷ xs) = cons x (to_items xs)

unfoldable pub safe_text : Json → Outcome String
unfolding is_safe_name
safe_text (text t) = if is_safe_name t then ok t else raised file_binding_error
safe_text other = raised file_binding_error

-- The loop that fills `environment_by_name`, after the names that are in it.
unfoldable pub environments_by_name : List String → List Json → Outcome (List (String × Fields))
unfolding as_object safe_text is_among get
environments_by_name seen [] = ok []
environments_by_name seen (j ∷ js) = do
  environment ← as_object j
  name ← safe_text (get "env_name" environment)
  require (not (is_among name seen)) file_binding_error
  rest ← environments_by_name (name ∷ seen) js
  ok ((name, environment) ∷ rest)

-- `set(names) == set(declared)`.
abbrev pub same_names : List String → List String → Bool
same_names names declared =
    all (λ n. is_among n declared) names && all (λ n. is_among n names) declared

-- The one group of a range.
unfoldable pub only_group : List RangeGroupConfig → Outcome RangeGroupConfig
only_group [] = raised file_binding_error
only_group (group ∷ []) = ok group
only_group (group ∷ other ∷ groups) = raised file_binding_error

-- `environment_by_name[name]`.
unfoldable pub environment_at : String → List (String × Fields) → Outcome Fields
environment_at name [] = raised key_error
environment_at name ((k, environment) ∷ rest) =
    let later = environment_at name rest in if same_text k name then ok environment else later

-- `isinstance(env_num, int) and env_num >= 1`.
unfoldable pub as_count : Json → Outcome ℕ
as_count (int (pos (suc n))) = ok (suc n)
as_count (int other) = raised file_binding_error
as_count other = raised file_binding_error

-- A file of the staging directory: its path there and its text.
pub record StagedFile : Type 0 where
  pub path : String
  pub content : String

-- The path and the checksum of the launcher's configuration, and its file.
pub record LauncherConfig : Type 0 where
  pub config_path : Option String
  pub checksum : String
  pub files : List StagedFile

unfoldable pub render_launcher : FileManager → Option String → Outcome LauncherConfig
unfolding read_yaml validate_launcher_rjob_config
render_launcher fm none = ok (record { config_path = none; checksum = ""; files = [] })
render_launcher fm (some configured) = do
  document ← read_yaml fm (fm.resolve_source configured)
  validate_launcher_rjob_config document
  let content = fm.dump_yaml document
  ok (record {
    config_path = some (fm.input_target <> "/launcher.rjob.yaml");
    checksum = fm.sha256 content;
    files = record { path = "launcher.rjob.yaml"; content = content } ∷ [];
  })

-- The mounts of a job: those of the configuration with another target, and the job's own results.
unfoldable pub rendered_mounts : String → String → List Json → List Json
unfolding select mount_target
rendered_mounts result_target result_source mounts =
    select (λ m. not (is_target result_target (mount_target m))) mounts
    ++ text (result_source <> ":" <> result_target) ∷ []

unfoldable pub rendered_start : FileManager → String → Fields → StartConfig → Fields
unfolding set_field rendered_mounts
rendered_start fm result_source document start =
    set_field "rjob"
      (object (
        set_field "mount_config"
          (array (to_items (rendered_mounts fm.result_target result_source start.mounts)))
          start.rjob))
      document

-- The pass of the loop over the groups.
pub record RenderedGroup : Type 0 where
  pub binding : EnvironmentBinding
  pub environment : Fields
  pub files : List StagedFile

unfoldable pub render_group :
    FileManager → String → Fields → RangeGroupConfig → Outcome RenderedGroup
unfolding as_filled as_count as_object read_dataset read_yaml validate_start_config
    validate_runner_entrypoint rendered_start set_field get
render_group fm result_source environment group = do
  env_image ← as_filled fm (get "env_image" environment)
  env_num ← as_count (get "env_num" environment)
  env_params ← as_object (get "env_params" environment)
  dataset ← read_dataset fm (fm.resolve_source group.dataset)
  document ← read_yaml fm (fm.resolve_source group.start_config)
  start ← validate_start_config document group.env_name fm.result_target
  validate_runner_entrypoint fm start.entrypoint (fm.parent (fm.resolve_source group.start_config))
  let directory = "groups/" <> group.env_name
  let content = fm.dump_yaml (rendered_start fm result_source document start)
  ok (record {
    binding = record {
      env_name = group.env_name;
      env_image = env_image;
      env_num = env_num;
      dataset_records = dataset.1;
      dataset_checksum = fm.sha256 dataset.0;
      start_config_checksum = fm.sha256 content;
    };
    environment =
        set_field "env_params"
          (object (set_field "safactory_results_root" (text fm.result_target) env_params))
          (set_field "dataset" (text (fm.input_target <> "/" <> directory <> "/dataset.jsonl"))
            environment);
    files =
        record { path = directory <> "/dataset.jsonl"; content = dataset.0 }
        ∷ record { path = directory <> "/start.rjob.yaml"; content = content }
        ∷ [];
  })

-- The entry of `environments` that was rendered, in place of the one it stems from.
unfoldable pub replace_environment : String → Fields → List (String × Fields) → List Json
replace_environment name environment [] = []
replace_environment name environment ((k, e) ∷ rest) =
    (if same_text k name then object environment else object e)
    ∷ replace_environment name environment rest

abbrev pub join_dir : String → String → String
join_dir directory name = if same_text directory "/" then "/" <> name else directory <> "/" <> name

pub record Rendered : Type 0 where
  pub binding : JobFileBinding
  pub files : List StagedFile

unfoldable pub rendered_binding :
    FileManager
    → String
    → RangeConfig
    → RangeGroupConfig
    → LauncherConfig
    → RenderedGroup
    → Fields
    → Rendered
unfolding join_source
rendered_binding fm job_id range_config group launcher rendered agent_document =
    let agent_content = fm.dump_yaml agent_document in
    let gateway_content = fm.dump_yaml fm.gateway_config in
    let input_source = join_source fm.rjob_root job_id in
    record {
      binding = record {
        job_id = job_id;
        range_id = range_config.range_id;
        input_local_path = join_path fm.root job_id;
        input_source = input_source;
        input_target = fm.input_target;
        result_local_path = join_path fm.results_root job_id;
        result_source = join_source fm.results_rjob_root job_id;
        result_target = fm.result_target;
        agent_config_path = fm.input_target <> "/config.yaml";
        agent_start_config_path =
            fm.input_target <> "/groups/" <> group.env_name <> "/start.rjob.yaml";
        agent_config_checksum = fm.sha256 agent_content;
        groups = rendered.binding ∷ [];
        total_episodes = rendered.binding.dataset_records * rendered.binding.env_num;
        launcher_rjob_config_path = launcher.config_path;
        launcher_rjob_config_checksum = launcher.checksum;
        gateway_config_source = join_source input_source "gateway";
        gateway_config_path = join_dir fm.gateway_config_mount_dir fm.gateway_config_filename;
        gateway_config_checksum = fm.sha256 gateway_content;
      };
      files =
          launcher.files
          ++ rendered.files
          ++ record { path = "config.yaml"; content = agent_content }
            ∷ record { path = "gateway/" <> fm.gateway_config_filename; content = gateway_content }
            ∷ [];
    }

-- `_render_binding`, without the copies of the environment's other files.
unfoldable pub render_binding : FileManager → String → RangeConfig → Outcome Rendered
unfolding read_yaml as_entries environments_by_name only_group render_launcher environment_at
    render_group replace_environment rendered_binding join_source set_field get
render_binding fm job_id range_config = do
  agent_document ← read_yaml fm (fm.resolve_source range_config.agent_config)
  environments ← as_entries (get "environments" agent_document)
  by_name ← environments_by_name [] environments
  require (same_names (map (λ e. e.0) by_name) (map (λ g. g.env_name) range_config.groups))
      file_binding_error
  group ← only_group range_config.groups
  launcher ← render_launcher fm range_config.launcher_rjob_config
  environment ← environment_at group.env_name by_name
  rendered ← render_group fm (join_source fm.results_rjob_root job_id) environment group
  let others = replace_environment group.env_name rendered.environment by_name
  ok (
      rendered_binding fm job_id range_config group launcher rendered
        (set_field "environments" (array (to_items others)) agent_document))
