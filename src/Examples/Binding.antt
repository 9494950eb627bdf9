-- ===== src/Examples/Binding.antt =====
-- The theorems on the file manager at one range with one environment.
use Prim.Native.String.{String, ◌++◌ as ◌<>◌}
use safactory_server.Base.{
  pos, true, not, none, some, [], ◌∷◌, same_text, select, if◌then◌else◌, ◌≡◌, refl,
}
use safactory_server.Json.{Json, text, int, array, object, nil, cons, end, field}
use safactory_server.Store.Failure.{json_decode_error, type_error, ok, raised}
use safactory_server.Files.{JobFileBinding}
use safactory_server.Files.Sources.{FileManager, behind_colon}
use safactory_server.Files.Render.{rendered_mounts}
use safactory_server.Platform.Values.{get}
use safactory_server.Files.Text.{Codec, binding_json, to_json, from_json}
use safactory_server.Files.RoundTrip.{from_json-to_json}
use safactory_server.Files.Publish.{
  no_fault, no_write, Storage, published, directory_of, checked_range, bind,
}
use safactory_server.Files.Mounts.{at_target, rendered_mounts_sole}
use safactory_server.Files.Immutable.{IsOf}
use safactory_server.Files.Bound.{bind_keeps, bind_again}
use safactory_server.Examples.Inputs.{a_catalog, a_range}

abbrev an_agent : Json
an_agent = object (
    field "environments"
      (array (
        cons
          (object (
            field "env_name" (text "e") (
              field "env_image" (text "i")
                (field "env_num" (int (pos 2)) (field "env_params" (object end) end)))))
          nil))
      end)

abbrev a_start : Json
a_start = object (
    field "agent_name" (text "e") (
      field "container"
        (object (field "runner_entrypoint" (object (field "command" (text "c") end)) end))
        (field "rjob"
          (object (field "mount_config" (array (cons (text "/x:/app/results") nil)) end)) end)))

abbrev a_manager : FileManager
a_manager = record {
  root = "/in";
  rjob_root = "/in";
  results_root = "/out";
  results_rjob_root = "/out";
  input_target = "/mnt";
  result_target = "/app/results";
  gateway_config = end;
  gateway_config_mount_dir = "/app";
  gateway_config_filename = "g.yaml";
  catalog = a_catalog;
  resolve_source = λ t. t;
  parent = λ t. "/";
  is_file = λ t. true;
  read_yaml = λ t. if same_text t "/a.yaml" then some an_agent else some a_start;
  read_text = λ t. some "{}";
  splitlines = λ t. t ∷ [];
  strip = λ t. t;
  json_loads = λ t. some (object end);
  dump_yaml = λ fs. "y";
  sha256 = λ t. "h";
}

abbrev a_bound : JobFileBinding
a_bound = record {
  job_id = "job_1";
  range_id = "r";
  input_local_path = "/in/job_1";
  input_source = "/in/job_1";
  input_target = "/mnt";
  result_local_path = "/out/job_1";
  result_source = "/out/job_1";
  result_target = "/app/results";
  agent_config_path = "/mnt/config.yaml";
  agent_start_config_path = "/mnt/groups/e/start.rjob.yaml";
  agent_config_checksum = "h";
  groups =
      record {
        env_name = "e";
        env_image = "i";
        env_num = 2;
        dataset_records = 1;
        dataset_checksum = "h";
        start_config_checksum = "h";
      }
      ∷ [];
  total_episodes = 2;
  launcher_rjob_config_path = none;
  launcher_rjob_config_checksum = "";
  gateway_config_source = "/in/job_1/gateway";
  gateway_config_path = "/app/g.yaml";
  gateway_config_checksum = "h";
}

abbrev named_in : Json → String
named_in (text t) = t
named_in other = ""

-- The job that a document names.
abbrev job_named : Json → String
job_named (object fs) = named_in (get "job_id" fs)
job_named other = ""

abbrev a_codec : Codec
a_codec = record {
  json_dumps = λ j. "binding of " <> job_named j;
  json_loads = λ t.
      if same_text t "binding of job_1"
      then ok (binding_json a_bound)
      else raised json_decode_error;
  untyped = λ j. raised type_error;
}

abbrev old_storage : Storage
old_storage = ("job_0", published "old" []) ∷ []

dumped : a_codec.json_loads (a_codec.json_dumps (binding_json a_bound)) ≡ ok (binding_json a_bound)
unfolding binding_json get
dumped = refl

from_json-to_json_example : from_json a_codec (to_json a_codec a_bound) ≡ ok a_bound
from_json-to_json_example = from_json-to_json a_codec a_bound dumped

job_bound : (bind a_manager a_codec 0 no_fault "job_1" "r" old_storage).0 ≡ ok a_bound
unfolding bind
job_bound = refl

range_checked : checked_range a_manager 1 "job_1" "r" ≡ ok a_range
unfolding checked_range
range_checked = refl

old_there : directory_of "job_0" old_storage ≡ published "old" []
unfolding directory_of
old_there = refl

plain : behind_colon "/app/results" ≡ none
unfolding behind_colon
plain = refl

bind_keeps_example :
    directory_of "job_0" (bind a_manager a_codec 0 no_fault "job_1" "r" old_storage).1
    ≡ published "old" []
bind_keeps_example =
    bind_keeps a_manager a_codec 0 no_fault "job_1" "r" old_storage "job_0" "old" [] old_there

bind_again_example :
    IsOf "job_1" "r" a_bound
    × (bind a_manager a_codec 1 no_write "job_1" "r"
          (bind a_manager a_codec 0 no_fault "job_1" "r" old_storage).1
        ≡ (ok a_bound, (bind a_manager a_codec 0 no_fault "job_1" "r" old_storage).1))
bind_again_example =
    bind_again a_manager a_codec "job_1" "r" 0 1 no_fault no_write old_storage a_bound a_range
      dumped job_bound range_checked refl

rendered_mounts_sole_example :
    (select
        (at_target "/app/results")
        (rendered_mounts "/app/results" "/out/job_1" (text "/x:/app/results" ∷ []))
      ≡ text ("/out/job_1" <> ":" <> "/app/results") ∷ [])
    × (select
          (λ m. not (at_target "/app/results" m))
          (rendered_mounts "/app/results" "/out/job_1" (text "/x:/app/results" ∷ []))
        ≡ select (λ m. not (at_target "/app/results" m)) (text "/x:/app/results" ∷ []))
rendered_mounts_sole_example =
    rendered_mounts_sole "/app/results" "/out/job_1" (text "/x:/app/results" ∷ []) plain
