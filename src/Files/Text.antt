-- ===== src/Files/Text.antt =====
-- `JobFileBinding.to_json` and `JobFileBinding.from_json` of file_manager.py.
use Prim.Native.String.{String, ◌++◌ as ◌<>◌}
use safactory_server.Base.{
  ℕ, pos, Bool, true, false, ◌&&◌, Option, none, some, List, [], ◌∷◌, if◌then◌else◌,
}
use safactory_server.Json.{
  Json, null, int, text, array, object, Items, nil, cons, Fields, end, field,
}
use safactory_server.Text.{is_empty}
use safactory_server.Store.Failure.{
  Failure, key_error, type_error, file_binding_error, Outcome, ok, raised,
}
use safactory_server.Platform.Values.{get}
use safactory_server.Platform.Sessions.{is_among}
use safactory_server.Files.{EnvironmentBinding, JobFileBinding}
use safactory_server.Files.Sources.{has_field, join_source}

-- `json.dumps` and `json.loads`, and what `from_json` makes of a document in which a known field has a
-- value of another type than the class declares: the class takes any value, and a `JobFileBinding`
-- here holds values of the declared types only, so that is arbitrary.
pub record Codec : Type 0 where
  pub json_dumps : Json → String
  pub json_loads : String → Outcome Json
  pub untyped : Json → Outcome JobFileBinding

abbrev pub number : ℕ → Json
number n = int (pos n)

-- `asdict` of a group, in the order of its keys.
unfoldable pub group_json : EnvironmentBinding → Json
group_json g = object (
    field "dataset_checksum" (text g.dataset_checksum) (
      field "dataset_records" (number g.dataset_records) (
        field "env_image" (text g.env_image) (
          field "env_name" (text g.env_name) (
            field "env_num" (number g.env_num)
              (field "start_config_checksum" (text g.start_config_checksum) end))))))

unfoldable pub groups_json : List EnvironmentBinding → Items
unfolding group_json
groups_json [] = nil
groups_json (g ∷ groups) = cons (group_json g) (groups_json groups)

abbrev pub path_json : Option String → Json
path_json none = null
path_json (some t) = text t

-- `asdict(self)`, in the order of its keys, as `sort_keys` writes it.
unfoldable pub binding_json : JobFileBinding → Json
unfolding groups_json
binding_json b = object (
    field "agent_config_checksum" (text b.agent_config_checksum) (
      field "agent_config_path" (text b.agent_config_path) (
        field "agent_start_config_path" (text b.agent_start_config_path) (
          field "gateway_config_checksum" (text b.gateway_config_checksum) (
            field "gateway_config_path" (text b.gateway_config_path) (
              field "gateway_config_source" (text b.gateway_config_source) (
                field "groups" (array (groups_json b.groups)) (
                  field "input_local_path" (text b.input_local_path) (
                    field "input_source" (text b.input_source) (
                      field "input_target" (text b.input_target) (
                        field "job_id" (text b.job_id) (
                          field "launcher_rjob_config_checksum"
                            (text b.launcher_rjob_config_checksum)
                            (field "launcher_rjob_config_path"
                              (path_json b.launcher_rjob_config_path)
                              (field "range_id" (text b.range_id) (
                                field "result_local_path" (text b.result_local_path) (
                                  field "result_source" (text b.result_source) (
                                    field "result_target" (text b.result_target) (
                                      field "total_episodes" (number b.total_episodes)
                                        end))))))))))))))))))

-- `to_json`.
unfoldable pub to_json : Codec → JobFileBinding → String
unfolding binding_json
to_json codec b = codec.json_dumps (binding_json b)

-- A step of the reading: a value, an exception, or a value of another type than the declared one.
pub data Read {ℓ} (A : Type ℓ) : Type ℓ where
  found : A → Read A
  fails : Failure → Read A
  mistyped : Read A

infixl 5 ◌>>=◌ ◌>>◌
abbrev pub ◌>>=◌ : {A B : Type 0} → Read A → (A → Read B) → Read B
found a >>= f = f a
fails e >>= f = fails e
mistyped >>= f = mistyped

abbrev pub ◌>>◌ : {A B : Type 0} → Read A → Read B → Read B
m >> k = m >>= λ _. k

abbrev pub ensure : Bool → Failure → Read (Unit {0})
ensure true e = found tt
ensure false e = fails e

abbrev pub as_text : Json → Read String
as_text (text t) = found t
as_text other = mistyped

abbrev pub as_number : Json → Read ℕ
as_number (int (pos n)) = found n
as_number other = mistyped

abbrev pub as_path : Json → Read (Option String)
as_path null = found none
as_path (text t) = found (some t)
as_path other = mistyped

-- The value of a key that is there, and the exception where it is missing: KeyError for `raw[name]`,
-- TypeError for an argument of the class.
unfoldable pub field_or : Failure → String → Fields → Read Json
unfolding has_field get
field_or e name fs = if has_field name fs then found (get name fs) else fails e

-- The value behind `raw.setdefault(name, default)`.
unfoldable pub or_default : String → Json → Fields → Json
unfolding has_field get
or_default name default fs = if has_field name fs then get name fs else default

-- Every key is a field of the class.
unfoldable pub has_only : List String → Fields → Bool
unfolding is_among
has_only names end = true
has_only names (field k v fs) = is_among k names && has_only names fs

abbrev group_names : List String
group_names =
    "env_name" ∷ "env_image" ∷ "env_num" ∷ "dataset_records" ∷ "dataset_checksum"
    ∷ "start_config_checksum" ∷ []

unfoldable pub read_group_fields : Fields → Read EnvironmentBinding
unfolding has_only field_or
read_group_fields fs = do
  ensure (has_only group_names fs) type_error
  env_name ← field_or type_error "env_name" fs >>= as_text
  env_image ← field_or type_error "env_image" fs >>= as_text
  env_num ← field_or type_error "env_num" fs >>= as_number
  dataset_records ← field_or type_error "dataset_records" fs >>= as_number
  dataset_checksum ← field_or type_error "dataset_checksum" fs >>= as_text
  start_config_checksum ← field_or type_error "start_config_checksum" fs >>= as_text
  found (record {
    env_name = env_name;
    env_image = env_image;
    env_num = env_num;
    dataset_records = dataset_records;
    dataset_checksum = dataset_checksum;
    start_config_checksum = start_config_checksum;
  })

-- `EnvironmentBinding(**item)`.
unfoldable pub read_group : Json → Read EnvironmentBinding
unfolding read_group_fields
read_group (object fs) = read_group_fields fs
read_group other = fails type_error

unfoldable pub read_groups : Items → Read (List EnvironmentBinding)
unfolding read_group
read_groups nil = found []
read_groups (cons j js) = do group ← read_group j; groups ← read_groups js; found (group ∷ groups)

-- The iteration over `raw["groups"]`: an entry of a text or of an object is a text, which is no mapping.
unfoldable pub read_all_groups : Json → Read (List EnvironmentBinding)
unfolding read_groups
read_all_groups (array items) = read_groups items
read_all_groups (object end) = found []
read_all_groups (text t) = if is_empty t then found [] else fails type_error
read_all_groups other = fails type_error

-- The path of the start configuration of a binding that does not name it.
unfoldable pub legacy_start : List EnvironmentBinding → Fields → Read Json
unfolding field_or
legacy_start [] fs = fails file_binding_error
legacy_start (g ∷ []) fs = do
  input_target ← field_or key_error "input_target" fs >>= as_text
  found (text (input_target <> "/groups/" <> g.env_name <> "/start.rjob.yaml"))
legacy_start (g ∷ h ∷ groups) fs = fails file_binding_error

unfoldable pub start_value : List EnvironmentBinding → Fields → Read Json
unfolding legacy_start has_field get
start_value groups fs =
    if has_field "agent_start_config_path" fs
    then found (get "agent_start_config_path" fs)
    else legacy_start groups fs

abbrev binding_names : List String
binding_names =
    "job_id" ∷ "range_id" ∷ "input_local_path" ∷ "input_source" ∷ "input_target"
    ∷ "result_local_path" ∷ "result_source" ∷ "result_target" ∷ "agent_config_path"
    ∷ "agent_start_config_path" ∷ "agent_config_checksum" ∷ "groups" ∷ "total_episodes"
    ∷ "launcher_rjob_config_path" ∷ "launcher_rjob_config_checksum" ∷ "gateway_config_source"
    ∷ "gateway_config_path" ∷ "gateway_config_checksum" ∷ []

-- `from_json` behind `json.loads`, on a mapping.
unfoldable pub read_fields : Fields → Read JobFileBinding
unfolding field_or read_all_groups or_default start_value has_only join_source
read_fields fs = do
  groups ← field_or key_error "groups" fs >>= read_all_groups
  input_source ← field_or key_error "input_source" fs >>= as_text
  result_source ← field_or key_error "result_source" fs >>= as_text
  start ← start_value groups fs
  ensure (has_only binding_names fs) type_error
  job_id ← field_or type_error "job_id" fs >>= as_text
  range_id ← field_or type_error "range_id" fs >>= as_text
  input_local_path ← as_text (or_default "input_local_path" (text input_source) fs)
  input_target ← field_or type_error "input_target" fs >>= as_text
  result_local_path ← as_text (or_default "result_local_path" (text result_source) fs)
  result_target ← field_or type_error "result_target" fs >>= as_text
  agent_config_path ← field_or type_error "agent_config_path" fs >>= as_text
  agent_start_config_path ← as_text start
  agent_config_checksum ← field_or type_error "agent_config_checksum" fs >>= as_text
  total_episodes ← field_or type_error "total_episodes" fs >>= as_number
  launcher_path ← as_path (or_default "launcher_rjob_config_path" null fs)
  launcher_checksum ← as_text (or_default "launcher_rjob_config_checksum" (text "") fs)
  gateway_source ←
      as_text (or_default "gateway_config_source" (text (join_source input_source "gateway")) fs)
  gateway_path ←
      as_text (or_default "gateway_config_path" (text "/app/runtime-config/gateway.yaml") fs)
  gateway_checksum ← as_text (or_default "gateway_config_checksum" (text "") fs)
  found (record {
    job_id = job_id;
    range_id = range_id;
    input_local_path = input_local_path;
    input_source = input_source;
    input_target = input_target;
    result_local_path = result_local_path;
    result_source = result_source;
    result_target = result_target;
    agent_config_path = agent_config_path;
    agent_start_config_path = agent_start_config_path;
    agent_config_checksum = agent_config_checksum;
    groups = groups;
    total_episodes = total_episodes;
    launcher_rjob_config_path = launcher_path;
    launcher_rjob_config_checksum = launcher_checksum;
    gateway_config_source = gateway_source;
    gateway_config_path = gateway_path;
    gateway_config_checksum = gateway_checksum;
  })

-- A value that is no mapping cannot be subscripted by a text.
unfoldable pub read_document : Json → Read JobFileBinding
unfolding read_fields
read_document (object fs) = read_fields fs
read_document other = fails type_error

unfoldable pub settle : Codec → Json → Read JobFileBinding → Outcome JobFileBinding
settle codec document (found b) = ok b
settle codec document (fails e) = raised e
settle codec document mistyped = codec.untyped document

unfoldable pub of_document : Codec → Outcome Json → Outcome JobFileBinding
unfolding settle read_document
of_document codec (raised e) = raised e
of_document codec (ok document) = settle codec document (read_document document)

-- `from_json`. An object has each key once.
unfoldable pub from_json : Codec → String → Outcome JobFileBinding
unfolding of_document
from_json codec value = of_document codec (codec.json_loads value)
