-- ===== src/Files/Sources.antt =====
-- What `SharedFileManager` of file_manager.py reads and checks before it renders a job: YAML documents,
-- datasets, start configurations and mounts.
use Prim.Native.Char.{code}
use Prim.Native.String.{String, ◌++◌ as ◌<>◌}
use safactory_server.Base.{
  ℕ, Bool, false, not, ◌==◌, ◌||◌, Option, none, some, List, [], ◌∷◌, length, select, all,
  same_text, if◌then◌else◌,
}
use safactory_server.Json.{Json, text, array, object, Fields, end, field}
use safactory_server.Text.{is_empty, lstrip, rstrip, is_slash}
use safactory_server.Store.Failure.{file_binding_error, Outcome, ok, raised}
use safactory_server.Outcomes.{◌>>=◌, ◌>>◌, require}
use safactory_server.Platform.Values.{get}
use safactory_server.Platform.Rows.{is_object}
use safactory_server.Platform.Sessions.{items_of, is_same}
use safactory_server.Catalog.{RealCatalog, is_filled}

-- What a manager is made with, as the constructor normalises it, and what it calls. `read_yaml` gives the
-- value of a YAML file and `read_text` the text of a file, if they can be read; `resolve_source` is the
-- catalog's, `parent` the directory of a path, and `is_file` whether a path names a file.
pub record FileManager : Type 0 where
  pub root : String
  pub rjob_root : String
  pub results_root : String
  pub results_rjob_root : String
  pub input_target : String
  pub result_target : String
  pub gateway_config : Fields
  pub gateway_config_mount_dir : String
  pub gateway_config_filename : String
  pub catalog : RealCatalog
  pub resolve_source : String → String
  pub parent : String → String
  pub is_file : String → Bool
  pub read_yaml : String → Option Json
  pub read_text : String → Option String
  pub splitlines : String → List String
  pub strip : String → String
  pub json_loads : String → Option Json
  pub dump_yaml : Fields → String
  pub sha256 : String → String

-- `_join_source`.
unfoldable pub join_source : String → String → String
unfolding rstrip lstrip
join_source root child = rstrip is_slash root <> "/" <> lstrip is_slash child

abbrev pub later_or : Option String → Option String → Option String
later_or none other = other
later_or (some t) other = some t

-- `value.rsplit(":", maxsplit=1)[1]`, if there is a colon.
unfoldable pub behind_colon : String → Option String
behind_colon String.[] = none
behind_colon (String.◌∷◌ c s) =
    let rest = behind_colon s in later_or rest (if code c == b':' then some s else none)

abbrev pub text_or_none : Json → Option String
text_or_none (text t) = some t
text_or_none other = none

-- `_mount_target`.
unfoldable pub mount_target : Json → Option String
unfolding behind_colon get
mount_target (text t) = behind_colon t
mount_target (object fs) = text_or_none (get "target" fs)
mount_target other = none

abbrev pub is_target : String → Option String → Bool
is_target target none = false
is_target target (some t) = same_text t target

unfoldable pub any_target : String → List Json → Bool
unfolding mount_target
any_target target [] = false
any_target target (m ∷ mounts) = is_target target (mount_target m) || any_target target mounts

unfoldable pub as_object : Json → Outcome Fields
as_object (object fs) = ok fs
as_object other = raised file_binding_error

-- `isinstance(value, str) and value.strip()`.
unfoldable pub as_filled : FileManager → Json → Outcome String
as_filled fm (text t) = if is_empty (fm.strip t) then raised file_binding_error else ok t
as_filled fm other = raised file_binding_error

-- `isinstance(value, list) and value`.
unfoldable pub as_entries : Json → Outcome (List Json)
unfolding items_of
as_entries (array xs) = require (is_filled (items_of xs)) file_binding_error >> ok (items_of xs)
as_entries other = raised file_binding_error

abbrev pub object_read : Option Json → Outcome Fields
object_read (some (object fs)) = ok fs
object_read none = raised file_binding_error
object_read (some other) = raised file_binding_error

-- `_read_yaml`.
unfoldable pub read_yaml : FileManager → String → Outcome Fields
read_yaml fm path = object_read (fm.read_yaml path)

abbrev is_record : Option Json → Bool
is_record none = false
is_record (some j) = is_object j

unfoldable pub dataset_of : FileManager → Option String → Outcome (String × ℕ)
unfolding select all
dataset_of fm none = raised file_binding_error
dataset_of fm (some content) = do
  let lines = select (λ line. not (is_empty (fm.strip line))) (fm.splitlines content)
  require (is_filled lines) file_binding_error
  require (all (λ line. is_record (fm.json_loads line)) lines) file_binding_error
  ok (content, length lines)

-- `_read_dataset`: the content and the number of its records.
unfoldable pub read_dataset : FileManager → String → Outcome (String × ℕ)
unfolding dataset_of
read_dataset fm path = dataset_of fm (fm.read_text path)

-- The parts of a start configuration that the rendering reads.
pub record StartConfig : Type 0 where
  pub entrypoint : Fields
  pub rjob : Fields
  pub mounts : List Json

-- `_validate_start_config`, with the parts that it has checked.
unfoldable pub validate_start_config : Fields → String → String → Outcome StartConfig
unfolding as_object as_entries any_target get
validate_start_config document env_name result_target = do
  require (is_same env_name (get "agent_name" document)) file_binding_error
  container ← as_object (get "container" document)
  entrypoint ← as_object (get "runner_entrypoint" container)
  rjob ← as_object (get "rjob" document)
  mounts ← as_entries (get "mount_config" rjob)
  require (any_target result_target mounts) file_binding_error
  ok (record { entrypoint = entrypoint; rjob = rjob; mounts = mounts })

-- `_validate_launcher_rjob_config`.
unfoldable pub validate_launcher_rjob_config : Fields → Outcome (Unit {0})
unfolding as_object get
validate_launcher_rjob_config document = do
  rjob ← as_object (get "rjob" document)
  elim rjob [ end ↦ raised file_binding_error | field k v fs ↦ ok tt ]

-- `name in d`.
unfoldable pub has_field : String → Fields → Bool
has_field name end = false
has_field name (field k v fs) = same_text k name || has_field name fs

abbrev pub is_absolute : String → Bool
is_absolute String.[] = false
is_absolute (String.◌∷◌ c s) = code c == b'/'

unfoldable pub check_source : FileManager → Fields → String → Outcome (Unit {0})
unfolding as_filled get
check_source fm entrypoint source_dir = do
  source ← as_filled fm (get "source" entrypoint)
  require (is_absolute source || fm.is_file (source_dir <> "/" <> source)) file_binding_error

-- `_validate_runner_entrypoint`.
unfoldable pub validate_runner_entrypoint : FileManager → Fields → String → Outcome (Unit {0})
unfolding as_filled has_field check_source get
validate_runner_entrypoint fm entrypoint source_dir = do
  as_filled fm (get "command" entrypoint)
  if has_field "source" entrypoint then check_source fm entrypoint source_dir else ok tt
