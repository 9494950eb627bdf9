-- ===== src/Files/Publish.antt =====
-- `bind` of file_manager.py: the publication of a job's input directory.
use Prim.Native.String.{String}
use safactory_server.Base.{ℕ, ◌&&◌, Option, none, some, List, [], ◌∷◌, same_text, if◌then◌else◌}
use safactory_server.Store.Failure.{file_binding_error, os_error, Outcome, ok, raised}
use safactory_server.Outcomes.{◌>>=◌, ◌>>◌, require}
use safactory_server.Catalog.{RangeConfig, resolve_range}
use safactory_server.Runtime.Artifacts.{is_safe_name}
use safactory_server.Files.{JobFileBinding}
use safactory_server.Files.Sources.{FileManager}
use safactory_server.Files.Text.{Codec, to_json, from_json}
use safactory_server.Files.Render.{Rendered, StagedFile, render_binding}

-- The input directory of a job: there is none, there is one without `.binding.json`, or it was
-- published with that text and those files.
pub data InputDirectory : Type 0 where
  missing partial : InputDirectory
  published : String → List StagedFile → InputDirectory

-- The input directories by job, the first entry of a job counting.
abbrev pub Storage : Type 0
Storage = List (String × InputDirectory)

unfoldable pub directory_of : String → Storage → InputDirectory
directory_of job_id [] = missing
directory_of job_id ((k, directory) ∷ storage) =
    let rest = directory_of job_id storage in if same_text k job_id then directory else rest

-- What the file system refuses to a call: nothing, the text of `.binding.json`, the staging directory,
-- or a write into it.
pub data Fault : Type 0 where
  no_fault unreadable no_staging no_write : Fault

unfoldable pub available_range : Option RangeConfig → Outcome RangeConfig
available_range none = raised file_binding_error
available_range (some range_config) =
    if range_config.available then ok range_config else raised file_binding_error

-- The checks of `bind` before it looks at the storage.
unfoldable pub checked_range : FileManager → ℕ → String → String → Outcome RangeConfig
unfolding resolve_range available_range is_safe_name
checked_range fm n job_id range_id = do
  require (is_safe_name job_id) file_binding_error
  found ← resolve_range fm.catalog n range_id
  available_range found

-- `binding.job_id != job_id or binding.range_id != range_id`.
unfoldable pub matching : String → String → JobFileBinding → Outcome JobFileBinding
matching job_id range_id binding =
    if same_text binding.job_id job_id && same_text binding.range_id range_id
    then ok binding
    else raised file_binding_error

-- The publication of what was rendered, which `os.replace` makes at once, if no write fails.
unfoldable pub publish :
    Codec → Fault → String → Outcome Rendered → Storage → Outcome JobFileBinding × Storage
unfolding to_json
publish codec no_staging job_id o storage = (raised os_error, storage)
publish codec no_write job_id (raised e) storage = (raised e, storage)
publish codec no_write job_id (ok rendered) storage = (raised file_binding_error, storage)
publish codec no_fault job_id (raised e) storage = (raised e, storage)
publish codec no_fault job_id (ok rendered) storage = (
  ok rendered.binding,
  (job_id, published (to_json codec rendered.binding) rendered.files) ∷ storage,
)
publish codec unreadable job_id (raised e) storage = (raised e, storage)
publish codec unreadable job_id (ok rendered) storage = (
  ok rendered.binding,
  (job_id, published (to_json codec rendered.binding) rendered.files) ∷ storage,
)

-- The binding that is there, which is read outside the `try`.
unfoldable pub published_binding : Codec → Fault → String → Outcome JobFileBinding
unfolding from_json
published_binding codec unreadable content = raised os_error
published_binding codec no_fault content = from_json codec content
published_binding codec no_staging content = from_json codec content
published_binding codec no_write content = from_json codec content

unfoldable pub bind_in :
    FileManager
    → Codec
    → Fault
    → String
    → String
    → RangeConfig
    → InputDirectory
    → Storage
    → Outcome JobFileBinding × Storage
unfolding matching publish published_binding render_binding
bind_in fm codec fault job_id range_id range_config (published content files) storage =
    (published_binding codec fault content >>= matching job_id range_id, storage)
bind_in fm codec fault job_id range_id range_config partial storage =
    (raised file_binding_error, storage)
bind_in fm codec fault job_id range_id range_config missing storage =
    publish codec fault job_id (render_binding fm job_id range_config) storage

unfoldable pub bind_checked :
    FileManager
    → Codec
    → Fault
    → String
    → String
    → Outcome RangeConfig
    → Storage
    → Outcome JobFileBinding × Storage
unfolding bind_in directory_of
bind_checked fm codec fault job_id range_id (raised e) storage = (raised e, storage)
bind_checked fm codec fault job_id range_id (ok range_config) storage =
    bind_in fm codec fault job_id range_id range_config (directory_of job_id storage) storage

-- `bind`, at a number of the catalog's access and with what the file system refuses to it.
unfoldable pub bind :
    FileManager → Codec → ℕ → Fault → String → String → Storage → Outcome JobFileBinding × Storage
unfolding bind_checked checked_range
bind fm codec n fault job_id range_id storage =
    bind_checked fm codec fault job_id range_id (checked_range fm n job_id range_id) storage
