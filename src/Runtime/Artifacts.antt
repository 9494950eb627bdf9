-- ===== src/Runtime/Artifacts.antt =====
-- The files that `get_result` and `get_milestones` of runtime_repository.py read:
-- `_read_milestone_snapshot` and `_read_result_artifact`, and `SAFE_NAME` of file_manager.py.
use Prim.Native.Char.{Char, code}
use Prim.Native.String.{String, ◌++◌ as ◌<>◌}
use safactory_server.Base.{
  ℕ, Bool, false, not, ◌==◌, ◌&&◌, ◌||◌, ltb, leb, Option, none, some, if◌then◌else◌,
}
use safactory_server.Json.{Json, object, Fields}
use safactory_server.Text.{count_chars, all_chars}
use safactory_server.Store.Failure.{artifact_error, Outcome, ok, raised}
use safactory_server.Platform.Values.{get}
use safactory_server.Platform.Rows.{is_text}

-- What a path names on the shared storage when the request reads it: `exists`, `is_symlink`,
-- `is_file` and `st_size` of it, whether it is gone when it is measured or read, and its text as
-- JSON. An absent text is an unreadable one.
pub record FileEntry : Type 0 where
  pub exists : Bool
  pub is_symlink : Bool
  pub is_file : Bool
  pub size : ℕ
  pub vanished : Bool
  pub content : Option Json

abbrev pub FileSystem : Type 0
FileSystem = String → FileEntry

abbrev pub max_bytes : ℕ
max_bytes = 1048576

-- `left / right` for a right side that is no absolute path.
abbrev pub join_path : String → String → String
join_path left right = left <> "/" <> right

abbrev pub object_or_error : Option Json → Outcome (Option Fields)
object_or_error (some (object fs)) = ok (some fs)
object_or_error none = raised artifact_error
object_or_error (some other) = raised artifact_error

-- The part of the two readers behind the test for symbolic links.
unfoldable pub read_bounded : FileEntry → Outcome (Option Fields)
read_bounded file =
    if not file.is_file
    then raised artifact_error
    else if file.vanished
    then ok none
    else if ltb max_bytes file.size
    then raised artifact_error
    else object_or_error file.content

-- `_read_result_artifact`.
unfoldable pub read_result_artifact :
    FileSystem → String → String → String → String → Outcome (Option Fields)
unfolding read_bounded
read_result_artifact files root job_id session_id artifact_name =
    let job_directory = join_path root job_id in
    let session_directory = join_path job_directory session_id in
    let path = join_path session_directory artifact_name in
    if not (files path).exists
    then ok none
    else if (files job_directory).is_symlink
        || (files session_directory).is_symlink
        || (files path).is_symlink
    then raised artifact_error
    else read_bounded (files path)

unfoldable pub check_schema : Outcome (Option Fields) → Outcome (Option Fields)
unfolding get
check_schema (raised e) = raised e
check_schema (ok none) = ok none
check_schema (ok (some raw)) =
    if is_text "agent-range.milestones/v1" (get "schema_version" raw)
    then ok (some raw)
    else raised artifact_error

-- `_read_milestone_snapshot`: the same reader at a fixed name, and the test of the schema.
unfoldable pub read_milestone_snapshot :
    FileSystem → String → String → String → Outcome (Option Fields)
unfolding read_result_artifact check_schema
read_milestone_snapshot files root job_id session_id =
    check_schema (read_result_artifact files root job_id session_id "milestones.json")

abbrev pub is_letter_or_digit : Char → Bool
is_letter_or_digit c =
    (leb b'a' (code c) && leb (code c) b'z')
    || ((leb b'A' (code c) && leb (code c) b'Z') || (leb b'0' (code c) && leb (code c) b'9'))

abbrev pub is_safe_char : Char → Bool
is_safe_char c = is_letter_or_digit c || (code c == 95 || (code c == b'.' || code c == b'-'))

-- `SAFE_NAME.fullmatch(name)`.
unfoldable pub is_safe_name : String → Bool
unfolding all_chars count_chars
is_safe_name String.[] = false
is_safe_name (String.◌∷◌ c s) =
    is_letter_or_digit c && (all_chars is_safe_char s && leb (count_chars s) 127)
