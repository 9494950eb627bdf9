-- ===== src/Orchestrator/Config.antt =====
-- The configuration texts that orchestrator.py parses: JSON objects, lists of texts, environments.
use Prim.Native.String.{String}
use package.text.Mathlib.Text.{starts_with, find?}
use safactory_server.Base.{
  Bool, true, false, Option, none, some, List, [], ◌∷◌, ◌&&◌, ◌||◌, not, same_text, if◌then◌else◌,
  is_some,
}
use safactory_server.Json.{
  Json, null, bool, int, float, text, array, object, Items, nil, cons, Fields, end, field,
}
use safactory_server.Text.{is_empty, strip}
use safactory_server.Store.Failure.{trusted_config_error, Outcome, ok, raised}
use safactory_server.Exec.{Library}
use safactory_server.Orchestrator.Names.{put}

unfoldable pub as_object : Option Json → Outcome Fields
as_object none = raised trusted_config_error
as_object (some (object fs)) = ok fs
as_object (some null) = raised trusted_config_error
as_object (some (bool b)) = raised trusted_config_error
as_object (some (int n)) = raised trusted_config_error
as_object (some (float t)) = raised trusted_config_error
as_object (some (text t)) = raised trusted_config_error
as_object (some (array xs)) = raised trusted_config_error

-- `_json_object`.
unfoldable pub json_object : Library → String → Outcome Fields
unfolding as_object
json_object lib value = as_object (lib.json_loads value)

-- `isinstance(item, str)` for every item, and the items.
unfoldable pub texts : Items → Option (List String)
texts nil = some []
texts (cons (text t) xs) = elim (texts xs) [ none ↦ none | some ts ↦ some (t ∷ ts) ]
texts (cons x xs) = none

unfoldable pub as_string_list : Option Json → Outcome (List String)
unfolding texts
as_string_list (some (array xs)) = elim (texts xs) [
  | none ↦ raised trusted_config_error
  | some ts ↦ ok ts
]
as_string_list none = raised trusted_config_error
as_string_list (some other) = raised trusted_config_error

-- `_json_string_list`.
unfoldable pub json_string_list : Library → String → Outcome (List String)
unfolding as_string_list
json_string_list lib value = as_string_list (lib.json_loads value)

-- `isinstance(item, (str, int, float, bool))`.
abbrev pub is_scalar : Json → Bool
is_scalar null = false
is_scalar (bool b) = true
is_scalar (int n) = true
is_scalar (float t) = true
is_scalar (text t) = true
is_scalar (array xs) = false
is_scalar (object fs) = false

-- The loop of `_string_environment`, from the environment built so far.
unfoldable pub string_environment_from :
    Library → List (String × String) → Fields → Outcome (List (String × String))
unfolding put
string_environment_from lib env end = ok env
string_environment_from lib env (field key item fs) =
    let rest = string_environment_from lib (put key (lib.json_text item) env) fs in
    if is_empty key
    then raised trusted_config_error
    else if not (is_scalar item)
    then raised trusted_config_error
    else rest

-- `_string_environment`.
unfoldable pub string_environment : Library → Fields → Outcome (List (String × String))
unfolding string_environment_from
string_environment lib value = string_environment_from lib [] value

-- `value.get(name)`.
unfoldable pub get_field : String → Fields → Option Json
get_field name end = none
get_field name (field key item fs) =
    let rest = get_field name fs in if same_text key name then some item else rest

abbrev pub required_names : List String
required_names =
    "WT_SDK_PROFILE" ∷ "WT_SDK_DB_URI" ∷ "WT_SDK_ENV_CONFIG_DB_URI" ∷ "WT_SDK_S3_ENDPOINT"
    ∷ "WT_SDK_S3_ALLOW_HTTP" ∷ "AWS_ACCESS_KEY_ID" ∷ "AWS_SECRET_ACCESS_KEY"
    ∷ "AWS_EC2_METADATA_DISABLED" ∷ []

-- `str(value or "")`, for a value of `value.get(name)`.
unfoldable pub truthy_text : Library → Option Json → String
truthy_text lib none = ""
truthy_text lib (some null) = ""
truthy_text lib (some (bool false)) = ""
truthy_text lib (some (bool true)) = lib.json_text (bool true)
truthy_text lib (some (int n)) =
    if same_text (lib.json_text (int n)) "0" then "" else lib.json_text (int n)
truthy_text lib (some (float t)) =
    if same_text (lib.json_text (float t)) "0.0" || same_text (lib.json_text (float t)) "-0.0"
    then ""
    else lib.json_text (float t)
truthy_text lib (some (text t)) = t
truthy_text lib (some (array nil)) = ""
truthy_text lib (some (array (cons x xs))) = lib.json_text (array (cons x xs))
truthy_text lib (some (object end)) = ""
truthy_text lib (some (object (field k v fs))) = lib.json_text (object (field k v fs))

-- `str(value[name])`, once the name is known to be there.
abbrev field_text : Library → Fields → String → String
field_text lib value name = elim (get_field name value) [
  | none ↦ ""
  | some item ↦ lib.json_text item
]

unfoldable pub has_missing : Library → Fields → List String → Bool
unfolding strip truthy_text get_field
has_missing lib value [] = false
has_missing lib value (name ∷ names) =
    is_empty (strip lib.is_space (truthy_text lib (get_field name value)))
    || has_missing lib value names

unfoldable pub has_placeholder : Library → Fields → Bool
has_placeholder lib end = false
has_placeholder lib (field name item fs) =
    (is_some (find? (lib.upper (lib.json_text item)) "YOUR_")
      || starts_with (lib.upper (lib.json_text item)) "REPLACE_ME")
    || has_placeholder lib fs

abbrev is_boolean_text : String → Bool
is_boolean_text t =
    same_text t "true"
    || (same_text t "false"
        || (same_text t "1" || (same_text t "0" || (same_text t "yes" || same_text t "no"))))

-- The values that `_validate_cloud_environment` checks once all names are there.
unfoldable pub cloud_values_valid : Library → Fields → Bool
unfolding get_field
cloud_values_valid lib value =
    (same_text (lib.lower (field_text lib value "WT_SDK_PROFILE")) "test"
      || same_text (lib.lower (field_text lib value "WT_SDK_PROFILE")) "production")
    && (starts_with (field_text lib value "WT_SDK_DB_URI") "s3://"
        && (starts_with (field_text lib value "WT_SDK_ENV_CONFIG_DB_URI") "s3://"
            && ((starts_with (field_text lib value "WT_SDK_S3_ENDPOINT") "http://"
                  || starts_with (field_text lib value "WT_SDK_S3_ENDPOINT") "https://")
                && (is_boolean_text (lib.lower (field_text lib value "WT_SDK_S3_ALLOW_HTTP"))
                    && is_boolean_text
                        (lib.lower (field_text lib value "AWS_EC2_METADATA_DISABLED"))))))

-- `_validate_cloud_environment`: every failed check raises the same exception.
unfoldable pub validate_cloud_environment : Library → Fields → Outcome (Unit {0})
unfolding has_missing has_placeholder cloud_values_valid
validate_cloud_environment lib value =
    if has_missing lib value required_names
    then raised trusted_config_error
    else if has_placeholder lib value
    then raised trusted_config_error
    else if cloud_values_valid lib value
    then ok tt
    else raised trusted_config_error
