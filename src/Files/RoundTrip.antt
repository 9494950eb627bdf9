-- ===== src/Files/RoundTrip.antt =====
-- `from_json` of file_manager.py reads back what `to_json` writes.
use safactory_server.Base.{String, Option, none, some, List, [], ◌∷◌, ◌≡◌, refl}
use safactory_server.Store.Failure.{ok}
use safactory_server.Platform.Values.{get}
use safactory_server.Platform.Sessions.{is_among}
use safactory_server.Files.{EnvironmentBinding, JobFileBinding}
use safactory_server.Files.Sources.{has_field}
use safactory_server.Files.Text.{
  Codec, found, as_path, path_json, group_json, groups_json, binding_json, to_json, field_or,
  or_default, has_only, read_group_fields, read_group, read_groups, read_all_groups, start_value,
  read_fields, read_document, settle, of_document, from_json,
}

read_groups-groups_json :
    (groups : List EnvironmentBinding) → read_groups (groups_json groups) ≡ found groups
unfolding read_groups groups_json group_json read_group read_group_fields field_or has_only
    has_field get is_among
read_groups-groups_json [] = refl
read_groups-groups_json (g ∷ groups) = rw (read_groups-groups_json groups) refl

as_path-path_json : (o : Option String) → as_path (path_json o) ≡ found o
as_path-path_json none = refl
as_path-path_json (some t) = refl

read_document-binding_json : (b : JobFileBinding) → read_document (binding_json b) ≡ found b
unfolding read_document read_fields binding_json field_or or_default start_value has_only has_field
    get is_among read_all_groups
read_document-binding_json b =
    rw (read_groups-groups_json b.groups) (rw (as_path-path_json b.launcher_rjob_config_path) refl)

-- For every binding: if `json.loads` gives back the value of which `json.dumps` wrote the text, then
-- `from_json` reads the text that `to_json` writes as that same binding, every field of it and of its
-- groups included.
pub from_json-to_json :
    (codec : Codec) (b : JobFileBinding)
    → codec.json_loads (codec.json_dumps (binding_json b)) ≡ ok (binding_json b)
    → from_json codec (to_json codec b) ≡ ok b
unfolding from_json to_json of_document settle
from_json-to_json codec b h = rw h (rw (read_document-binding_json b) refl)
