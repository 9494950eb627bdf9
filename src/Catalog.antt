-- ===== src/Catalog.antt =====
-- `RealCatalog` of src/server/infrastructure/real/configuration.py: models are the routes of the
-- Gateway, and ranges are read again from their file at each access.
use safactory_server.Base.{
  ℕ, String, Bool, true, false, not, ◌&&◌, Option, none, some, List, [], ◌∷◌, map, all, same_text,
  if◌then◌else◌,
}
use safactory_server.Json.{Json, null, object, Fields, end, field}
use safactory_server.Domain.Errors.{dependency_unavailable, new_domain_error}
use safactory_server.Domain.Entities.{Model, Range}
use safactory_server.Settings.{GatewayModelConfig}
use safactory_server.Store.Failure.{
  value_error, trusted_config_error, domain_error, Outcome, ok, raised,
}
use safactory_server.Outcomes.{◌>>=◌}
use safactory_server.Platform.Values.{get}
use safactory_server.Platform.Sessions.{is_among}

pub record RangeGroupConfig : Type 0 where
  pub env_name : String
  pub dataset : String
  pub start_config : String
  pub supports_milestones : Bool
  pub result_artifact : Option String

pub record RangeConfig : Type 0 where
  pub range_id : String
  pub description : String
  pub available : Bool
  pub availability_retryable : Bool
  pub agent_config : String
  pub launcher_rjob_config : Option String
  pub groups : List RangeGroupConfig

pub record ModelConfig : Type 0 where
  pub model_id : String
  pub name : String
  pub available : Bool
  pub gateway : GatewayModelConfig

-- `read_ranges` is what the YAML file holds at an access, as pydantic types it; it is absent where the
-- file cannot be read or a field has another type.
pub record RealCatalog : Type 0 where
  pub gateway_routes : Fields
  pub read_ranges : ℕ → Option (List RangeConfig)
  pub dump_gateway : GatewayModelConfig → String
  pub checksum : Fields → String

-- `len(names) == len(set(names))`.
unfoldable pub are_unique : List String → Bool
unfolding is_among
are_unique [] = true
are_unique (t ∷ ts) = not (is_among t ts) && are_unique ts

abbrev pub is_filled : {A : Type 0} → List A → Bool
is_filled [] = false
is_filled (x ∷ xs) = true

-- `RangeConfig.unique_groups`, and the length of `groups`.
unfoldable pub is_valid_range : RangeConfig → Bool
unfolding are_unique
is_valid_range range_config =
    is_filled range_config.groups && are_unique (map (λ g. g.env_name) range_config.groups)

-- `RangeDocument.unique_ids`, and the length of `ranges`.
unfoldable pub is_valid_document : List RangeConfig → Bool
unfolding is_valid_range are_unique all
is_valid_document ranges =
    is_filled ranges && (all is_valid_range ranges && are_unique (map (λ r. r.range_id) ranges))

unfoldable pub checked_ranges : Option (List RangeConfig) → Outcome (List RangeConfig)
unfolding is_valid_document
checked_ranges none = raised trusted_config_error
checked_ranges (some ranges) =
    if is_valid_document ranges then ok ranges else raised trusted_config_error

-- `_ranges`.
unfoldable pub ranges_at : RealCatalog → ℕ → Outcome (List RangeConfig)
unfolding checked_ranges
ranges_at catalog n = checked_ranges (catalog.read_ranges n)

-- `next((item for item in ranges if item.range_id == range_id), None)`.
unfoldable pub find_range : String → List RangeConfig → Option RangeConfig
find_range range_id [] = none
find_range range_id (r ∷ ranges) =
    let rest = find_range range_id ranges in if same_text r.range_id range_id then some r else rest

-- `resolve_range`.
unfoldable pub resolve_range : RealCatalog → ℕ → String → Outcome (Option RangeConfig)
unfolding ranges_at find_range
resolve_range catalog n range_id = ranges_at catalog n >>= λ ranges. ok (find_range range_id ranges)

abbrev model_config : String → Fields → ModelConfig
model_config model_id route = record {
  model_id = model_id;
  name = model_id;
  available = true;
  gateway = record { route = route; environment = []; llm_model = some model_id };
}

-- The route of a model as `GatewayModelConfig` takes it.
unfoldable pub model_of_route : String → Json → Outcome (Option ModelConfig)
model_of_route model_id null = ok none
model_of_route model_id (object (field k v fs)) = ok (some (model_config model_id (field k v fs)))
model_of_route model_id other = raised value_error

-- `resolve_model`.
unfoldable pub resolve_model : RealCatalog → String → Outcome (Option ModelConfig)
unfolding model_of_route get
resolve_model catalog model_id = model_of_route model_id (get model_id catalog.gateway_routes)

-- `model_checksum`.
unfoldable pub model_checksum : RealCatalog → String
model_checksum catalog = catalog.checksum catalog.gateway_routes

unfoldable pub keys : Fields → List String
keys end = []
keys (field k v fs) = k ∷ keys fs

abbrev pub model_entity : String → Model
model_entity name = record { model_id = name; name = name; available = true }

abbrev pub range_entity : RangeConfig → Range
range_entity item = record {
  range_id = item.range_id;
  description = item.description;
  available = item.available;
  availability_retryable = item.availability_retryable;
}

-- `list_models`.
unfoldable pub list_models : RealCatalog → List Model
unfolding keys
list_models catalog = map model_entity (keys catalog.gateway_routes)

-- `except TrustedConfigError`.
unfoldable pub or_unavailable : {A : Type 0} → Outcome A → Outcome A
unfolding new_domain_error
or_unavailable (ok a) = ok a
or_unavailable (raised trusted_config_error) =
    raised (domain_error (new_domain_error dependency_unavailable end none))
or_unavailable (raised e) = raised e

-- `list_ranges`.
unfoldable pub list_ranges : RealCatalog → ℕ → Outcome (List Range)
unfolding or_unavailable ranges_at
list_ranges catalog n =
    or_unavailable (ranges_at catalog n) >>= λ ranges. ok (map range_entity ranges)

-- `get_model`.
unfoldable pub get_model : RealCatalog → String → Option Model
unfolding is_among keys
get_model catalog model_id =
    if not (is_among model_id (keys catalog.gateway_routes))
    then none
    else some (model_entity model_id)

unfoldable pub entity_or_none : Option RangeConfig → Option Range
entity_or_none none = none
entity_or_none (some item) = some (range_entity item)

-- `get_range`.
unfoldable pub get_range : RealCatalog → ℕ → String → Outcome (Option Range)
unfolding or_unavailable resolve_range entity_or_none
get_range catalog n range_id =
    or_unavailable (resolve_range catalog n range_id) >>= λ item. ok (entity_or_none item)
