-- ===== src/Platform/Values.antt =====
-- Values of the data platform's client: the helpers `_field`, `_json_value`, `_meta_json`, `_truthy`,
-- `_finite_float`, `_datetime_or_none`, `_required_string` and `_required_positive_int` of
-- data_platform.py. A value is JSON; a float is its text, and a moment a number of microseconds.
use Prim.Native.Char.{code}
use Prim.Native.String.{String, ◌++◌ as ◌<>◌}
use safactory_server.Base.{
  ℕ, zero, suc, ℤ, pos, negsuc, Bool, true, false, not, ◌==◌, ◌||◌, Option, none, some, same_text,
  if◌then◌else◌,
}
use safactory_server.Json.{
  Json, null, bool, int, float, text, array, object, nil, cons, Fields, end, field,
}
use safactory_server.Text.{is_empty}
use safactory_server.Store.Failure.{type_error, value_error, Outcome, ok, raised}
use safactory_server.Outcomes.{◌>>=◌, ◌>>◌, require, or_raise}

-- What the code calls of Python. An absent result is a TypeError or a ValueError.
pub record Python : Type 0 where
  pub int_of : Json → Option ℤ
  pub float_of : Json → Option String
  pub is_finite : String → Bool
  pub is_zero : String → Bool
  pub is_large : String → Bool
  pub per_thousand : String → String
  pub str_of : Json → String
  pub strip : String → String
  pub lower : String → String
  pub json_loads : String → Option Json
  pub from_timestamp : String → Option ℕ
  pub from_iso : String → Option (ℕ × Bool)

-- `d.get(name)`.
unfoldable pub get : String → Fields → Json
get name end = null
get name (field k v fs) = let rest = get name fs in if same_text k name then v else rest

-- `_field`: a JSON value that is no object has none of the attributes asked for.
unfoldable pub field_of : String → Json → Json
unfolding get
field_of name (object fs) = get name fs
field_of name null = null
field_of name (bool b) = null
field_of name (int n) = null
field_of name (float t) = null
field_of name (text t) = null
field_of name (array xs) = null

abbrev pub is_null : Json → Bool
is_null null = true
is_null (bool b) = false
is_null (int n) = false
is_null (float t) = false
is_null (text t) = false
is_null (array xs) = false
is_null (object fs) = false

-- `bool(value)`.
unfoldable pub truth : Python → Json → Bool
truth py null = false
truth py (bool b) = b
truth py (int (pos zero)) = false
truth py (int (pos (suc n))) = true
truth py (int (negsuc n)) = true
truth py (float t) = not (py.is_zero t)
truth py (text t) = not (is_empty t)
truth py (array nil) = false
truth py (array (cons x xs)) = true
truth py (object end) = false
truth py (object (field k v fs)) = true

-- `value or default`.
abbrev pub or_else : Python → Json → Json → Json
or_else py value default = if truth py value then value else default

-- The words that `_truthy` takes for true.
abbrev pub is_yes : String → Bool
is_yes t = same_text t "1" || same_text t "true" || same_text t "yes" || same_text t "on"

-- `_truthy`.
unfoldable pub truthy : Python → Json → Bool
unfolding truth
truthy py (text t) = is_yes (py.lower (py.strip t))
truthy py null = truth py null
truthy py (bool b) = truth py (bool b)
truthy py (int n) = truth py (int n)
truthy py (float t) = truth py (float t)
truthy py (array xs) = truth py (array xs)
truthy py (object fs) = truth py (object fs)

abbrev pub parsed_or : Json → Option Json → Json
parsed_or value none = value
parsed_or value (some parsed) = parsed

-- `_json_value`.
unfoldable pub json_value : Python → Json → Json → Json
json_value py null default = default
json_value py (text t) default = parsed_or (text t) (py.json_loads t)
json_value py (bool b) default = bool b
json_value py (int n) default = int n
json_value py (float t) default = float t
json_value py (array xs) default = array xs
json_value py (object fs) default = object fs

-- `parsed if isinstance(parsed, dict) else {}`.
unfoldable pub fields_or_none : Json → Fields
fields_or_none (object fs) = fs
fields_or_none other = end

-- `_meta_json`.
unfoldable pub meta_json : Python → Json → Fields
unfolding json_value fields_or_none
meta_json py value = fields_or_none (json_value py value (object end))

unfoldable pub finite : Python → Option String → Outcome String
finite py none = raised value_error
finite py (some t) = require (py.is_finite t) value_error >> ok t

-- `_finite_float`.
unfoldable pub finite_float : Python → Json → Outcome String
unfolding finite
finite_float py (bool b) = raised type_error
finite_float py value = finite py (py.float_of value)

unfoldable pub moment_of : Python → Option String → Outcome (Option ℕ)
moment_of py none = raised value_error
moment_of py (some timestamp) = do
  let seconds = if py.is_large timestamp then py.per_thousand timestamp else timestamp
  moment ← or_raise value_error (py.from_timestamp seconds)
  ok (some moment)

unfoldable pub aware : Option (ℕ × Bool) → Outcome (Option ℕ)
aware none = raised value_error
aware (some (moment, has_timezone)) = require has_timezone value_error >> ok (some moment)

-- `value.replace("Z", "+00:00")`.
unfoldable pub with_offset : String → String
with_offset String.[] = String.[]
with_offset (String.◌∷◌ c s) =
    let rest = with_offset s in if code c == b'Z' then "+00:00" <> rest else String.◌∷◌ c rest

-- `_datetime_or_none`.
unfoldable pub datetime_or_none : Python → Json → Outcome (Option ℕ)
unfolding moment_of aware with_offset
datetime_or_none py null = ok none
datetime_or_none py (int n) = moment_of py (py.float_of (int n))
datetime_or_none py (float t) = moment_of py (some t)
datetime_or_none py (text t) = aware (py.from_iso (with_offset t))
datetime_or_none py (bool b) = raised type_error
datetime_or_none py (array xs) = raised type_error
datetime_or_none py (object fs) = raised type_error

unfoldable pub nonempty_text : Python → Json → Outcome String
nonempty_text py (text t) = require (not (is_empty (py.strip t))) type_error >> ok t
nonempty_text py other = raised type_error

-- `_required_string`.
unfoldable pub required_string : Python → Json → String → Outcome String
unfolding nonempty_text field_of
required_string py value name = nonempty_text py (field_of name value)

unfoldable pub positive_int : Json → Outcome ℕ
positive_int (int (pos zero)) = raised type_error
positive_int (int (pos (suc n))) = ok (suc n)
positive_int (int (negsuc n)) = raised type_error
positive_int other = raised type_error

-- `_required_positive_int`.
unfoldable pub required_positive_int : Json → String → Outcome ℕ
unfolding positive_int field_of
required_positive_int value name = positive_int (field_of name value)
