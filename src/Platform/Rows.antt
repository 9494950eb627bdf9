-- ===== src/Platform/Rows.antt =====
-- Landing rows of the data platform: `_row_sort_key`, `_is_trajectory_row`, `_trajectory_rows`,
-- `_is_sealing_row`, `_trajectory_payload` and `_row_datetime` of data_platform.py.
use safactory_server.Base.{
  ℕ, String, ℤ, pos, negsuc, Bool, true, false, not, ◌||◌, Option, none, some, List, [], ◌∷◌, map,
  same_text, if◌then◌else◌, int_lt, text_lt, pair_lt, key_lt, sort_by,
}
use safactory_server.Json.{
  Json, null, bool, int, float, text, array, object, nil, Fields, end, field,
}
use safactory_server.Store.Failure.{type_error, Outcome, ok, raised}
use safactory_server.Outcomes.{◌>>=◌}
use safactory_server.Platform.Values.{
  Python, get, truth, truthy, is_null, or_else, json_value, meta_json, datetime_or_none,
}

abbrev pub int_or : Option ℤ → ℤ → ℤ
int_or none default = default
int_or (some n) default = n

abbrev pub SortKey : Type 0
SortKey = ℤ × (String × String)

-- `_row_sort_key`.
unfoldable pub row_sort_key : Python → Fields → SortKey
unfolding get truth
row_sort_key py row = (
  int_or (py.int_of (get "step_id" row)) (negsuc 0),
  (
    py.str_of (or_else py (get "created_at" row) (text "")),
    py.str_of (or_else py (get "id" row) (text "")),
  ),
)

-- `<` on the keys.
unfoldable pub sort_key_lt : SortKey → SortKey → Bool
unfolding pair_lt int_lt text_lt
sort_key_lt = pair_lt int_lt (pair_lt text_lt text_lt)

unfoldable pub row_lt : Python → Fields → Fields → Bool
unfolding row_sort_key sort_key_lt key_lt
row_lt py = key_lt sort_key_lt (row_sort_key py)

-- `event_type in {…}` for the events that end a session: a list or an object has no hash.
unfoldable pub is_ending_event : Json → Outcome Bool
is_ending_event (text t) = ok (
    same_text t "gateway_session_close"
    || same_text t "episode_summary"
    || same_text t "evaluation_summary")
is_ending_event (array xs) = raised type_error
is_ending_event (object fs) = raised type_error
is_ending_event null = ok false
is_ending_event (bool b) = ok false
is_ending_event (int n) = ok false
is_ending_event (float t) = ok false

abbrev pub is_text : String → Json → Bool
is_text s (text t) = same_text t s
is_text s null = false
is_text s (bool b) = false
is_text s (int n) = false
is_text s (float t) = false
is_text s (array xs) = false
is_text s (object fs) = false

-- `int(status_code or 200) < 400`, and `True` where `int` fails.
unfoldable pub is_accepted : Option ℤ → Bool
unfolding int_lt
is_accepted none = true
is_accepted (some status_code) = int_lt status_code (pos 400)

-- The part of `_is_trajectory_row` behind the test for the end of a session.
unfoldable pub has_content : Python → Fields → Fields → Bool
unfolding is_accepted truth json_value get
has_content py metadata row =
    if is_text "gateway_inference" (get "event_type" metadata)
    then is_accepted (py.int_of (or_else py (get "status_code" metadata) (int (pos 200))))
    else truth py (json_value py (get "messages" row) (array nil)) || truth py (get "response" row)

-- `_is_trajectory_row`.
unfoldable pub is_trajectory_row : Python → Fields → Outcome Bool
unfolding meta_json is_ending_event has_content get truth
is_trajectory_row py row = do
  let metadata = meta_json py (get "meta_json" row)
  ending ← is_ending_event (get "event_type" metadata)
  ok (
      if ending || truth py (get "synthetic_stop" metadata)
      then false
      else has_content py metadata row)

-- `str(_field(row, "step_id"))`.
abbrev pub step_name : Python → Fields → String
step_name py row = py.str_of (get "step_id" row)

-- `latest_by_step[step_id] = row`, if there is none yet or the row's key is greater.
unfoldable pub keep_latest :
    {A : Type 0} → (A → A → Bool) → String → A → List (String × A) → List (String × A)
keep_latest lt k x [] = (k, x) ∷ []
keep_latest lt k x ((j, y) ∷ m) =
    let rest = keep_latest lt k x m in
    if same_text j k then (j, if lt y x then x else y) ∷ m else (j, y) ∷ rest

-- The loop of `_trajectory_rows`.
unfoldable pub latest_by_step :
    Python → List Fields → List (String × Fields) → Outcome (List (String × Fields))
unfolding is_trajectory_row keep_latest row_lt
latest_by_step py [] kept = ok kept
latest_by_step py (row ∷ rows) kept = is_trajectory_row py row >>= λ counts.
    latest_by_step py rows
      (if counts then keep_latest (row_lt py) (step_name py row) row kept else kept)

abbrev pub values {ℓ} : {A : Type ℓ} → List (String × A) → List A
values m = map (λ p. p.1) m

-- `_trajectory_rows`.
unfoldable pub trajectory_rows : Python → List Fields → Outcome (List Fields)
unfolding latest_by_step sort_by row_lt
trajectory_rows py rows =
    latest_by_step py rows [] >>= λ kept. ok (sort_by (row_lt py) (values kept))

-- `_is_sealing_row`: a test that holds stops the `or`.
unfoldable pub is_sealing_row : Python → Fields → Outcome Bool
unfolding meta_json is_ending_event truthy get
is_sealing_row py row =
    let metadata = meta_json py (get "meta_json" row) in
    if truthy py (get "is_session_completed" row)
      || truthy py (get "is_terminal" row)
      || truthy py (get "is_session_completed" metadata)
    then ok true
    else is_ending_event (get "event_type" metadata)

-- `_row_datetime`.
unfoldable pub row_datetime : Python → Fields → Outcome (Option ℕ)
unfolding datetime_or_none get
row_datetime py row = datetime_or_none py (get "created_at" row)

-- `d[name] = value` behind the entries, and only if the flag is set.
abbrev pub entry_if : Bool → String → Json → Fields → Fields
entry_if b name value fs = if b then field name value fs else fs

-- `model_output`.
unfoldable pub model_output : Json → Json
model_output (object fs) = object fs
model_output null = null
model_output (text t) = object (field "content" (text t) end)
model_output (bool b) = object (field "value" (bool b) end)
model_output (int n) = object (field "value" (int n) end)
model_output (float t) = object (field "value" (float t) end)
model_output (array xs) = object (field "value" (array xs) end)

abbrev pub is_object : Json → Bool
is_object (object fs) = true
is_object null = false
is_object (bool b) = false
is_object (int n) = false
is_object (float t) = false
is_object (text t) = false
is_object (array xs) = false

abbrev pub has_entries : Fields → Bool
has_entries end = false
has_entries (field k v fs) = true

unfoldable pub model_input : Python → Fields → Fields → Fields
unfolding json_value truth get
model_input py metadata row =
    let messages = json_value py (get "messages" row) (array nil) in
    let request = get "request" metadata in
    entry_if (truth py messages) "messages" messages
      (entry_if (not (is_null request)) "request" (json_value py request request) end)

-- `_trajectory_payload`.
unfoldable pub trajectory_payload : Python → Fields → Fields
unfolding meta_json model_input model_output json_value get
trajectory_payload py row =
    let metadata = meta_json py (get "meta_json" row) in
    let input = model_input py metadata row in
    let output = model_output (json_value py (get "response" row) null) in
    let action = get "action" metadata in
    let observation = get "observation" metadata in
    entry_if (has_entries input) "model_input" (object input) (
      entry_if (not (is_null output)) "model_output" output (
        entry_if (is_object action) "action" action
          (entry_if (is_object observation) "observation" observation end)))
