-- ===== src/Platform/Sessions.antt =====
-- `list_session_ids` and `get_result` of `WTDataPlatformRepository` in data_platform.py, on both
-- surfaces of the client.
use safactory_server.Base.{
  ℕ, String, Bool, true, false, not, ◌&&◌, ◌||◌, Option, none, some, is_some, List, [], ◌∷◌, ◌++◌,
  map, select, same_text, if◌then◌else◌,
}
use safactory_server.Json.{
  Json, null, bool, int, float, text, array, object, Items, nil, cons, Fields,
}
use safactory_server.Text.{is_empty}
use safactory_server.Domain.{ResultStatus, pending}
use safactory_server.Domain.Entities.{SessionResult}
use safactory_server.Store.Failure.{
  type_error, value_error, data_platform_error, Outcome, ok, raised,
}
use safactory_server.Outcomes.{◌>>=◌, ◌>>◌, require, or_raise, wrap}
use safactory_server.Platform.Values.{
  Python, get, field_of, is_null, truthy, finite_float, datetime_or_none,
}
use safactory_server.Platform.Rows.{row_lt, row_datetime}
use safactory_server.Platform.Queries.{Client, landing, legacy, query_landing}

-- `value not in values`.
unfoldable pub is_among : String → List String → Bool
is_among t [] = false
is_among t (u ∷ us) = same_text u t || is_among t us

-- The body of the loop of `list_session_ids`.
unfoldable pub add_session : Json → List String → List String
unfolding is_among
add_session (text t) ts = if not (is_empty t) && not (is_among t ts) then ts ++ t ∷ [] else ts
add_session other ts = ts

unfoldable pub sessions_in : List Json → List String → List String
unfolding add_session
sessions_in [] ts = ts
sessions_in (v ∷ vs) ts = sessions_in vs (add_session v ts)

unfoldable pub items_of : Items → List Json
items_of nil = []
items_of (cons x xs) = x ∷ items_of xs

-- `if not isinstance(rows, (list, tuple)): raise TypeError`.
unfoldable pub list_of : Json → Outcome (List Json)
unfolding items_of
list_of (array xs) = ok (items_of xs)
list_of other = raised type_error

-- `row if isinstance(row, str) else _field(row, "session_id")`.
unfoldable pub session_value : Json → Json
unfolding field_of
session_value (text t) = text t
session_value other = field_of "session_id" other

unfoldable pub find_sessions : Client → String → Outcome (List String)
unfolding query_landing sessions_in list_of session_value get
find_sessions (landing query) job_id =
    query_landing query job_id none (some ("session_id" ∷ [])) >>= λ rows.
    ok (sessions_in (map (get "session_id") rows) [])
find_sessions (legacy list_sessions results steps trajectories) job_id =
    list_sessions job_id >>= list_of >>= λ rows. ok (sessions_in (map session_value rows) [])

-- `list_session_ids`.
unfoldable pub list_session_ids : Client → String → Outcome (List String)
unfolding find_sessions
list_session_ids client job_id = wrap data_platform_error (find_sessions client job_id)

-- `max(rows, key=…)`, which keeps the first of equals.
unfoldable pub latest : (Fields → Fields → Bool) → Fields → List Fields → Fields
latest lt row [] = row
latest lt row (other ∷ rows) = latest lt (if lt row other then other else row) rows

abbrev pub session_result : String → ResultStatus → Option String → Option ℕ → SessionResult
session_result session_id status score completed_at = record {
  session_id = session_id;
  result_status = status;
  score = score;
  completed_at = completed_at;
  retry_after_seconds = none;
  result = none;
  error = none;
}

unfoldable pub succeeded_with : Python → String → Fields → Outcome (Option SessionResult)
unfolding finite_float row_datetime get
succeeded_with py session_id final = do
  score ← finite_float py (get "reward" final)
  completed_at ← row_datetime py final
  moment ← or_raise value_error completed_at
  ok (some (session_result session_id ResultStatus.succeeded (some score) (some moment)))

unfoldable pub failed_with : Python → String → Fields → Outcome (Option SessionResult)
unfolding row_datetime
failed_with py session_id final = do
  completed_at ← row_datetime py final
  ok (some (session_result session_id ResultStatus.failed none completed_at))

-- The choice between the rewarded rows and the completed ones.
unfoldable pub judged : Python → String → List Fields → List Fields → Outcome (Option SessionResult)
unfolding succeeded_with failed_with latest row_lt
judged py session_id (row ∷ rows) completed =
    succeeded_with py session_id (latest (row_lt py) row rows)
judged py session_id [] (row ∷ rows) = failed_with py session_id (latest (row_lt py) row rows)
judged py session_id [] [] = ok (some (session_result session_id ResultStatus.running none none))

unfoldable pub landing_result : Python → String → List Fields → Outcome (Option SessionResult)
unfolding judged select truthy get
landing_result py session_id [] = ok none
landing_result py session_id (row ∷ rows) =
    let completed = select (λ r. truthy py (get "is_session_completed" r)) (row ∷ rows) in
    judged py session_id (select (λ r. not (is_null (get "reward" r))) completed) completed

-- `ResultStatus(str(…))`.
unfoldable pub status_of_text : String → Outcome ResultStatus
status_of_text t =
    if same_text t "pending"
    then ok pending
    else if same_text t "running"
    then ok ResultStatus.running
    else if same_text t "succeeded"
    then ok ResultStatus.succeeded
    else if same_text t "failed"
    then ok ResultStatus.failed
    else raised value_error

unfoldable pub score_of : Python → Json → Outcome (Option String)
unfolding finite_float
score_of py null = ok none
score_of py value = finite_float py value >>= λ t. ok (some t)

abbrev pub is_succeeded : ResultStatus → Bool
is_succeeded ResultStatus.succeeded = true
is_succeeded ResultStatus.failed = false
is_succeeded ResultStatus.running = false
is_succeeded pending = false

-- The checks on a status, a score and a completion of the legacy surface.
unfoldable pub checked_result :
    String → ResultStatus → Option String → Option ℕ → Outcome (Option SessionResult)
checked_result session_id status score completed_at =
    if is_succeeded status && (not (is_some score) || not (is_some completed_at))
    then raised value_error
    else if not (is_succeeded status) && is_some score
    then raised value_error
    else ok (some (session_result session_id status score completed_at))

abbrev pub is_same : String → Json → Bool
is_same s (text t) = same_text t s
is_same s null = false
is_same s (bool b) = false
is_same s (int n) = false
is_same s (float t) = false
is_same s (array xs) = false
is_same s (object fs) = false

unfoldable pub result_of_row : Python → String → Json → Outcome (Option SessionResult)
unfolding field_of status_of_text score_of datetime_or_none checked_result
result_of_row py session_id row = do
  require (is_same session_id (field_of "session_id" row)) value_error
  status ← status_of_text (py.str_of (field_of "result_status" row))
  score ← score_of py (field_of "score" row)
  completed_at ← datetime_or_none py (field_of "completed_at" row)
  checked_result session_id status score completed_at

unfoldable pub legacy_result : Python → String → Json → Outcome (Option SessionResult)
unfolding result_of_row
legacy_result py session_id null = ok none
legacy_result py session_id row = result_of_row py session_id row

unfoldable pub find_result : Python → Client → String → String → Outcome (Option SessionResult)
unfolding query_landing landing_result legacy_result
find_result py (landing query) job_id session_id =
    query_landing query job_id (some session_id) none >>= landing_result py session_id
find_result py (legacy sessions get_session_result steps trajectories) job_id session_id =
    get_session_result job_id session_id >>= legacy_result py session_id

-- `get_result`.
unfoldable pub get_result : Python → Client → String → String → Outcome (Option SessionResult)
unfolding find_result
get_result py client job_id session_id =
    wrap data_platform_error (find_result py client job_id session_id)
