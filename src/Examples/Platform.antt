-- ===== src/Examples/Platform.antt =====
-- The theorems on the data platform at one row of a session.
use safactory_server.Base.{
  String, true, false, none, some, [], ◌∷◌, ◌≡◌, refl, All, Any, inl, HasDistinct, IsSorted,
}
use safactory_server.Json.{Json, bool, text, array, object, nil, cons, Fields, end, field}
use safactory_server.Domain.{ResultStatus}
use safactory_server.Domain.Entities.{SessionResult, SessionSteps, StepTrajectory}
use safactory_server.Store.Failure.{Outcome, ok}
use safactory_server.Platform.Values.{Python}
use safactory_server.Platform.Queries.{LandingQuery, landing, filter_query, escape_sql_literal}
use safactory_server.Platform.Rows.{row_lt, step_name, is_trajectory_row, trajectory_rows}
use safactory_server.Platform.Sessions
use safactory_server.Platform.Listing.{IsListing, list_session_ids-IsListing}
use safactory_server.Platform.Steps.{get_steps, get_trajectory}
use safactory_server.Platform.Escaping.{
  read_literal, read_filter, read_literal-escape_sql_literal, read_filter-filter_query,
}
use safactory_server.Platform.Latest.{trajectory_rows-IsSorted, trajectory_rows_latest, Supersedes}
use safactory_server.Platform.Numbering.{
  IsWellFormed, Agrees, get_steps-IsWellFormed, get_trajectory-Agrees,
}
use safactory_server.Platform.Consistency.{IsConsistent, get_result-IsConsistent}
use Prim.Native.String.{◌++◌ as ◌<>◌}

abbrev str_of : Json → String
str_of (text t) = t
str_of other = ""

abbrev pub a_python : Python
a_python = record {
  int_of = λ j. none;
  float_of = λ j. some "1.0";
  is_finite = λ t. true;
  is_zero = λ t. true;
  is_large = λ t. true;
  per_thousand = λ t. t;
  str_of = str_of;
  strip = λ t. t;
  lower = λ t. t;
  json_loads = λ t. none;
  from_timestamp = λ t. some 5;
  from_iso = λ t. some (5, true);
}

abbrev a_row : Fields
a_row = field "step_id" (text "1") (
    field "response" (text "hello") (
      field "is_session_completed" (bool true)
        (field "reward" (text "1.0") (field "created_at" (text "2026-01-01T00:00:00Z") end))))

abbrev pub a_query : LandingQuery → Outcome Json
a_query q = ok (array (cons (object a_row) nil))

abbrev pub a_session_result : SessionResult
a_session_result = record {
  session_id = "s";
  result_status = ResultStatus.succeeded;
  score = some "1.0";
  completed_at = some 5;
  retry_after_seconds = none;
  result = none;
  error = none;
}

abbrev some_steps : SessionSteps
some_steps = record {
  session_id = "s";
  step_count = 1;
  sealed = true;
  steps = record { step_id = "1"; sequence_no = 1 } ∷ [];
}

abbrev a_trajectory : StepTrajectory
a_trajectory = record {
  session_id = "s";
  step_id = "1";
  sequence_no = 1;
  started_at = some 5;
  finished_at = some 5;
  trajectory = field "model_output" (object (field "content" (text "hello") end)) end;
}

result_found : Sessions.get_result a_python (landing a_query) "j" "s" ≡ ok (some a_session_result)
unfolding Sessions.get_result
result_found = refl

steps_found : get_steps a_python (landing a_query) "j" "s" ≡ ok (some some_steps)
unfolding get_steps
steps_found = refl

trajectory_found : get_trajectory a_python (landing a_query) "j" "s" "1" ≡ ok (some a_trajectory)
unfolding get_trajectory
trajectory_found = refl

rows_found : trajectory_rows a_python (a_row ∷ []) ≡ ok (a_row ∷ [])
unfolding trajectory_rows
rows_found = refl

row_counts : is_trajectory_row a_python a_row ≡ ok true
unfolding is_trajectory_row
row_counts = refl

read_literal-escape_sql_literal_example :
    read_literal false (escape_sql_literal "o'clock" <> ("'" <> " AND")) ≡ some ("o'clock", " AND")
read_literal-escape_sql_literal_example = read_literal-escape_sql_literal "o'clock" " AND" refl

read_filter-filter_query_example :
    read_filter (filter_query "a'b" (some "' OR '1'='1")) ≡ some ("a'b", some "' OR '1'='1")
read_filter-filter_query_example = read_filter-filter_query "a'b" (some "' OR '1'='1")

trajectory_rows-IsSorted_example :
    HasDistinct (step_name a_python) (a_row ∷ [])
    × (IsSorted (row_lt a_python) (a_row ∷ [])
        × All (λ row. is_trajectory_row a_python row ≡ ok true) (a_row ∷ []))
trajectory_rows-IsSorted_example =
    trajectory_rows-IsSorted a_python (a_row ∷ []) (a_row ∷ []) rows_found

trajectory_rows_latest_example : Any (Supersedes a_python a_row) (a_row ∷ [])
trajectory_rows_latest_example =
    trajectory_rows_latest a_python (a_row ∷ []) (a_row ∷ []) a_row rows_found (inl refl) row_counts

get_steps-IsWellFormed_example : IsWellFormed some_steps
get_steps-IsWellFormed_example =
    get_steps-IsWellFormed a_python (landing a_query) "j" "s" some_steps steps_found

get_trajectory-Agrees_example : Agrees "1" (some a_trajectory) some_steps.steps
get_trajectory-Agrees_example =
    get_trajectory-Agrees a_python a_query "j" "s" "1" some_steps (some a_trajectory) steps_found
      trajectory_found

get_result-IsConsistent_example : IsConsistent "s" a_session_result
get_result-IsConsistent_example =
    get_result-IsConsistent a_python (landing a_query) "j" "s" a_session_result result_found

abbrev a_listing : LandingQuery → Outcome Json
a_listing q = ok (
    array (
      cons (object (field "session_id" (text "s") end)) (
        cons (object (field "session_id" (text "") end))
          (cons (object (field "session_id" (text "s") end)) nil))))

sessions_listed : Sessions.list_session_ids (landing a_listing) "j" ≡ ok ("s" ∷ [])
unfolding Sessions.list_session_ids
sessions_listed = refl

list_session_ids-IsListing_example : IsListing ("s" ∷ [])
list_session_ids-IsListing_example =
    list_session_ids-IsListing (landing a_listing) "j" ("s" ∷ []) sessions_listed
