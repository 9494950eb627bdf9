-- ===== src/Platform/Queries.antt =====
-- `_escape_sql_literal` and `_query_landing` of data_platform.py, and the client's two surfaces.
use Prim.Native.Char.{code}
use Prim.Native.String.{String, ◌++◌ as ◌<>◌}
use safactory_server.Base.{
  Bool, true, false, ◌==◌, Option, none, some, List, [], ◌∷◌, if◌then◌else◌,
}
use safactory_server.Json.{Json, array, object, Items, nil, cons, Fields}
use safactory_server.Store.Failure.{type_error, Outcome, ok, raised}
use safactory_server.Outcomes.{◌>>=◌}

-- `value.replace("'", "''")`.
unfoldable pub escape_sql_literal : String → String
escape_sql_literal String.[] = String.[]
escape_sql_literal (String.◌∷◌ c s) =
    let rest = escape_sql_literal s in
    if code c == 39 then String.◌∷◌ c (String.◌∷◌ c rest) else String.◌∷◌ c rest

-- The arguments of `query_data`.
pub record LandingQuery : Type 0 where
  pub filter_query : String
  pub columns : Option (List String)
  pub partition : String
  pub order_by : Option String
  pub ascending : Bool
  pub checkout_latest : Bool
  pub exclude_none : Bool
  pub deserialize_json : Bool

-- The client of the SDK for one request: `query_data`, or the four methods of the legacy surface.
pub data Client : Type 0 where
  landing : (LandingQuery → Outcome Json) → Client
  legacy :
      (String → Outcome Json)
      → (String → String → Outcome Json)
      → (String → String → Outcome Json)
      → (String → String → String → Outcome Json)
      → Client

unfoldable pub session_clause : Option String → String
unfolding escape_sql_literal
session_clause none = ""
session_clause (some session_id) = " AND session_id = '" <> escape_sql_literal session_id <> "'"

unfoldable pub filter_query : String → Option String → String
unfolding session_clause escape_sql_literal
filter_query job_id session_id =
    "job_id = '" <> escape_sql_literal job_id <> "'" <> session_clause session_id

abbrev pub ordering : Option String → Option String
ordering none = none
ordering (some session_id) = some "step_id"

unfoldable pub landing_query : String → Option String → Option (List String) → LandingQuery
unfolding filter_query
landing_query job_id session_id columns = record {
  filter_query = filter_query job_id session_id;
  columns = columns;
  partition = job_id;
  order_by = ordering session_id;
  ascending = true;
  checkout_latest = true;
  exclude_none = false;
  deserialize_json = true;
}

-- `isinstance(row, dict)` for every row, and the rows.
unfoldable pub object_rows : Items → Outcome (List Fields)
object_rows nil = ok []
object_rows (cons (object fs) xs) = object_rows xs >>= λ rows. ok (fs ∷ rows)
object_rows (cons x xs) = raised type_error

unfoldable pub rows_of : Json → Outcome (List Fields)
unfolding object_rows
rows_of (array xs) = object_rows xs
rows_of other = raised type_error

-- `_query_landing`.
unfoldable pub query_landing :
    (LandingQuery → Outcome Json)
    → String
    → Option String
    → Option (List String)
    → Outcome (List Fields)
unfolding landing_query rows_of
query_landing query job_id session_id columns =
    query (landing_query job_id session_id columns) >>= rows_of
