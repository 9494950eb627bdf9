-- ===== src/Store/Table.antt =====
-- The tables `jobs` and `job_events` of the schema in control_store.py, and the SQL that the store
-- runs on them: a list of rows in the order of insertion, a primary key and two UNIQUE columns.
use safactory_server.Base.{
  ℕ, suc, String, Bool, false, Option, none, some, List, [], ◌∷◌, same_text, ◌==◌, ◌&&◌, ◌||◌,
  if◌then◌else◌,
}
use safactory_server.Json.{Json}
use safactory_server.Store.Row.{ControlJob}

-- A row of `job_events`; its payload is the sanitized mapping.
pub record JobEvent : Type 0 where
  pub event_job : String
  pub event_type : String
  pub event_phase : String
  pub payload : List (String × Json)
  pub event_created_at : ℕ

pub record Store : Type 0 where
  pub jobs : List ControlJob
  pub log : List JobEvent

abbrev pub has_id : String → ControlJob → Bool
has_id job_id j = same_text j.job_id job_id

-- SELECT * FROM jobs WHERE job_id = ?
unfoldable pub find_row : String → List ControlJob → Option ControlJob
find_row job_id [] = none
find_row job_id (j ∷ js) = if has_id job_id j then some j else find_row job_id js

-- The WHERE clause of both UPDATE statements.
abbrev pub is_current : String → ℕ → ControlJob → Bool
is_current job_id version j = has_id job_id j && (j.version == version)

-- `cursor.rowcount` of the UPDATE.
unfoldable pub rowcount : String → ℕ → List ControlJob → ℕ
rowcount job_id version [] = 0
rowcount job_id version (j ∷ js) =
    let rest = rowcount job_id version js in if is_current job_id version j then suc rest else rest

-- UPDATE jobs SET … WHERE job_id = ? AND version = ?
unfoldable pub write_rows :
    String → ℕ → (ControlJob → ControlJob) → List ControlJob → List ControlJob
write_rows job_id version f [] = []
write_rows job_id version f (j ∷ js) =
    (if is_current job_id version j then f j else j) ∷ write_rows job_id version f js

-- Two values in a UNIQUE column collide when both are there and equal.
abbrev pub collides : Option String → Option String → Bool
collides none b = false
collides (some a) none = false
collides (some a) (some b) = same_text a b

abbrev pub clashes : ControlJob → ControlJob → Bool
clashes j k =
    collides j.gateway_rjob_id k.gateway_rjob_id || collides j.safactory_rjob_id k.safactory_rjob_id

unfoldable pub clashes_any : ControlJob → List ControlJob → Bool
clashes_any j [] = false
clashes_any j (k ∷ ks) = clashes j k || clashes_any j ks

-- Some two rows break a UNIQUE constraint of the columns gateway_rjob_id and safactory_rjob_id.
unfoldable pub breaks_unique : List ControlJob → Bool
unfolding clashes_any
breaks_unique [] = false
breaks_unique (j ∷ js) = clashes_any j js || breaks_unique js
