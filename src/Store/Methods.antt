-- ===== src/Store/Methods.antt =====
-- The methods of `SQLiteControlStore`. A method that raises rolls its transaction back.
use safactory_server.Base.{
  ℕ, ◌+◌, String, Bool, true, false, Option, none, some, is_some, List, [], ◌∷◌, ◌++◌, same_text,
  ◌==◌, ◌&&◌, ◌||◌, not, if◌then◌else◌, select, order_by,
}
use safactory_server.Json.{Json}
use safactory_server.Domain.{JobStatus, same_status}
use safactory_server.Store.Failure.{
  key_error, value_error, type_error, runtime_error, sqlite_error, job_state_conflict, Outcome, ok,
  raised,
}
use safactory_server.Store.Row.{
  ControlJob, Change, is_active, terminal, has_unsupported, requested_status, pop_phase, assign_all,
  timestamp,
}
use safactory_server.Store.Table.{
  JobEvent, Store, find_row, rowcount, write_rows, clashes_any, breaks_unique,
}

-- `get`.
unfoldable pub get : String → Store → Option ControlJob
unfolding find_row
get job_id s = find_row job_id s.jobs

-- `add`: the INSERT is refused where it breaks the primary key or a UNIQUE column.
unfoldable pub add : ControlJob → Store → Outcome (Unit {0}) × Store
unfolding find_row clashes_any
add j s =
    if is_some (find_row j.job_id s.jobs) || clashes_any j s.jobs
    then (raised sqlite_error, s)
    else (ok tt, record s { jobs = s.jobs ++ j ∷ [] })

-- `list_active`.
unfoldable pub list_active : Store → List ControlJob
unfolding order_by select
list_active s = order_by (λ j. j.created_at) (select (λ j. is_active j.status) s.jobs)

-- `list_cleanup_pending`.
unfoldable pub list_cleanup_pending : Store → List ControlJob
unfolding order_by select
list_cleanup_pending s =
    order_by (λ j. j.updated_at) (select (λ j. j.cleanup_requested == 1) s.jobs)

-- The end of a transaction that updates one row: the constraints, the row count, and the SELECT
-- that reads the row again.
unfoldable pub reread : String → List ControlJob → Store → Outcome ControlJob × Store
unfolding find_row
reread job_id rows s = elim (find_row job_id rows) [
  | none ↦ (raised type_error, s)
  | some row ↦ (ok row, record s { jobs = rows })
]

unfoldable pub write : ControlJob → (ControlJob → ControlJob) → Store → Outcome ControlJob × Store
unfolding write_rows rowcount breaks_unique reread
write current f s =
    let rows = write_rows current.job_id current.version f s.jobs in
    if breaks_unique rows
    then (raised sqlite_error, s)
    else if not (rowcount current.job_id current.version s.jobs == 1)
    then (raised runtime_error, s)
    else reread current.job_id rows s

-- What `update` decides from the row that it has read: the changes to write, or the exception.
unfoldable pub admit : ControlJob → List Change → Outcome (List Change)
unfolding requested_status pop_phase
admit current changes =
    let requested = requested_status changes current.status in
    if terminal current && not (same_status requested current.status)
    then raised value_error
    else if same_status current.status JobStatus.closing
    then if not (same_status requested JobStatus.closing)
        && not (same_status requested JobStatus.closed)
      then raised job_state_conflict
      else if same_status requested JobStatus.closing
      then ok (pop_phase changes)
      else ok changes
    else ok changes

-- The row that the UPDATE of `update` leaves.
unfoldable pub updated : ℕ → List Change → ControlJob → ControlJob
unfolding assign_all
updated now changes current =
    record (assign_all (changes ++ Change.updated_at (timestamp now) ∷ []) current) {
      version = current.version + 1;
    }

unfoldable pub update_current : ControlJob → ℕ → List Change → Store → Outcome ControlJob × Store
update_current current now changes s = elim (admit current changes) [
  | raised e ↦ (raised e, s)
  | ok admitted ↦ write current (updated now admitted) s
]

-- `update`.
unfoldable pub update : String → ℕ → List Change → Store → Outcome ControlJob × Store
unfolding update_current has_unsupported find_row
update job_id now changes s =
    if has_unsupported changes then (raised value_error, s) else elim (find_row job_id s.jobs) [
      | none ↦ (raised key_error, s)
      | some current ↦ update_current current now changes s
    ]

-- The row that the UPDATE of `request_close` leaves.
unfoldable pub closing_row : ℕ → ControlJob → ControlJob
closing_row now current = record current {
  status = JobStatus.closing;
  phase = "cleaning_rjobs";
  cleanup_requested = 1;
  updated_at = timestamp now;
  version = current.version + 1;
}

-- The rows are paired with `transitioned`.
unfoldable pub with_flag : Bool → Outcome ControlJob × Store → Outcome (ControlJob × Bool) × Store
with_flag b (ok j, s) = (ok (j, b), s)
with_flag b (raised e, s) = (raised e, s)

-- `request_close`.
unfoldable pub request_close : String → ℕ → Store → Outcome (ControlJob × Bool) × Store
unfolding find_row write closing_row with_flag
request_close job_id now s = elim (find_row job_id s.jobs) [
  | none ↦ (raised key_error, s)
  | some current ↦
      if not (is_active current.status)
      then (ok (current, false), s)
      else with_flag true (write current (closing_row now) s)
]

-- `_sanitize_event_payload`, for a lower-casing of texts.
unfoldable pub is_denied : (String → String) → String → Bool
is_denied lower key =
    same_text (lower key) "token"
    || same_text (lower key) "secret"
    || same_text (lower key) "password"
    || same_text (lower key) "route"
    || same_text (lower key) "mount_source"

unfoldable pub sanitize_event_payload :
    (String → String) → List (String × Json) → List (String × Json)
unfolding select is_denied
sanitize_event_payload lower payload = select (λ p. not (is_denied lower (p.0))) payload

-- `add_event`: the foreign key wants the job to be there.
unfoldable pub add_event : JobEvent → Store → Outcome (Unit {0}) × Store
unfolding find_row
add_event e s =
    if is_some (find_row e.event_job s.jobs)
    then (ok tt, record s { log = s.log ++ e ∷ [] })
    else (raised sqlite_error, s)

-- `events`.
unfoldable pub events : String → Store → List JobEvent
unfolding select
events job_id s = select (λ e. same_text e.event_job job_id) s.log
