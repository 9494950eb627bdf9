-- ===== src/Platform/Steps.antt =====
-- `get_steps` and `get_trajectory` of `WTDataPlatformRepository` in data_platform.py, on both surfaces
-- of the client.
use safactory_server.Base.{
  ℕ, suc, String, Bool, true, not, ◌==◌, ◌&&◌, Option, none, some, List, [], ◌∷◌, map, length,
  order_by, same_text, if◌then◌else◌,
}
use safactory_server.Json.{Json, null, bool, object, Fields, end, field}
use safactory_server.Domain.Entities.{SessionSteps, StepIndex, StepTrajectory}
use safactory_server.Store.Failure.{
  type_error, value_error, data_platform_error, Outcome, ok, raised,
}
use safactory_server.Outcomes.{◌>>=◌, ◌>>◌, require, collect, any_of, wrap}
use safactory_server.Platform.Values.{
  Python, get, field_of, datetime_or_none, required_string, required_positive_int,
}
use safactory_server.Platform.Rows.{
  row_datetime, trajectory_rows, is_sealing_row, trajectory_payload, step_name,
}
use safactory_server.Platform.Queries.{Client, landing, legacy, query_landing}
use safactory_server.Platform.Sessions.{is_among, list_of, is_same}

-- `enumerate(steps, start=n)`.
unfoldable pub numbered : Python → ℕ → List Fields → List StepIndex
numbered py n [] = []
numbered py n (row ∷ rows) =
    record { step_id = step_name py row; sequence_no = n } ∷ numbered py (suc n) rows

abbrev pub session_steps : String → Bool → List StepIndex → SessionSteps
session_steps session_id sealed steps = record {
  session_id = session_id;
  step_count = length steps;
  sealed = sealed;
  steps = steps;
}

unfoldable pub landing_steps : Python → String → List Fields → Outcome (Option SessionSteps)
unfolding trajectory_rows numbered any_of is_sealing_row
landing_steps py session_id [] = ok none
landing_steps py session_id (row ∷ rows) = do
  steps ← trajectory_rows py (row ∷ rows)
  sealed ← any_of (is_sealing_row py) (row ∷ rows)
  ok (some (session_steps session_id sealed (numbered py 1 steps)))

unfoldable pub step_index : Python → Json → Outcome StepIndex
unfolding required_string required_positive_int
step_index py row = do
  step_id ← required_string py row "step_id"
  sequence_no ← required_positive_int row "sequence_no"
  ok (record { step_id = step_id; sequence_no = sequence_no })

-- `len({item.step_id for item in steps}) == len(steps)`.
unfoldable pub has_unique_ids : List StepIndex → Bool
unfolding is_among
has_unique_ids [] = true
has_unique_ids (s ∷ steps) =
    not (is_among s.step_id (map (λ t. t.step_id) steps)) && has_unique_ids steps

-- `tuple(item.sequence_no for item in steps) == tuple(range(n, …))`.
unfoldable pub is_contiguous : ℕ → List StepIndex → Bool
is_contiguous n [] = true
is_contiguous n (s ∷ steps) = s.sequence_no == n && is_contiguous (suc n) steps

-- The checks on the steps of the legacy surface.
unfoldable pub checked_steps : String → Bool → List StepIndex → Outcome (Option SessionSteps)
unfolding has_unique_ids is_contiguous
checked_steps session_id sealed steps = do
  require (has_unique_ids steps) value_error
  require (is_contiguous 1 steps) value_error
  ok (some (session_steps session_id sealed steps))

-- `isinstance(sealed, bool)`.
unfoldable pub flag_of : Json → Outcome Bool
flag_of (bool b) = ok b
flag_of other = raised type_error

unfoldable pub steps_of : Python → String → Json → Outcome (Option SessionSteps)
unfolding list_of field_of flag_of collect step_index order_by checked_steps
steps_of py session_id response = do
  rows ← list_of (field_of "steps" response)
  sealed ← flag_of (field_of "sealed" response)
  steps ← collect (step_index py) rows
  checked_steps session_id sealed (order_by (λ s. s.sequence_no) steps)

unfoldable pub legacy_steps : Python → String → Json → Outcome (Option SessionSteps)
unfolding steps_of
legacy_steps py session_id null = ok none
legacy_steps py session_id response = steps_of py session_id response

unfoldable pub find_steps : Python → Client → String → String → Outcome (Option SessionSteps)
unfolding query_landing landing_steps legacy_steps
find_steps py (landing query) job_id session_id =
    query_landing query job_id (some session_id) none >>= landing_steps py session_id
find_steps py (legacy sessions results list_steps trajectories) job_id session_id =
    list_steps job_id session_id >>= legacy_steps py session_id

-- `get_steps`.
unfoldable pub get_steps : Python → Client → String → String → Outcome (Option SessionSteps)
unfolding find_steps
get_steps py client job_id session_id =
    wrap data_platform_error (find_steps py client job_id session_id)

unfoldable pub trajectory_at :
    Python → String → String → ℕ → Fields → Outcome (Option StepTrajectory)
unfolding row_datetime trajectory_payload
trajectory_at py session_id step_id sequence_no row = do
  timestamp ← row_datetime py row
  ok (
      some (record {
        session_id = session_id;
        step_id = step_id;
        sequence_no = sequence_no;
        started_at = timestamp;
        finished_at = timestamp;
        trajectory = trajectory_payload py row;
      }))

-- The loop of `get_trajectory`.
unfoldable pub seek_step :
    Python → String → String → ℕ → List Fields → Outcome (Option StepTrajectory)
unfolding trajectory_at
seek_step py session_id step_id n [] = ok none
seek_step py session_id step_id n (row ∷ rows) =
    let rest = seek_step py session_id step_id (suc n) rows in
    if same_text (step_name py row) step_id then trajectory_at py session_id step_id n row else rest

-- `value is None or isinstance(value, dict)`, and the dictionary with the value.
unfoldable pub trajectory_part : Fields → String → Fields → Outcome Fields
unfolding get
trajectory_part raw name rest = elim (get name raw) [
  | null ↦ ok rest
  | object fs ↦ ok (field name (object fs) rest)
  | other ↦ raised type_error
]

-- The loop over the four parts of a trajectory.
unfoldable pub trajectory_parts : Fields → Outcome Fields
unfolding trajectory_part
trajectory_parts raw =
    trajectory_part raw "observation" end
    >>= trajectory_part raw "action"
    >>= trajectory_part raw "model_output"
    >>= trajectory_part raw "model_input"

unfoldable pub object_of : Json → Outcome Fields
object_of (object fs) = ok fs
object_of other = raised type_error

unfoldable pub trajectory_of_row : Python → String → String → Json → Outcome (Option StepTrajectory)
unfolding field_of object_of trajectory_parts required_positive_int datetime_or_none
trajectory_of_row py session_id step_id row = do
  require
      (is_same session_id (field_of "session_id" row) && is_same step_id (field_of "step_id" row))
      value_error
  raw ← object_of (field_of "trajectory" row)
  trajectory ← trajectory_parts raw
  sequence_no ← required_positive_int row "sequence_no"
  started_at ← datetime_or_none py (field_of "started_at" row)
  finished_at ← datetime_or_none py (field_of "finished_at" row)
  ok (
      some (record {
        session_id = session_id;
        step_id = step_id;
        sequence_no = sequence_no;
        started_at = started_at;
        finished_at = finished_at;
        trajectory = trajectory;
      }))

unfoldable pub legacy_trajectory : Python → String → String → Json → Outcome (Option StepTrajectory)
unfolding trajectory_of_row
legacy_trajectory py session_id step_id null = ok none
legacy_trajectory py session_id step_id row = trajectory_of_row py session_id step_id row

unfoldable pub find_trajectory :
    Python → Client → String → String → String → Outcome (Option StepTrajectory)
unfolding query_landing trajectory_rows seek_step legacy_trajectory
find_trajectory py (landing query) job_id session_id step_id = do
  rows ← query_landing query job_id (some session_id) none
  steps ← trajectory_rows py rows
  seek_step py session_id step_id 1 steps
find_trajectory py (legacy sessions results steps get_step_trajectory) job_id session_id step_id =
    get_step_trajectory job_id session_id step_id >>= legacy_trajectory py session_id step_id

-- `get_trajectory`.
unfoldable pub get_trajectory :
    Python → Client → String → String → String → Outcome (Option StepTrajectory)
unfolding find_trajectory
get_trajectory py client job_id session_id step_id =
    wrap data_platform_error (find_trajectory py client job_id session_id step_id)
