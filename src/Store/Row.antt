-- ===== src/Store/Row.antt =====
-- The record `ControlJob` of control_store.py, and the changes that `update` may write. A timestamp
-- is the number of milliseconds of its text; a clock reading is a number of microseconds.
use safactory_server.Base.{ℕ, String, ℤ, Bool, true, false, Option, none, List, [], ◌∷◌, ◌/◌, ◌*◌}
use safactory_server.Domain.{JobStatus}

pub record ControlJob : Type 0 where
  pub job_id : String
  pub request_id : String
  pub owner_username : String
  pub model_id : String
  pub model_checksum : String
  pub model_gateway_json : String
  pub range_id : String
  pub status : JobStatus
  pub phase : String
  pub status_reason : Option String
  pub binding_json : Option String
  pub gateway_image : String
  pub gateway_rjob_id : Option String
  pub gateway_status : Option String
  pub gateway_address : Option String
  pub gateway_port : Option ℕ
  pub gateway_url : Option String
  pub gateway_ready_at : Option ℕ
  pub gateway_exit_code : Option ℤ
  pub gateway_failure_summary : Option String
  pub safactory_image : String
  pub safactory_rjob_id : Option String
  pub safactory_status : Option String
  pub safactory_exit_code : Option ℤ
  pub safactory_failure_summary : Option String
  pub episode_total : ℕ
  pub episode_running : ℕ
  pub episode_succeeded : ℕ
  pub episode_failed : ℕ
  pub episode_collected : ℕ
  pub created_at : ℕ
  pub started_at : Option ℕ
  pub completed_at : Option ℕ
  pub updated_at : ℕ
  pub orchestrator_attempt : ℕ
  pub version : ℕ
  pub cleanup_requested : ℕ

abbrev pub is_terminal : JobStatus → Bool
is_terminal JobStatus.succeeded = true
is_terminal JobStatus.failed = true
is_terminal JobStatus.closed = true
is_terminal JobStatus.queued = false
is_terminal JobStatus.preparing = false
is_terminal JobStatus.running = false
is_terminal JobStatus.closing = false

-- The property `terminal`.
abbrev pub terminal : ControlJob → Bool
terminal j = is_terminal j.status

-- The statuses that the queries of `list_active` and `request_close` name.
abbrev pub is_active : JobStatus → Bool
is_active JobStatus.queued = true
is_active JobStatus.preparing = true
is_active JobStatus.running = true
is_active JobStatus.closing = false
is_active JobStatus.succeeded = false
is_active JobStatus.failed = false
is_active JobStatus.closed = false

-- One keyword argument of `update`: a column of MUTABLE_COLUMNS and its value, or a name that is
-- none of them.
pub data Change : Type 0 where
  status : JobStatus → Change
  phase : String → Change
  status_reason : Option String → Change
  binding_json : Option String → Change
  gateway_image : String → Change
  gateway_rjob_id : Option String → Change
  gateway_status : Option String → Change
  gateway_address : Option String → Change
  gateway_port : Option ℕ → Change
  gateway_url : Option String → Change
  gateway_ready_at : Option ℕ → Change
  gateway_exit_code : Option ℤ → Change
  gateway_failure_summary : Option String → Change
  safactory_image : String → Change
  safactory_rjob_id : Option String → Change
  safactory_status : Option String → Change
  safactory_exit_code : Option ℤ → Change
  safactory_failure_summary : Option String → Change
  episode_total : ℕ → Change
  episode_running : ℕ → Change
  episode_succeeded : ℕ → Change
  episode_failed : ℕ → Change
  episode_collected : ℕ → Change
  started_at : Option ℕ → Change
  completed_at : Option ℕ → Change
  updated_at : ℕ → Change
  orchestrator_attempt : ℕ → Change
  cleanup_requested : ℕ → Change
  unsupported : String → Change

-- `set(changes) - MUTABLE_COLUMNS` is not empty.
unfoldable pub has_unsupported : List Change → Bool
has_unsupported [] = false
has_unsupported (Change.unsupported s ∷ cs) = true
has_unsupported (c ∷ cs) = has_unsupported cs

-- `changes.get("status", current.status)`.
unfoldable pub requested_status : List Change → JobStatus → JobStatus
requested_status [] s = s
requested_status (Change.status t ∷ cs) s = requested_status cs t
requested_status (c ∷ cs) s = requested_status cs s

-- `changes.pop("phase", None)`.
unfoldable pub pop_phase : List Change → List Change
pop_phase [] = []
pop_phase (Change.phase p ∷ cs) = pop_phase cs
pop_phase (c ∷ cs) = c ∷ pop_phase cs

-- One assignment of the UPDATE statement.
unfoldable pub assign : Change → ControlJob → ControlJob
assign (Change.status v) j = record j { status = v }
assign (Change.phase v) j = record j { phase = v }
assign (Change.status_reason v) j = record j { status_reason = v }
assign (Change.binding_json v) j = record j { binding_json = v }
assign (Change.gateway_image v) j = record j { gateway_image = v }
assign (Change.gateway_rjob_id v) j = record j { gateway_rjob_id = v }
assign (Change.gateway_status v) j = record j { gateway_status = v }
assign (Change.gateway_address v) j = record j { gateway_address = v }
assign (Change.gateway_port v) j = record j { gateway_port = v }
assign (Change.gateway_url v) j = record j { gateway_url = v }
assign (Change.gateway_ready_at v) j = record j { gateway_ready_at = v }
assign (Change.gateway_exit_code v) j = record j { gateway_exit_code = v }
assign (Change.gateway_failure_summary v) j = record j { gateway_failure_summary = v }
assign (Change.safactory_image v) j = record j { safactory_image = v }
assign (Change.safactory_rjob_id v) j = record j { safactory_rjob_id = v }
assign (Change.safactory_status v) j = record j { safactory_status = v }
assign (Change.safactory_exit_code v) j = record j { safactory_exit_code = v }
assign (Change.safactory_failure_summary v) j = record j { safactory_failure_summary = v }
assign (Change.episode_total v) j = record j { episode_total = v }
assign (Change.episode_running v) j = record j { episode_running = v }
assign (Change.episode_succeeded v) j = record j { episode_succeeded = v }
assign (Change.episode_failed v) j = record j { episode_failed = v }
assign (Change.episode_collected v) j = record j { episode_collected = v }
assign (Change.started_at v) j = record j { started_at = v }
assign (Change.completed_at v) j = record j { completed_at = v }
assign (Change.updated_at v) j = record j { updated_at = v }
assign (Change.orchestrator_attempt v) j = record j { orchestrator_attempt = v }
assign (Change.cleanup_requested v) j = record j { cleanup_requested = v }
assign (Change.unsupported s) j = j

-- The assignments of the UPDATE statement, in the order of the keyword arguments.
unfoldable pub assign_all : List Change → ControlJob → ControlJob
unfolding assign
assign_all [] j = j
assign_all (c ∷ cs) j = assign_all cs (assign c j)

-- `_timestamp`: the text keeps milliseconds.
abbrev pub timestamp : ℕ → ℕ
timestamp microseconds = microseconds / 1000

-- `parse_timestamp`.
abbrev pub parse_timestamp : ℕ → ℕ
parse_timestamp milliseconds = milliseconds * 1000

-- The arguments of `new_control_job`.
pub record NewJob : Type 0 where
  pub job_id : String
  pub request_id : String
  pub owner_username : String
  pub model_id : String
  pub model_checksum : String
  pub model_gateway_json : String
  pub range_id : String
  pub gateway_image : String
  pub safactory_image : String
  pub now : ℕ

unfoldable pub new_control_job : NewJob → ControlJob
new_control_job n = record {
  job_id = n.job_id;
  request_id = n.request_id;
  owner_username = n.owner_username;
  model_id = n.model_id;
  model_checksum = n.model_checksum;
  model_gateway_json = n.model_gateway_json;
  range_id = n.range_id;
  status = JobStatus.queued;
  phase = "validating_request";
  status_reason = none;
  binding_json = none;
  gateway_image = n.gateway_image;
  gateway_rjob_id = none;
  gateway_status = none;
  gateway_address = none;
  gateway_port = none;
  gateway_url = none;
  gateway_ready_at = none;
  gateway_exit_code = none;
  gateway_failure_summary = none;
  safactory_image = n.safactory_image;
  safactory_rjob_id = none;
  safactory_status = none;
  safactory_exit_code = none;
  safactory_failure_summary = none;
  episode_total = 0;
  episode_running = 0;
  episode_succeeded = 0;
  episode_failed = 0;
  episode_collected = 0;
  created_at = timestamp n.now;
  started_at = none;
  completed_at = none;
  updated_at = timestamp n.now;
  orchestrator_attempt = 0;
  version = 1;
  cleanup_requested = 0;
}
