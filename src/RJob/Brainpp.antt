-- ===== src/RJob/Brainpp.antt =====
-- `BrainPPRJobClient.get` of rjob.py on JSON values: the state, the exit code and the address of an RJob.
use Prim.Native.String.{String, ◌++◌ as ◌<>◌}
use safactory_server.Base.{
  ℕ, suc, ℤ, Bool, true, false, ◌||◌, leb, Option, none, some, is_some, List, [], ◌∷◌, ◌++◌,
  same_text, if◌then◌else◌,
}
use safactory_server.Json.{
  Json, null, bool, int, float, text, array, object, Items, nil, cons, Fields, end, field,
}
use safactory_server.Store.Failure.{rjob_dependency_error, type_error, Outcome, ok, raised}
use safactory_server.Outcomes.{◌>>=◌, wrap}
use safactory_server.Platform.Values.{field_of}
use safactory_server.Platform.Sessions.{items_of}
use safactory_server.RJob.{
  RJobState, pending, running, succeeded, failed, cancelled, unknown, same_state, RJobSnapshot,
}
use safactory_server.RJob.Addresses.{AddressLibrary, AddressFacts, is_excluded, extract_rjob_ips}

-- What the client is made with, and what it calls. `list_jobs` and `read_logs` are the SDK's `list` and
-- `logs_rjob` as JSON, if they answer; `truth` is `bool(value)`, `str_of` is `str(value)`, `normalized_status`
-- is `s.strip().lower()`, `lower` is `s.lower()`, and `find_logged` is `re.findall` with the pattern of
-- SAFACTORY_RJOB_IP.
pub record BrainppClient : Type 0 where
  pub list_jobs : String → Option (List Json)
  pub read_logs : String → Option String
  pub gateway_port : ℕ
  pub truth : Json → Bool
  pub str_of : Json → String
  pub normalized_status : String → String
  pub lower : String → String
  pub find_logged : String → List String
  pub addresses : AddressLibrary

abbrev pub or_value : BrainppClient → Json → Json → Json
or_value client value default = if client.truth value then value else default

unfoldable pub named_status : BrainppClient → Json → Json → String
unfolding field_of
named_status client value null =
    client.str_of (or_value client (field_of "name" value) (or_value client value (text "Unknown")))
named_status client value current =
    client.str_of (or_value client (field_of "name" current) current)

-- `_status_text`.
unfoldable pub status_text : BrainppClient → Json → String
unfolding named_status field_of
status_text client (text t) = t
status_text client value = named_status client value (field_of "current" value)

unfoldable pub state_of : String → RJobState
state_of t =
    if same_text t "running"
    then running
    else if same_text t "succeeded"
    then succeeded
    else if same_text t "failed"
    then failed
    else if same_text t "stopped"
        || same_text t "killed"
        || same_text t "killing"
        || same_text t "deleting"
    then cancelled
    else if same_text t "created"
        || same_text t "pending"
        || same_text t "starting"
        || same_text t "inqueue"
        || same_text t "restarting"
    then pending
    else unknown

-- `_brainpp_state`.
unfoldable pub brainpp_state : BrainppClient → Json → RJobState
unfolding state_of status_text
brainpp_state client value = state_of (client.normalized_status (status_text client value))

abbrev pub field_values : Fields → List Json
field_values end = []
field_values (field k v fs) = v ∷ field_values fs

-- What iterating over a value gives that is no collection: nothing for one that is false, since `tasks or ()`
-- replaces it, and a TypeError for one that is true.
abbrev pub iterated : Bool → Outcome (List Json)
iterated true = raised type_error
iterated false = ok []

-- `task_values`. A text is iterated over by its characters, which have no replica status.
unfoldable pub task_values : BrainppClient → Json → Outcome (List Json)
unfolding items_of
task_values client (object fs) = ok (field_values fs)
task_values client (array xs) = ok (items_of xs)
task_values client null = ok []
task_values client (text t) = ok []
task_values client (bool b) = iterated b
task_values client (int n) = iterated (client.truth (int n))
task_values client (float t) = iterated (client.truth (float t))

unfoldable pub statuses_in : Json → List Json
unfolding items_of
statuses_in null = []
statuses_in (array xs) = items_of xs
statuses_in other = other ∷ []

-- `_member(task, "replicaStatus") or _member(task, "replica_status")`.
unfoldable pub replicas_of : BrainppClient → Json → Json
unfolding field_of
replicas_of client task =
    or_value client (field_of "replicaStatus" task) (field_of "replica_status" task)

unfoldable pub task_statuses : BrainppClient → List Json → List Json
unfolding statuses_in replicas_of
task_statuses client [] = []
task_statuses client (task ∷ tasks) =
    statuses_in (replicas_of client task) ++ task_statuses client tasks

-- `_rjob_replica_statuses`.
unfoldable pub replica_statuses : BrainppClient → List Json → Outcome (List Json)
unfolding task_statuses task_values field_of
replica_statuses client [] = ok []
replica_statuses client (job ∷ jobs) =
    task_values client (field_of "tasks" (field_of "spec" job)) >>= λ tasks.
    replica_statuses client jobs >>= λ rest. ok (task_statuses client tasks ++ rest)

abbrev pub first_of : {A : Type 0} → Option A → Option A → Option A
first_of (some a) other = some a
first_of none other = other

abbrev int_under : Bool → Json → Option ℤ
int_under true (int n) = some n
int_under true other = none
int_under false other = none

-- The first loop of `_extract_optional_int`, for the names of an exit code.
unfoldable pub named_int : BrainppClient → Fields → Option ℤ
named_int client end = none
named_int client (field k v fs) =
    let key = client.lower k in
    first_of (int_under (same_text key "exitcode" || same_text key "exit_code") v)
      (named_int client fs)

-- `_extract_optional_int`.
unfoldable mutual
  unfolding named_int

  pub extract_int : BrainppClient → ℕ → Json → Option ℤ
  extract_int client depth (object fs) =
      let below = extract_below client (suc depth) fs in
      if leb 11 depth then none else first_of (named_int client fs) below
  extract_int client depth null = none
  extract_int client depth (bool b) = none
  extract_int client depth (int n) = none
  extract_int client depth (float t) = none
  extract_int client depth (text t) = none
  extract_int client depth (array xs) = none

  pub extract_below : BrainppClient → ℕ → Fields → Option ℤ
  extract_below client depth end = none
  extract_below client depth (field k v fs) =
      first_of (extract_int client depth v) (extract_below client depth fs)

abbrev pub logged_if : Option AddressFacts → Option String
logged_if none = none
logged_if (some a) = if is_excluded a then none else some a.address

unfoldable pub first_logged : AddressLibrary → List String → Option String
first_logged lib [] = none
first_logged lib (candidate ∷ candidates) =
    first_of (logged_if (lib.ip_address candidate)) (first_logged lib candidates)

-- `_extract_logged_rjob_ip` of what `_logs` gives.
unfoldable pub logged_address : BrainppClient → Option String → Option String
unfolding first_logged
logged_address client none = none
logged_address client (some logs) = first_logged client.addresses (client.find_logged logs)

abbrev pub head_of : List String → Option String
head_of [] = none
head_of (a ∷ rest) = some a

abbrev pub to_array : List Json → Items
to_array [] = nil
to_array (x ∷ xs) = cons x (to_array xs)

-- The address: of the replicas, of the jobs, or of the logs of a running RJob.
unfoldable pub find_address :
    BrainppClient → String → RJobState → List Json → List Json → Option String
unfolding extract_rjob_ips logged_address
find_address client rjob_id state statuses jobs =
    first_of (head_of (extract_rjob_ips client.addresses (array (to_array statuses)))) (
      first_of (head_of (extract_rjob_ips client.addresses (array (to_array jobs)))) (
        if same_state state running
        then logged_address client (client.read_logs rjob_id)
        else none))

abbrev pub is_stopped : RJobState → Bool
is_stopped s = same_state s failed || same_state s cancelled

unfoldable pub snapshot_at : BrainppClient → String → List Json → Json → List Json → RJobSnapshot
unfolding brainpp_state status_text extract_int find_address field_of
snapshot_at client rjob_id jobs job statuses =
    let raw_status = field_of "status" job in
    let state = brainpp_state client raw_status in
    let address = find_address client rjob_id state statuses jobs in
    record {
      rjob_id = rjob_id;
      state = state;
      ready = same_state state running;
      address = address;
      port = if is_some address then some client.gateway_port else none;
      exit_code = extract_int client 0 job;
      failure_summary =
          if is_stopped state then some ("RJob status=" <> status_text client raw_status) else none;
      workload_summary = [];
    }

abbrev unknown_snapshot : String → RJobSnapshot
unknown_snapshot rjob_id = record {
  rjob_id = rjob_id;
  state = unknown;
  ready = false;
  address = none;
  port = none;
  exit_code = none;
  failure_summary = none;
  workload_summary = [];
}

-- The body of the `try`, whose every exception becomes RJobDependencyError.
unfoldable pub listed : BrainppClient → String → Option (List Json) → Outcome RJobSnapshot
unfolding snapshot_at replica_statuses
listed client rjob_id none = raised rjob_dependency_error
listed client rjob_id (some []) = ok (unknown_snapshot rjob_id)
listed client rjob_id (some (job ∷ jobs)) =
    wrap rjob_dependency_error (replica_statuses client (job ∷ jobs)) >>= λ statuses.
    ok (snapshot_at client rjob_id (job ∷ jobs) job statuses)

-- `get`.
unfoldable pub get_snapshot : BrainppClient → String → Outcome RJobSnapshot
unfolding listed
get_snapshot client rjob_id = listed client rjob_id (client.list_jobs rjob_id)
