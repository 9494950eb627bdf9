-- ===== src/RJob/Http.antt =====
-- `HttpRJobClient` of src/server/infrastructure/real/rjob.py: requests to the control plane and what is
-- read from its answers.
use Prim.Native.String.{String, ◌++◌ as ◌<>◌}
use safactory_server.Base.{
  ℕ, ℤ, pos, Bool, true, false, ◌&&◌, ◌||◌, leb, Option, none, some, List, [], ◌∷◌, ◌++◌, same_text,
  if◌then◌else◌,
}
use safactory_server.Json.{
  Json, null, bool, int, text, array, object, Items, nil, cons, Fields, end, field,
}
use safactory_server.Text.{is_empty, rstrip, is_slash}
use safactory_server.Store.Failure.{
  Failure, rjob_dependency_error, http_exception, json_decode_error, Outcome, ok, raised,
}
use safactory_server.Outcomes.{◌>>=◌}
use safactory_server.Platform.Values.{get}
use safactory_server.RJob.{
  RJobState, pending, running, succeeded, failed, cancelled, unknown, MountSpec, RJobSpec,
  RJobSnapshot,
}

pub record HttpRequest : Type 0 where
  pub method : String
  pub url : String
  pub headers : List (String × String)
  pub body : Option Json

-- What `urlopen` and the read of the answer come to: an OSError (an URLError is one), another exception
-- of http.client such as IncompleteRead, or the content.
pub data HttpReply : Type 0 where
  unreachable broken : HttpReply
  answered : String → HttpReply

-- What the client is made with, and what it calls. `json_loads` is `json.loads(content.decode("utf-8"))`,
-- where `json_decode_error` stands for a JSONDecodeError and an UnicodeError, and other exceptions are those
-- of a number with too many digits (a ValueError) and of a nesting that is too deep (a RecursionError).
-- `quote` is `urllib.parse.quote`, and `lower_str` is `str(value).lower()`.
pub record HttpClient : Type 0 where
  pub endpoint : String
  pub token : Option String
  pub urlopen : HttpRequest → HttpReply
  pub json_loads : String → Outcome Json
  pub quote : String → String
  pub lower_str : Json → String

abbrev authorization : Option String → List (String × String)
authorization none = []
authorization (some token) =
    if is_empty token then [] else ("Authorization", "Bearer " <> token) ∷ []

abbrev content_type : Option Json → List (String × String)
content_type none = []
content_type (some payload) = ("Content-Type", "application/json") ∷ []

-- The request of `_sync_request`, with `endpoint.rstrip("/")` of the constructor.
unfoldable pub request_of : HttpClient → String → String → Option Json → HttpRequest
unfolding rstrip
request_of client method path payload = record {
  method = method;
  url = rstrip is_slash client.endpoint <> path;
  headers = ("Accept", "application/json") ∷ content_type payload ++ authorization client.token;
  body = payload;
}

unfoldable pub object_or_refuse : Json → Outcome Fields
object_or_refuse (object fs) = ok fs
object_or_refuse other = raised rjob_dependency_error

-- `except (UnicodeError, json.JSONDecodeError)`.
unfoldable pub undecoded : Failure → Failure
undecoded json_decode_error = rjob_dependency_error
undecoded e = e

-- The value that the content has, and of an exception only what the two clauses leave.
unfoldable pub decoded : Outcome Json → Outcome Json
unfolding undecoded
decoded (ok value) = ok value
decoded (raised e) = raised (undecoded e)

unfoldable pub parse_content : HttpClient → HttpReply → Outcome Fields
unfolding object_or_refuse decoded
parse_content client unreachable = raised rjob_dependency_error
parse_content client broken = raised http_exception
parse_content client (answered content) =
    if is_empty content then ok end else decoded (client.json_loads content) >>= object_or_refuse

-- `_sync_request`.
unfoldable pub sync_request : HttpClient → String → String → Option Json → Outcome Fields
unfolding request_of parse_content
sync_request client method path payload =
    parse_content client (client.urlopen (request_of client method path payload))

abbrev texts : List String → Items
texts [] = nil
texts (t ∷ ts) = cons (text t) (texts ts)

abbrev entries : List (String × String) → Fields
entries [] = end
entries ((k, v) ∷ kvs) = field k (text v) (entries kvs)

abbrev mount_json : MountSpec → Json
mount_json m = object (
    field "source" (text m.source)
      (field "target" (text m.target) (field "read_only" (bool m.read_only) end)))

abbrev mounts_json : List MountSpec → Items
mounts_json [] = nil
mounts_json (m ∷ ms) = cons (mount_json m) (mounts_json ms)

abbrev text_or_null : Option String → Json
text_or_null none = null
text_or_null (some t) = text t

abbrev bool_or_null : Option Bool → Json
bool_or_null none = null
bool_or_null (some b) = bool b

-- `asdict(spec)`.
unfoldable pub spec_json : RJobSpec → Json
spec_json s = object (
    field "name" (text s.name) (
      field "idempotency_key" (text s.idempotency_key) (
        field "namespace" (text s.namespace) (
          field "charged_group" (text s.charged_group) (
            field "image" (text s.image) (
              field "image_pull_policy" (text s.image_pull_policy) (
                field "role" (text s.role) (
                  field "labels" (object (entries s.labels)) (
                    field "environment" (object (entries s.environment)) (
                      field "command" (array (texts s.command)) (
                        field "working_dir" (text s.working_dir) (
                          field "mounts" (array (mounts_json s.mounts)) (
                            field "resources" (object s.resources) (
                              field "requests" (object s.requests) (
                                field "timeout_seconds" (int (pos s.timeout_seconds)) (
                                  field "daemon" (bool s.daemon) (
                                    field "restart_policy" (text s.restart_policy) (
                                      field "private_machine" (text_or_null s.private_machine) (
                                        field "host_network" (bool_or_null s.host_network) (
                                          field "auto_delete_duration"
                                            (text_or_null s.auto_delete_duration)
                                            (field "max_running_duration"
                                              (text_or_null s.max_running_duration)
                                              end)))))))))))))))))))))

-- `isinstance(rjob_id, str) and rjob_id`.
unfoldable pub created_id : Json → Outcome String
created_id (text t) = if is_empty t then raised rjob_dependency_error else ok t
created_id other = raised rjob_dependency_error

-- `create`.
unfoldable pub create : HttpClient → RJobSpec → Outcome String
unfolding sync_request spec_json created_id get
create client spec = sync_request client "POST" "/v1/rjobs" (some (spec_json spec)) >>= λ response.
    created_id (get "rjob_id" response)

-- `RJobState(…)`, and `UNKNOWN` for other texts.
unfoldable pub parse_state : String → RJobState
parse_state t =
    if same_text t "pending"
    then pending
    else if same_text t "running"
    then running
    else if same_text t "succeeded"
    then succeeded
    else if same_text t "failed"
    then failed
    else if same_text t "cancelled"
    then cancelled
    else unknown

abbrev pub address_of : Json → Option String
address_of (text t) = if is_empty t then none else some t
address_of other = none

abbrev pub port_of : Json → Option ℕ
port_of (int (pos n)) = if leb 1 n && leb n 65535 then some n else none
port_of other = none

abbrev pub exit_code_of : Json → Option ℤ
exit_code_of (int n) = some n
exit_code_of other = none

abbrev pub text_of : Json → Option String
text_of (text t) = some t
text_of other = none

abbrev pub is_true : Json → Bool
is_true (bool b) = b
is_true other = false

abbrev pub is_counter : String → Bool
is_counter k =
    same_text k "total"
    || same_text k "running"
    || same_text k "succeeded"
    || same_text k "failed"
    || same_text k "collected"

abbrev pub count_of : Json → Option ℕ
count_of (int (pos n)) = some n
count_of other = none

abbrev pub with_count : Bool → String → Option ℕ → List (String × ℕ) → List (String × ℕ)
with_count true k (some n) rest = (k, n) ∷ rest
with_count true k none rest = rest
with_count false k o rest = rest

-- The comprehension over `summary.items()`.
unfoldable pub counters : Fields → List (String × ℕ)
counters end = []
counters (field k v fs) = with_count (is_counter k) k (count_of v) (counters fs)

abbrev pub summary_of : Json → List (String × ℕ)
summary_of (object fs) = counters fs
summary_of other = []

unfoldable pub snapshot_from : HttpClient → String → Fields → RJobSnapshot
unfolding parse_state counters get
snapshot_from client rjob_id response = record {
  rjob_id = rjob_id;
  state = parse_state (client.lower_str (get "state" response));
  ready = is_true (get "ready" response);
  address = address_of (get "address" response);
  port = port_of (get "port" response);
  exit_code = exit_code_of (get "exit_code" response);
  failure_summary = text_of (get "failure_summary" response);
  workload_summary = summary_of (get "workload_summary" response);
}

-- `get`.
unfoldable pub get_rjob : HttpClient → String → Outcome RJobSnapshot
unfolding sync_request snapshot_from
get_rjob client rjob_id =
    sync_request client "GET" ("/v1/rjobs/" <> client.quote rjob_id) none >>= λ response.
    ok (snapshot_from client rjob_id response)

-- `stop`.
unfoldable pub stop_rjob : HttpClient → String → Outcome (Unit {0})
unfolding sync_request
stop_rjob client rjob_id =
    sync_request client "DELETE" ("/v1/rjobs/" <> client.quote rjob_id) none >>= λ response. ok tt

-- `preflight`.
unfoldable pub preflight : HttpClient → Outcome (Unit {0})
unfolding sync_request
preflight client = sync_request client "GET" "/health" none >>= λ response. ok tt
