-- ===== src/Examples/Clients.antt =====
-- The theorems on authentication and on the client of the RJob platform at concrete inputs.
use Prim.Native.Char.{Char, code}
use Prim.Native.String.{String}
use safactory_server.Base.{
  Bool, true, false, ◌==◌, pos, none, some, List, [], ◌∷◌, same_text, if◌then◌else◌, ◌≡◌, refl,
}
use safactory_server.Json.{text, int, bool, object, Fields, end, field}
use safactory_server.Store.Failure.{value_error, type_error, ok, raised}
use safactory_server.RJob.{RJobSpec, RJobSnapshot, RJobState}
use safactory_server.RJob.Http.{HttpClient, HttpReply, answered, get_rjob}
use safactory_server.RJob.Replies.{IsSnapshot, get_rjob-IsSnapshot}
use safactory_server.Auth.{TrustedUser, from_config, words, is_ascii, is_valid_config, authenticate}
use safactory_server.Auth.Raises.{authenticate_raised}
use safactory_server.Auth.Lookup.{Holds, find_user, authenticate-find_user, authenticate_sound}
use safactory_server.Base.{All, HasDistinct}
use safactory_server.Json.{Json}
use safactory_server.RJob.Addresses.{AddressLibrary, matches_in, extract_rjob_ips}
use safactory_server.Platform.Listing.{own}
use safactory_server.RJob.Routable.{IsRoutable, extract_rjob_ips-IsRoutable}
use safactory_server.RJob.Brainpp.{BrainppClient, get_snapshot}
use safactory_server.RJob.Reading.{IsReply, get_snapshot-IsReply}

abbrev is_space : Char → Bool
is_space c = code c == 32

abbrev lower : String → String
lower t = if same_text t "Bearer" then "bearer" else t

abbrev some_users : List TrustedUser
some_users =
    record { username = "alice"; api_key = "k1" } ∷ record { username = "bob"; api_key = "k2" } ∷ []

users_valid : is_valid_config is_space some_users ≡ true
unfolding is_valid_config
users_valid = refl

header_words : words is_space "Bearer  k2" ≡ "Bearer" ∷ "k2" ∷ []
unfolding words
header_words = refl

key_ascii : is_ascii "k2" ≡ true
unfolding is_ascii
key_ascii = refl

bob_enters :
    authenticate is_space lower (from_config some_users) ("Bearer  k2" ∷ []) ≡ ok (some "bob")
unfolding authenticate
bob_enters = refl

authenticate-find_user_example :
    authenticate is_space lower (from_config some_users) ("Bearer  k2" ∷ [])
    ≡ ok (find_user "k2" some_users)
authenticate-find_user_example =
    authenticate-find_user is_space lower some_users "Bearer  k2" "Bearer" "k2" users_valid
      header_words refl key_ascii

authenticate_sound_example :
    (header : String) × ((scheme : String) × ((key : String) × (("Bearer  k2" ∷ [] ≡ header ∷ [])
          × ((words is_space header ≡ scheme ∷ key ∷ [])
              × Holds "bob" key (from_config some_users)))))
authenticate_sound_example =
    authenticate_sound is_space lower (from_config some_users) ("Bearer  k2" ∷ []) "bob" bob_enters

foreign_raised :
    authenticate is_space lower (from_config some_users) ("Bearer é" ∷ []) ≡ raised type_error
unfolding authenticate
foreign_raised = refl

authenticate_raised_example :
    (type_error ≡ type_error)
    × ((header : String) × ((scheme : String) × ((key : String) × (("Bearer é" ∷ [] ≡ header ∷ [])
              × ((words is_space header ≡ scheme ∷ key ∷ [])
                  × ((same_text (lower scheme) "bearer" ≡ true) × (is_ascii key ≡ false)))))))
authenticate_raised_example =
    authenticate_raised is_space lower some_users ("Bearer é" ∷ []) type_error users_valid
      foreign_raised

abbrev a_response : Fields
a_response = field "state" (text "running") (
    field "ready" (bool true) (
      field "address" (text "10.0.0.7") (
        field "port" (int (pos 8000))
          (field "workload_summary" (object (field "total" (int (pos 3)) end)) end))))

abbrev a_client : HttpReply → HttpClient
a_client reply = record {
  endpoint = "http://rjob/";
  token = some "t";
  urlopen = λ r. reply;
  json_loads = λ t. ok (object a_response);
  quote = λ t. t;
  lower_str = λ j. "running";
}

abbrev a_spec : RJobSpec
a_spec = record {
  name = "n";
  idempotency_key = "k";
  namespace = "ns";
  charged_group = "g";
  image = "i";
  image_pull_policy = "IfNotPresent";
  role = "gateway";
  labels = [];
  environment = [];
  command = [];
  working_dir = "/";
  mounts = [];
  resources = end;
  requests = end;
  timeout_seconds = 5;
  daemon = false;
  restart_policy = "Never";
  private_machine = none;
  host_network = none;
  auto_delete_duration = none;
  max_running_duration = none;
}

abbrev a_read_snapshot : RJobSnapshot
a_read_snapshot = record {
  rjob_id = "x";
  state = RJobState.running;
  ready = true;
  address = some "10.0.0.7";
  port = some 8000;
  exit_code = none;
  failure_summary = none;
  workload_summary = ("total", 3) ∷ [];
}

snapshot_read : get_rjob (a_client (answered "{}")) "x" ≡ ok a_read_snapshot
unfolding get_rjob
snapshot_read = refl

get_rjob-IsSnapshot_example : IsSnapshot "x" a_read_snapshot
get_rjob-IsSnapshot_example =
    get_rjob-IsSnapshot (a_client (answered "{}")) "x" a_read_snapshot snapshot_read

-- The content of the answer is a number with too many digits, which escapes.
abbrev a_numeric_client : HttpClient
a_numeric_client = record (a_client (answered "1")) { json_loads = λ t. raised value_error }

value_error_escapes : get_rjob a_numeric_client "x" ≡ raised value_error
unfolding get_rjob
value_error_escapes = refl

abbrev some_addresses : AddressLibrary
some_addresses = record {
  find_candidates = λ t. t ∷ [];
  ip_address = λ t. some (record {
    address = t;
    is_loopback = same_text t "127.0.0.1";
    is_link_local = false;
    is_multicast = false;
    is_unspecified = false;
  });
  normalized = λ t. t;
  contains = λ part t. same_text part t;
  index_text = λ n. "0";
}

abbrev a_listed_job : Json
a_listed_job = object (
    field "status" (text "running") (
      field "podip" (text "127.0.0.1")
        (field "hostip" (text "10.0.0.8") (field "podip" (text "10.0.0.7") end))))

extract_rjob_ips-IsRoutable_example :
    HasDistinct own (extract_rjob_ips some_addresses a_listed_job)
    × All (IsRoutable some_addresses) (extract_rjob_ips some_addresses a_listed_job)
extract_rjob_ips-IsRoutable_example = extract_rjob_ips-IsRoutable some_addresses a_listed_job

addresses_found : extract_rjob_ips some_addresses a_listed_job ≡ "10.0.0.7" ∷ "10.0.0.8" ∷ []
unfolding extract_rjob_ips matches_in
addresses_found = refl

abbrev a_brainpp : BrainppClient
a_brainpp = record {
  list_jobs = λ t. some (a_listed_job ∷ []);
  read_logs = λ t. none;
  gateway_port = 8000;
  truth = λ j. true;
  str_of = λ j. "";
  normalized_status = λ t. t;
  lower = λ t. t;
  find_logged = λ t. [];
  addresses = some_addresses;
}

get_snapshot-IsReply_example : IsReply a_brainpp "x" (get_snapshot a_brainpp "x")
get_snapshot-IsReply_example = get_snapshot-IsReply a_brainpp "x"
