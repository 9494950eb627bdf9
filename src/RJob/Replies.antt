-- ===== src/RJob/Replies.antt =====
-- What `HttpRJobClient` of rjob.py returns or raises, whatever the control plane answers.
use Prim.Native.String.{String, ◌++◌ as ◌<>◌}
use safactory_server.Base.{
  ◌⊎◌, ℕ, pos, negsuc, Bool, true, false, ◌&&◌, leb, Option, none, some, List, ◌≡◌, refl,
  Bool-cases, inl, inr, All, arith, subst,
}
use safactory_server.Json.{Json, null, bool, int, float, text, array, object, Fields, end, field}
use safactory_server.Text.{is_empty}
use safactory_server.Store.Failure.{
  Failure, rjob_dependency_error, json_decode_error, http_exception, Outcome, ok, raised,
}
use safactory_server.Outcomes.{>>=-eq-ok}
use safactory_server.Platform.Values.{get}
use safactory_server.RJob.{RJobSpec, RJobSnapshot}
use safactory_server.RJob.Http.{
  HttpClient, HttpRequest, broken, answered, spec_json, sync_request, request_of, address_of,
  port_of, is_counter, count_of, with_count, counters, summary_of, snapshot_from, get_rjob,
}

-- `except (UnicodeError, json.JSONDecodeError)` catches it.
abbrev pub is_decode_error : Failure → Bool
is_decode_error json_decode_error = true
is_decode_error other = false

-- An exception that is not turned into RJobDependencyError: the answer to the request breaks off with
-- another exception of http.client, or its content makes `json.loads` raise one that is no decode error.
abbrev pub Escapes : HttpClient → HttpRequest → Failure → Type 0
Escapes client r e =
    ((client.urlopen r ≡ broken) × (e ≡ http_exception))
    ⊎ ((content : String) × ((client.urlopen r ≡ answered content)
          × ((client.json_loads content ≡ raised e) × (is_decode_error e ≡ false))))

-- It returns, or it raises the one exception that the orchestrator waits out, or one that escapes.
abbrev pub IsGuarded {ℓ} : {A : Type ℓ} → HttpClient → HttpRequest → Outcome A → Type 0
IsGuarded client r (ok a) = Unit
IsGuarded client r (raised e) = (e ≡ rjob_dependency_error) ⊎ Escapes client r e

-- The requests of the three operations.
abbrev pub create_request : HttpClient → RJobSpec → HttpRequest
create_request client spec = request_of client "POST" "/v1/rjobs" (some (spec_json spec))

abbrev pub get_request : HttpClient → String → HttpRequest
get_request client rjob_id = request_of client "GET" ("/v1/rjobs/" <> client.quote rjob_id) none

abbrev pub stop_request : HttpClient → String → HttpRequest
stop_request client rjob_id = request_of client "DELETE" ("/v1/rjobs/" <> client.quote rjob_id) none

-- A text that is there is filled.
abbrev pub IsFilled : Option String → Type 0
IsFilled none = Unit
IsFilled (some t) = is_empty t ≡ false

-- A port that is there is one of TCP.
abbrev pub IsPort : Option ℕ → Type 0
IsPort none = Unit
IsPort (some n) = (leb 1 n ≡ true) × (leb n 65535 ≡ true)

pub record IsSnapshot (rjob_id : String) (s : RJobSnapshot) : Type 0 where
  pub same_rjob : s.rjob_id ≡ rjob_id
  pub addressed : IsFilled s.address
  pub reachable : IsPort s.port
  pub counted : All (λ c. is_counter c.0 ≡ true) s.workload_summary

address_of-IsFilled : (j : Json) → IsFilled (address_of j)
address_of-IsFilled (text t) = elim (Bool-cases (is_empty t)) [
  | inl empty ↦ rw empty tt
  | inr filled ↦ rw filled filled
]
address_of-IsFilled null = tt
address_of-IsFilled (bool b) = tt
address_of-IsFilled (int n) = tt
address_of-IsFilled (float t) = tt
address_of-IsFilled (array xs) = tt
address_of-IsFilled (object fs) = tt

port_of-IsPort : (j : Json) → IsPort (port_of j)
port_of-IsPort (int (pos n)) = elim (Bool-cases (leb 1 n && leb n 65535)) [
  | inl fits ↦ rw fits (ground (arith), ground (arith))
  | inr outside ↦ rw outside tt
]
port_of-IsPort (int (negsuc n)) = tt
port_of-IsPort null = tt
port_of-IsPort (bool b) = tt
port_of-IsPort (text t) = tt
port_of-IsPort (float t) = tt
port_of-IsPort (array xs) = tt
port_of-IsPort (object fs) = tt

counted :
    (k : String) (o : Option ℕ) (rest : List (String × ℕ))
    → is_counter k ≡ true
    → All (λ c. is_counter c.0 ≡ true) rest
    → All (λ c. is_counter c.0 ≡ true) (with_count true k o rest)
counted k none rest counts h = h
counted k (some n) rest counts h = (counts, h)

All-with_count :
    (k : String) (o : Option ℕ) (rest : List (String × ℕ))
    → All (λ c. is_counter c.0 ≡ true) rest
    → All (λ c. is_counter c.0 ≡ true) (with_count (is_counter k) k o rest)
All-with_count k o rest h = elim (Bool-cases (is_counter k)) [
  | inr other ↦ rw other h
  | inl counts ↦ rw counts (counted k o rest counts h)
]

All-counters : (fs : Fields) → All (λ c. is_counter c.0 ≡ true) (counters fs)
unfolding counters
All-counters end = tt
All-counters (field k v fs) = All-with_count k (count_of v) (counters fs) (All-counters fs)

summary_of-All : (j : Json) → All (λ c. is_counter c.0 ≡ true) (summary_of j)
summary_of-All (object fs) = All-counters fs
summary_of-All null = tt
summary_of-All (bool b) = tt
summary_of-All (int n) = tt
summary_of-All (float t) = tt
summary_of-All (text t) = tt
summary_of-All (array xs) = tt

snapshot_from-IsSnapshot :
    (client : HttpClient) (rjob_id : String) (response : Fields)
    → IsSnapshot rjob_id (snapshot_from client rjob_id response)
unfolding snapshot_from
snapshot_from-IsSnapshot client rjob_id response = record {
  same_rjob = refl;
  addressed = address_of-IsFilled (get "address" response);
  reachable = port_of-IsPort (get "port" response);
  counted = summary_of-All (get "workload_summary" response);
}

-- Whatever the control plane answers, a snapshot that `get` returns is about the RJob that was asked for;
-- its address, where it has one, is not empty; its port, where it has one, lies between 1 and 65535; and
-- its counters are among the five known ones. A snapshot may have no address and no port.
pub get_rjob-IsSnapshot :
    (client : HttpClient) (rjob_id : String) (s : RJobSnapshot)
    → get_rjob client rjob_id ≡ ok s
    → IsSnapshot rjob_id s
unfolding get_rjob
get_rjob-IsSnapshot client rjob_id s h =
    let (response, (e, r)) =
      >>=-eq-ok (sync_request client "GET" ("/v1/rjobs/" <> client.quote rjob_id) none) _ h in
    let same : snapshot_from client rjob_id response ≡ s = cc r in
    subst (IsSnapshot rjob_id) same (snapshot_from-IsSnapshot client rjob_id response)
