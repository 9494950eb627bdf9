-- ===== src/RJob/Reading.antt =====
-- What `BrainPPRJobClient.get` of rjob.py returns or raises.
use safactory_server.Base.{
  String, Bool, true, false, Option, none, some, is_some, List, [], ◌∷◌, if◌then◌else◌, ◌≡◌, refl,
  Bool-cases, inl, inr, All,
}
use safactory_server.Json.{Json, array}
use safactory_server.Store.Failure.{rjob_dependency_error, Outcome, ok, raised}
use safactory_server.Outcomes.{◌>>=◌, wrap}
use safactory_server.RJob.{RJobState, running, same_state, RJobSnapshot}
use safactory_server.RJob.Addresses.{AddressLibrary, AddressFacts, is_excluded, extract_rjob_ips}
use safactory_server.RJob.Routable.{IsRoutable, extract_rjob_ips-IsRoutable}
use safactory_server.RJob.Brainpp.{
  BrainppClient, to_array, head_of, first_of, logged_if, first_logged, logged_address, find_address,
  snapshot_at, listed, get_snapshot,
}

-- An address that is there can be routed to.
abbrev pub IsReachable : AddressLibrary → Option String → Type 0
IsReachable lib none = Unit
IsReachable lib (some t) = IsRoutable lib t

pub record IsReading (client : BrainppClient) (rjob_id : String) (s : RJobSnapshot) : Type 0 where
  pub same_rjob : s.rjob_id ≡ rjob_id
  pub reachable : IsReachable client.addresses s.address
  pub with_port : is_some s.port ≡ is_some s.address
  pub ready_running : s.ready ≡ same_state s.state running

module _ (lib : AddressLibrary) where
  head_of-IsReachable : (ts : List String) → All (IsRoutable lib) ts → IsReachable lib (head_of ts)
  head_of-IsReachable [] h = tt
  head_of-IsReachable (t ∷ ts) h = h.0

  first_of-IsReachable :
      (a b : Option String) → IsReachable lib a → IsReachable lib b → IsReachable lib (first_of a b)
  first_of-IsReachable none b h g = g
  first_of-IsReachable (some t) b h g = h

  logged_if-IsReachable :
      (candidate : String) (o : Option AddressFacts)
      → lib.ip_address candidate ≡ o
      → IsReachable lib (logged_if o)
  logged_if-IsReachable candidate none e = tt
  logged_if-IsReachable candidate (some a) e = elim (Bool-cases (is_excluded a)) [
    | inl excluded ↦ rw excluded tt
    | inr routable ↦
        rw routable
          (record { candidate = candidate; facts = a; read = e; kept = routable; named = refl })
  ]

  first_logged-IsReachable :
      (candidates : List String) → IsReachable lib (first_logged lib candidates)
  unfolding first_logged
  first_logged-IsReachable [] = tt
  first_logged-IsReachable (c ∷ cs) =
      first_of-IsReachable (logged_if (lib.ip_address c)) (first_logged lib cs)
        (logged_if-IsReachable c (lib.ip_address c) refl) (first_logged-IsReachable cs)

  ips-IsReachable : (payload : Json) → IsReachable lib (head_of (extract_rjob_ips lib payload))
  ips-IsReachable payload =
      head_of-IsReachable (extract_rjob_ips lib payload) (extract_rjob_ips-IsRoutable lib payload).1

module _ (client : BrainppClient) (rjob_id : String) where
  logged-IsReachable : (o : Option String) → IsReachable client.addresses (logged_address client o)
  unfolding logged_address
  logged-IsReachable none = tt
  logged-IsReachable (some logs) =
      first_logged-IsReachable client.addresses (client.find_logged logs)

  if-IsReachable :
      (b : Bool) (o : Option String)
      → IsReachable client.addresses o
      → IsReachable client.addresses (if b then o else none)
  if-IsReachable true o h = h
  if-IsReachable false o h = tt

  find_address-IsReachable :
      (state : RJobState) (statuses jobs : List Json)
      → IsReachable client.addresses (find_address client rjob_id state statuses jobs)
  unfolding find_address
  find_address-IsReachable state statuses jobs =
      let logged = logged_address client (client.read_logs rjob_id) in
      let lib = client.addresses in
      first_of-IsReachable lib (head_of (extract_rjob_ips lib (array (to_array statuses)))) _
        (ips-IsReachable lib (array (to_array statuses)))
        (first_of-IsReachable lib (head_of (extract_rjob_ips lib (array (to_array jobs))))
          (if same_state state running then logged else none)
          (ips-IsReachable lib (array (to_array jobs)))
          (if-IsReachable (same_state state running) logged
            (logged-IsReachable (client.read_logs rjob_id))))

  ported :
      (o : Option String)
      → is_some (if is_some o then some client.gateway_port else none) ≡ is_some o
  ported none = refl
  ported (some t) = refl

  snapshot_at-IsReading :
      (jobs : List Json) (job : Json) (statuses : List Json)
      → IsReading client rjob_id (snapshot_at client rjob_id jobs job statuses)
  unfolding snapshot_at
  snapshot_at-IsReading jobs job statuses = record {
    same_rjob = refl;
    reachable = find_address-IsReachable _ statuses jobs;
    with_port = ported _;
    ready_running = refl;
  }

  -- A reading, or the exception that the orchestrator waits out.
  abbrev pub IsReply : Outcome RJobSnapshot → Type 0
  IsReply (ok s) = IsReading client rjob_id s
  IsReply (raised e) = e ≡ rjob_dependency_error

  snapshot-IsReply :
      (jobs : List Json) (job : Json) (o : Outcome (List Json))
      → IsReply (
          wrap rjob_dependency_error o >>= λ statuses.
          ok (snapshot_at client rjob_id jobs job statuses))
  snapshot-IsReply jobs job (ok statuses) = snapshot_at-IsReading jobs job statuses
  snapshot-IsReply jobs job (raised e) = refl

  listed-IsReply : (o : Option (List Json)) → IsReply (listed client rjob_id o)
  unfolding listed
  listed-IsReply none = refl
  listed-IsReply (some []) = record {
    same_rjob = refl;
    reachable = tt;
    with_port = refl;
    ready_running = refl;
  }
  listed-IsReply (some (job ∷ jobs)) = snapshot-IsReply (job ∷ jobs) job _

  -- Whatever the SDK lists and logs: `get` raises RJobDependencyError, or returns a snapshot of the RJob
  -- that was asked for, which is ready exactly if it is running, has a port exactly if it has an address,
  -- and whose address is not loopback, link-local, multicast or unspecified.
  pub get_snapshot-IsReply : IsReply (get_snapshot client rjob_id)
  unfolding get_snapshot
  get_snapshot-IsReply = listed-IsReply (client.list_jobs rjob_id)
