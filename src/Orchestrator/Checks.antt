-- ===== src/Orchestrator/Checks.antt =====
-- The decisions of orchestrator.py on a snapshot and on a job.
use Prim.Native.Char.{Char}
use Prim.Native.String.{String}
use safactory_server.Base.{
  ℕ, ◌+◌, ◌*◌, Bool, true, false, Option, none, some, List, [], ◌∷◌, ◌==◌, ◌&&◌, ◌||◌, leb, ltb,
  not, same_text, if◌then◌else◌, all, lookup, get_or,
}
use safactory_server.Text.{is_empty, count_chars, all_chars, split, strip, rstrip, is_dot, is_dash}
use safactory_server.Store.Row.{ControlJob, parse_timestamp}
use safactory_server.RJob.{RJobState, same_state, RJobSnapshot}
use safactory_server.Files.{JobFileBinding}
use safactory_server.Settings.{Settings}
use safactory_server.Exec.{Library, IpAddress}

unfoldable pub last_char_is : (Char → Bool) → String → Bool
last_char_is p String.[] = false
last_char_is p (String.◌∷◌ c s) = if is_empty s then p c else last_char_is p s

abbrev pub first_char_is : (Char → Bool) → String → Bool
first_char_is p String.[] = false
first_char_is p (String.◌∷◌ c s) = p c

-- One label of a host name.
unfoldable pub is_label : Library → String → Bool
unfolding last_char_is all_chars count_chars
is_label lib label =
    not (is_empty label)
    && (leb (count_chars label) 63
        && (first_char_is lib.is_alnum label
            && (last_char_is lib.is_alnum label
                && all_chars (λ c. lib.is_alnum c || is_dash c) label)))

-- The `except ValueError` branch: the address is no IP address.
unfoldable pub is_hostname : Library → String → Bool
unfolding is_label split all count_chars
is_hostname lib hostname =
    leb (count_chars hostname) 253 && all (is_label lib) (split is_dot hostname)

unfoldable pub is_route_address : Library → String → Option IpAddress → Bool
unfolding is_hostname
is_route_address lib hostname none = is_hostname lib hostname
is_route_address lib hostname (some ip) = not (ip.is_loopback || ip.is_unspecified)

unfoldable pub is_route_host : Library → String → Bool
unfolding is_route_address strip rstrip
is_route_host lib address =
    let hostname = rstrip is_dot (lib.lower (strip lib.is_space address)) in
    if same_text hostname "localhost" || same_text hostname "0.0.0.0"
    then false
    else is_route_address lib hostname (lib.ip_address hostname)

-- `not snapshot.address or not snapshot.port`, and what follows it.
unfoldable pub is_route : Library → Option String → Option ℕ → Bool
unfolding is_route_host
is_route lib none port = false
is_route lib (some address) none = false
is_route lib (some address) (some port) =
    if is_empty address || port == 0 then false else is_route_host lib address

-- `_gateway_has_route`.
unfoldable pub gateway_has_route : Library → RJobSnapshot → Bool
unfolding is_route
gateway_has_route lib snapshot =
    if not (same_state snapshot.state RJobState.running) || not snapshot.ready
    then false
    else is_route lib snapshot.address snapshot.port

abbrev is_count : ℕ → Option ℕ → Bool
is_count n none = false
is_count n (some m) = m == n

abbrev is_nil : List (String × ℕ) → Bool
is_nil [] = true
is_nil (x ∷ xs) = false

-- `_results_complete`.
unfoldable pub results_complete : JobFileBinding → RJobSnapshot → Bool
unfolding lookup
results_complete binding snapshot =
    let summary = snapshot.workload_summary in
    let expected = binding.total_episodes in
    if is_nil summary
    then true
    else is_count expected (lookup "total" summary)
      && (is_count expected (lookup "succeeded" summary)
          && (is_count expected (lookup "collected" summary)
              && ((get_or (lookup "failed" summary) 0 == 0)
                  && (get_or (lookup "running" summary) 0 == 0))))

-- More than so many seconds lie between a stored timestamp and a clock reading.
abbrev pub elapsed_more : ℕ → ℕ → ℕ → Bool
elapsed_more reading stamp seconds = ltb (parse_timestamp stamp + seconds * 1000000) reading

-- `_timed_out`.
unfoldable pub timed_out : ℕ → ControlJob → ℕ → Bool
timed_out reading job timeout_seconds = elapsed_more reading job.created_at timeout_seconds

unfoldable pub started_timed_out : ℕ → Option ℕ → ℕ → Bool
started_timed_out reading none timeout_seconds = false
started_timed_out reading (some stamp) timeout_seconds = elapsed_more reading stamp timeout_seconds

-- `_controller_timed_out`.
unfoldable pub controller_timed_out : Settings → ℕ → ControlJob → Bool
unfolding started_timed_out
controller_timed_out settings reading job =
    started_timed_out reading job.started_at settings.safactory_timeout_seconds
