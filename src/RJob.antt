-- ===== src/RJob.antt =====
-- The RJob data of src/server/infrastructure/real/rjob.py: states, specifications and snapshots,
-- and the command that starts the Gateway.
pub mod Http
pub mod Replies
pub mod Addresses
pub mod Routable
pub mod Brainpp
pub mod Reading
use Prim.Native.String.{◌++◌ as ◌+ₛ◌}
use safactory_server.Base.{ℕ, ◌==◌, ℤ, String, Bool, Option, List, [], ◌∷◌}
use safactory_server.Json.{Fields}

pub data RJobState : Type 0 where
  pending running succeeded failed cancelled unknown : RJobState

-- The text of a state, `RJobState.value`.
unfoldable pub state_value : RJobState → String
state_value pending = "pending"
state_value running = "running"
state_value succeeded = "succeeded"
state_value failed = "failed"
state_value cancelled = "cancelled"
state_value unknown = "unknown"

abbrev pub state_index : RJobState → ℕ
state_index pending = 0
state_index running = 1
state_index succeeded = 2
state_index failed = 3
state_index cancelled = 4
state_index unknown = 5

abbrev pub same_state : RJobState → RJobState → Bool
same_state s t = state_index s == state_index t

pub record MountSpec : Type 0 where
  pub source : String
  pub target : String
  pub read_only : Bool

pub record RJobSpec : Type 0 where
  pub name : String
  pub idempotency_key : String
  pub namespace : String
  pub charged_group : String
  pub image : String
  pub image_pull_policy : String
  pub role : String
  pub labels : List (String × String)
  pub environment : List (String × String)
  pub command : List String
  pub working_dir : String
  pub mounts : List MountSpec
  pub resources : Fields
  pub requests : Fields
  pub timeout_seconds : ℕ
  pub daemon : Bool
  pub restart_policy : String
  pub private_machine : Option String
  pub host_network : Option Bool
  pub auto_delete_duration : Option String
  pub max_running_duration : Option String

-- `workload_summary` maps a counter's name to its value.
pub record RJobSnapshot : Type 0 where
  pub rjob_id : String
  pub state : RJobState
  pub ready : Bool
  pub address : Option String
  pub port : Option ℕ
  pub exit_code : Option ℤ
  pub failure_summary : Option String
  pub workload_summary : List (String × ℕ)

-- The lines of the bootstrap script of `gateway_command`, up to the last.
abbrev bootstrap_lines : List String
bootstrap_lines =
    "import ipaddress\n" ∷ "import os\n" ∷ "import socket\n" ∷ "import sys\n" ∷ "addresses = []\n"
    ∷ "for info in socket.getaddrinfo(socket.gethostname(), None):\n"
    ∷ "    candidate = info[4][0]\n" ∷ "    try:\n"
    ∷ "        address = ipaddress.ip_address(candidate)\n" ∷ "    except ValueError:\n"
    ∷ "        continue\n" ∷ "    if (address.is_loopback or address.is_link_local "
    ∷ "or address.is_multicast or address.is_unspecified):\n" ∷ "        continue\n"
    ∷ "    if str(address) not in addresses:\n" ∷ "        addresses.append(str(address))\n"
    ∷ "if not addresses:\n" ∷ "    probe = socket.socket(socket.AF_INET, socket.SOCK_DGRAM)\n"
    ∷ "    try:\n" ∷ "        probe.connect(('10.68.0.1', 443))\n"
    ∷ "        addresses.append(probe.getsockname()[0])\n" ∷ "    finally:\n"
    ∷ "        probe.close()\n" ∷ "if not addresses:\n"
    ∷ "    raise RuntimeError('could not resolve a non-loopback RJob IP')\n"
    ∷ "print('SAFACTORY_RJOB_IP=' + addresses[0], flush=True)\n" ∷ []

unfoldable pub join : List String → String
join [] = ""
join (t ∷ ts) = ◌+ₛ◌ t (join ts)

-- `gateway_command`, for the function `repr` of texts.
unfoldable pub gateway_command : (String → String) → String → List String
unfolding join
gateway_command text_repr config_target =
    "python"
    ∷ "-c"
    ∷ ◌+ₛ◌ (join bootstrap_lines) (
        ◌+ₛ◌ "os.execv(sys.executable, [sys.executable, '-m', 'gateway', '--config', "
          (◌+ₛ◌ (text_repr config_target) "])\n"))
    ∷ []
