-- ===== src/Exec.antt =====
-- The asyncio code as functions on a world: the store, a counter of the awaits so far, and the
-- calls made to the RJob platform. What other tasks do between two steps of a task, what the clock
-- reads, and what the platform answers are functions of the counter, so a statement for every
-- `Environment` speaks of every interleaving and every answer.
pub mod Keeps
pub mod Returns
pub mod Answers
use safactory_server.Base.{
  ℕ, ◌+◌, String, Bool, true, false, Option, none, some, List, [], ◌∷◌, ◌++◌, if◌then◌else◌, ◌≡◌,
  refl,
}
use safactory_server.Domain.Errors.{ErrorCode}
use safactory_server.Json.{Json, Fields}
use safactory_server.Store.Failure.{Failure, sqlite_error, Outcome, ok, raised}
use safactory_server.Store.Row.{ControlJob, NewJob, new_control_job}
use safactory_server.Store.Table.{JobEvent, Store}
use safactory_server.Store.Methods.{add, request_close, add_event}
use safactory_server.RJob.{RJobSpec, RJobSnapshot}
use safactory_server.Files.{JobFileBinding}
use safactory_server.Files.Text.{Codec}
use safactory_server.Settings.{GatewayModelConfig, Settings}
use Prim.Native.Char.{Char}

-- A call that leaves the process.
pub data Call : Type 0 where
  create_rjob : RJobSpec → Call
  get_rjob : String → Call
  stop_rjob : String → Call
  check_gateway : String → String → Call
  bind_files : String → String → Call

pub record World : Type 0 where
  pub store : Store
  pub tick : ℕ
  pub calls : List Call

-- One transaction of another task: the API handlers add jobs, request that one closes, and append
-- events.
pub data Interference : Type 0 where
  add_job : NewJob → Interference
  close_job : String → ℕ → Interference
  log_event : JobEvent → Interference

unfoldable pub interfere : Interference → Store → Store
interfere (add_job n) s = (add (new_control_job n) s).1
interfere (close_job job_id now) s = (request_close job_id now s).1
interfere (log_event e) s = (add_event e s).1

unfoldable pub interfere_all : List Interference → Store → Store
unfolding interfere
interfere_all [] s = s
interfere_all (i ∷ is) s = interfere_all is (interfere i s)

-- Everything that the code does not decide, at each await.
pub record Environment : Type 0 where
  pub clock : ℕ → ℕ
  pub interference : ℕ → List Interference
  pub db_fails : ℕ → Bool
  pub create_reply : ℕ → RJobSpec → Outcome String
  pub get_reply : ℕ → String → Outcome RJobSnapshot
  pub stop_reply : ℕ → String → Outcome (Unit {0})
  pub ready_reply : ℕ → String → String → Outcome Bool
  pub bind_reply : ℕ → String → String → Outcome JobFileBinding

-- What `ipaddress.ip_address` returns.
pub record IpAddress : Type 0 where
  pub is_loopback : Bool
  pub is_unspecified : Bool
  pub ip_version : ℕ

-- Functions of Python and of pydantic that the code calls.
pub record Library : Type 0 where
  pub lower : String → String
  pub upper : String → String
  pub is_alnum : Char → Bool
  pub is_space : Char → Bool
  pub json_loads : String → Option Json
  pub json_dumps : Json → String
  pub json_text : Json → String
  pub decimal : ℕ → String
  pub text_repr : String → String
  pub ip_address : String → Option IpAddress
  pub load_gateway_model : String → Option GatewayModelConfig
  pub codec : Codec

abbrev pub M : Type 0 → Type 0
M A = World → Outcome A × World

unfoldable pub pure : {A : Type 0} → A → M A
pure a w = (ok a, w)

unfoldable pub raise : {A : Type 0} → Failure → M A
raise e w = (raised e, w)

unfoldable pub continue : {A B : Type 0} → Outcome A → (A → M B) → M B
continue (ok a) f w = f a w
continue (raised e) f w = (raised e, w)

infixl 5 ◌>>=◌ ◌>>◌
unfoldable pub ◌>>=◌ : {A B : Type 0} → M A → (A → M B) → M B
unfolding continue pure raise
◌>>=◌ m f w = let (r, w') = m w in continue r f w'

abbrev pub ◌>>◌ : {A B : Type 0} → M A → M B → M B
m >> k = m >>= λ _. k

unfoldable pub recover : {A : Type 0} → Outcome A → (Failure → M A) → M A
recover (ok a) f w = (ok a, w)
recover (raised e) f w = f e w

-- `try: m` with a handler for every exception; a handler may raise again.
unfoldable pub try_catch : {A : Type 0} → M A → (Failure → M A) → M A
unfolding recover
try_catch m f w = let (r, w') = m w in recover r f w'

unfoldable pub lift : {A : Type 0} → Outcome A → M A
lift r w = (r, w)

-- A `for` loop.
unfoldable pub for_each : {A : Type 0} → List A → (A → M (Unit {0})) → M (Unit {0})
unfolding ◌>>=◌
for_each [] f = pure tt
for_each (x ∷ xs) f = f x >>= λ _. for_each xs f

-- `async with self._lock: with self._connect()`: other tasks run, then the transaction, which the
-- database may refuse.
unfoldable pub settle : {A : Type 0} → World → Outcome A × Store → Outcome A × World
settle w (r, s) = (r, record w { store = s; tick = w.tick + 1 })

unfoldable pub transact : {A : Type 0} → Environment → (Store → Outcome A × Store) → M A
unfolding interfere_all settle
transact env op w =
    let s = interfere_all (env.interference w.tick) w.store in
    settle w (if env.db_fails w.tick then (raised sqlite_error, s) else op s)

-- `self._clock.now()`.
unfoldable pub now : Environment → M ℕ
now env w = (ok (env.clock w.tick), record w { tick = w.tick + 1 })

-- A call that leaves the process: it is recorded and answered.
unfoldable pub call : {A : Type 0} → Call → (ℕ → Outcome A) → M A
call c reply w = (reply w.tick, record w { tick = w.tick + 1; calls = w.calls ++ c ∷ [] })

-- What an orchestrator is made with.
pub record Context : Type 0 where
  pub env : Environment
  pub lib : Library
  pub settings : Settings
