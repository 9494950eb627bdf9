-- ===== src/Orchestrator/Reconcile/Gateway.antt =====
-- The middle of `_reconcile` of orchestrator.py: the Gateway is submitted, watched and judged.
use safactory_server.Base.{
  ℕ, String, Option, none, some, is_some, List, [], ◌∷◌, Bool, not, ◌||◌, get_or, if◌then◌else◌,
  same_text,
}
use safactory_server.Store.Failure.{type_error, Outcome, raised}
use safactory_server.Store.Row.{ControlJob, Change, terminal, timestamp}
use safactory_server.RJob.{RJobState, same_state, RJobSnapshot}
use safactory_server.Files.{JobFileBinding}
use safactory_server.Files.Text.{from_json}
use safactory_server.Exec.{Context, M, pure, lift, ◌>>=◌, ◌>>◌, now, call, check_gateway}
use safactory_server.Orchestrator.Names.{gateway_url_of}
use safactory_server.Orchestrator.Checks.{gateway_has_route}
use safactory_server.Orchestrator.Steps.{
  get_job, update_at, update_job, event, record_gateway_status,
}
use safactory_server.Orchestrator.Submit.{submit_gateway}
use safactory_server.Orchestrator.Cleanup.{fail}
use safactory_server.Orchestrator.Reconcile.Binding.{fail_if, gateway_late, is_closing}
use safactory_server.Orchestrator.Reconcile.Controller.{run_controller, snapshot_of}

unfoldable pub gateway_ready_changes : RJobSnapshot → String → ℕ → List Change
gateway_ready_changes gateway url t =
    Change.gateway_address gateway.address
    ∷ Change.gateway_port gateway.port
    ∷ Change.gateway_url (some url)
    ∷ Change.gateway_ready_at (some (timestamp t))
    ∷ Change.phase "submitting_safactory_rjob"
    ∷ []

unfoldable pub reread_and_run : Context → String → JobFileBinding → RJobSnapshot → M (Unit {0})
unfolding run_controller
reread_and_run ctx job_id binding gateway = do
  latest ← get_job ctx job_id
  run_controller ctx binding gateway latest

-- The Gateway's URL is fixed when it is first ready, and may not change.
unfoldable pub fix_gateway_url :
    Context → ControlJob → JobFileBinding → RJobSnapshot → String → Option String → M (Unit {0})
unfolding gateway_ready_changes reread_and_run
fix_gateway_url ctx job binding gateway url (some known) =
    if not (same_text known url)
    then fail ctx job.job_id "GATEWAY_ADDRESS_CHANGED"
    else reread_and_run ctx job.job_id binding gateway
fix_gateway_url ctx job binding gateway url none = do
  t ← now ctx.env
  ready_at ← now ctx.env
  fixed ← update_at ctx job.job_id t (gateway_ready_changes gateway url ready_at)
  if is_closing fixed then pure tt else do
    event ctx fixed "gateway_rjob_ready" []
    reread_and_run ctx fixed.job_id binding gateway

-- The branch of a Gateway that is not ready.
unfoldable pub await_gateway : Context → ControlJob → M (Unit {0})
await_gateway ctx job =
    if is_some job.safactory_rjob_id then fail ctx job.job_id "GATEWAY_LOST_DURING_RUN" else do
      checked ← update_job ctx job.job_id (Change.phase "checking_gateway_health" ∷ [])
      late ← gateway_late ctx checked
      fail_if ctx checked late "GATEWAY_HEALTH_TIMEOUT"

unfoldable pub after_health :
    Context → JobFileBinding → RJobSnapshot → String → Bool → Option ControlJob → M (Unit {0})
unfolding await_gateway fix_gateway_url
after_health ctx binding gateway url ready none = pure tt
after_health ctx binding gateway url ready (some job) =
    if is_closing job
    then pure tt
    else if not ready
    then await_gateway ctx job
    else fix_gateway_url ctx job binding gateway url job.gateway_url

-- The branch of a Gateway with a route.
unfoldable pub check_health : Context → ControlJob → JobFileBinding → RJobSnapshot → M (Unit {0})
unfolding after_health gateway_url_of
check_health ctx job binding gateway = do
  let url =
      gateway_url_of ctx.lib ctx.settings.gateway_scheme (get_or gateway.address "")
        (get_or gateway.port 0)
  ready ←
      call (check_gateway url ctx.settings.gateway_health_path)
        (λ n. ctx.env.ready_reply n url ctx.settings.gateway_health_path)
  latest ← get_job ctx job.job_id
  after_health ctx binding gateway url ready latest

-- The branch of a Gateway without one.
unfoldable pub await_route : Context → ControlJob → M (Unit {0})
await_route ctx job =
    if is_some job.safactory_rjob_id
    then fail ctx job.job_id "GATEWAY_LOST_DURING_RUN"
    else do late ← gateway_late ctx job; fail_if ctx job late "GATEWAY_READY_TIMEOUT"

abbrev pub is_over : RJobState → Bool
is_over s =
    same_state s RJobState.failed
    || (same_state s RJobState.cancelled || same_state s RJobState.succeeded)

-- From the recorded Gateway snapshot on.
unfoldable pub judge_gateway : Context → ControlJob → JobFileBinding → RJobSnapshot → M (Unit {0})
unfolding await_route check_health
judge_gateway ctx job binding gateway =
    if is_closing job
    then pure tt
    else if is_over gateway.state
    then fail ctx job.job_id "GATEWAY_RJOB_FAILED"
    else if not (gateway_has_route ctx.lib gateway)
    then await_route ctx job
    else check_health ctx job binding gateway

unfoldable pub watch_gateway : Context → ControlJob → JobFileBinding → M (Unit {0})
unfolding judge_gateway snapshot_of
watch_gateway ctx job binding = do
  gateway ← snapshot_of ctx job.gateway_rjob_id
  recorded ← record_gateway_status ctx job gateway
  judge_gateway ctx recorded binding gateway

-- From the read of the row behind the binding on: the Gateway is submitted if it is not there.
unfoldable pub run_gateway : Context → JobFileBinding → Option ControlJob → M (Unit {0})
unfolding watch_gateway
run_gateway ctx binding none = pure tt
run_gateway ctx binding (some job) =
    if is_closing job
    then pure tt
    else if is_some job.gateway_rjob_id
    then watch_gateway ctx job binding
    else do
      submitted ← submit_gateway ctx job binding
      if terminal submitted || (is_closing submitted || not (is_some submitted.gateway_rjob_id))
          then pure tt
          else watch_gateway ctx submitted binding

unfoldable pub stored_binding : Context → Option String → Outcome JobFileBinding
unfolding from_json
stored_binding ctx none = raised type_error
stored_binding ctx (some value) = from_json ctx.lib.codec value

unfoldable pub reconcile_bound : Context → ControlJob → M (Unit {0})
unfolding run_gateway stored_binding
reconcile_bound ctx job = do
  binding ← lift (stored_binding ctx job.binding_json)
  latest ← get_job ctx job.job_id
  run_gateway ctx binding latest
