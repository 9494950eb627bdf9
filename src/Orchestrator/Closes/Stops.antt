-- ===== src/Orchestrator/Closes/Stops.antt =====
-- The `try` of `_cleanup` in orchestrator.py returns when nothing gets in its way.
use safactory_server.Base.{
  ℕ, String, true, Option, none, some, is_some, List, [], ◌∷◌, ◌++◌, ◌≡◌, refl, sym, subst,
  Bool-cases, inl, inr,
}
use safactory_server.Json.{Json}
use safactory_server.Text.{is_empty}
use safactory_server.Store.Failure.{ok}
use safactory_server.Store.Row.{ControlJob}
use safactory_server.Store.Table.{JobEvent, Store, find_row}
use safactory_server.Store.Methods
use safactory_server.Store.Methods.{update, updated, admit}
use safactory_server.Exec.{Context, M, pure, ◌>>◌, try_catch}
use safactory_server.Exec.Returns.{
  Returns, IsQuiet, Returns-pure, Returns-call, Returns-transact, Returns-now, Returns-bind,
  Returns-try_catch,
}
use safactory_server.Orchestrator.Steps.{event, event_of}
use safactory_server.Orchestrator.Cleanup.{
  stop, when_id, stop_controller, stop_gateway, stop_rjobs, retry_later,
}

-- The rows are these.
abbrev pub HasRows : List ControlJob → Store → Type 0
HasRows js s = s.jobs ≡ js

-- Nothing gets in the way: no other task runs, the database answers, and the platform stops RJobs.
pub record IsCalm (ctx : Context) : Type 0 where
  pub quiet : IsQuiet ctx.env
  pub stops : (n : ℕ) (rjob_id : String) → ctx.env.stop_reply n rjob_id ≡ ok tt

logged :
    (e : JobEvent) (s : Store)
    → is_some (find_row e.event_job s.jobs) ≡ true
    → Methods.add_event e s ≡ (ok tt, record s { log = s.log ++ e ∷ [] })
unfolding Methods.add_event
logged e s there = rw there refl

module _ (ctx : Context) (calm : IsCalm ctx) where
  pub event-Returns :
      (js : List ControlJob) (job : ControlJob) (kind : String) (payload : List (String × Json))
      → is_some (find_row job.job_id js) ≡ true
      → Returns (HasRows js) (event ctx job kind payload) (λ _. HasRows js)
  unfolding event
  event-Returns js job kind payload there = Returns-bind _ _ (Returns-now ctx.env) (λ t.
      Returns-transact {P = HasRows js} {Q = λ _. HasRows js} ctx.env
        (Methods.add_event (event_of ctx job kind payload t)) (λ s. tt)
        (λ s. record s { log = s.log ++ event_of ctx job kind payload t ∷ [] }) calm.quiet
        (λ s p.
          logged (event_of ctx job kind payload t) s
            (unfold event_of in subst (λ x. is_some (find_row job.job_id x) ≡ true) (sym p) there))
        (λ s p. p))

  stop-Returns :
      (js : List ControlJob) (rjob_id : String)
      → Returns (HasRows js) (stop ctx rjob_id) (λ _. HasRows js)
  unfolding stop
  stop-Returns js rjob_id = Returns-call _ _ tt (λ n. calm.stops n rjob_id) (λ s p. p)

  module _ (js : List ControlJob) (job : ControlJob)
      (there : is_some (find_row job.job_id js) ≡ true) where
    stop_controller-Returns :
        (rjob_id : String)
        → Returns (HasRows js) (stop_controller ctx job rjob_id) (λ _. HasRows js)
    unfolding stop_controller
    stop_controller-Returns rjob_id =
        Returns-bind _ _ (event-Returns js job "episode_cleanup_requested" [] there) (λ _.
          Returns-bind _ _ (stop-Returns js rjob_id)
            (λ _. event-Returns js job "safactory_rjob_deleted" [] there))

    stop_gateway-Returns :
        (rjob_id : String) → Returns (HasRows js) (stop_gateway ctx job rjob_id) (λ _. HasRows js)
    unfolding stop_gateway
    stop_gateway-Returns rjob_id =
        Returns-bind _ _ (stop-Returns js rjob_id)
          (λ _. event-Returns js job "gateway_rjob_deleted" [] there)

    when_id-Returns :
        (o : Option String) (f : String → M (Unit {0}))
        → ((rjob_id : String) → Returns (HasRows js) (f rjob_id) (λ _. HasRows js))
        → Returns (HasRows js) (when_id o f) (λ _. HasRows js)
    unfolding when_id
    when_id-Returns none f r = Returns-pure tt (λ s p. p)
    when_id-Returns (some rjob_id) f r = elim (Bool-cases (is_empty rjob_id)) [
      | inl none_given ↦ rw none_given (Returns-pure tt (λ s p. p))
      | inr given ↦ rw given (r rjob_id)
    ]

    stop_rjobs-Returns : Returns (HasRows js) (stop_rjobs ctx job) (λ _. HasRows js)
    unfolding stop_rjobs
    stop_rjobs-Returns =
        Returns-bind _ _
          (when_id-Returns job.safactory_rjob_id (stop_controller ctx job) stop_controller-Returns)
          (λ _. when_id-Returns job.gateway_rjob_id (stop_gateway ctx job) stop_gateway-Returns)

    pub released :
        Returns
          (HasRows js)
          (try_catch (stop_rjobs ctx job >> pure true) retry_later)
          (λ b s. (b ≡ true) × HasRows js s)
    released =
        Returns-try_catch _ retry_later
          (Returns-bind _ _ stop_rjobs-Returns (λ _. Returns-pure true (λ s p. (refl, p))))
