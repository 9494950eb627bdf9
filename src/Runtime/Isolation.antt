-- ===== src/Runtime/Isolation.antt =====
-- A caller that is authenticated sees only its own jobs.
use safactory_server.Base.{ℕ, ◌+◌, String, true, false, Option, none, some, ◌≡◌, refl}
use safactory_server.Domain.Errors.{job_not_found}
use safactory_server.Store.Failure.{Failure, Outcome, raised}
use safactory_server.Store.Row.{ControlJob}
use safactory_server.Store.Table.{find_row, Store}
use safactory_server.Store.Methods
use safactory_server.Exec.{
  World, transact, ◌>>=◌, continue, interfere_all, settle, raise, now, try_catch, recover,
}
use safactory_server.Orchestrator.Steps.{get_job}
use safactory_server.Runtime.Repository.{
  Repository, require_job, found_job, is_hidden_from, domain_failure, about_job,
}
use safactory_server.Runtime.Jobs.{close_job, close_row, close_refused}
use safactory_server.Runtime.Sessions.{list_sessions, get_steps, get_trajectory}
use safactory_server.Runtime.Reports.{get_result, get_milestones}

-- The store that the next transaction of a request sees.
unfoldable pub seen : Repository → World → Store
seen r w = interfere_all (r.ctx.env.interference w.tick) w.store

-- The world behind one transaction that writes nothing.
unfoldable pub untouched : Repository → World → World
unfolding seen
untouched r w = record w { store = seen r w; tick = w.tick + 1 }

found_job-hidden :
    (r : Repository) (job_id : String) (o : Option ControlJob) (w : World)
    → is_hidden_from r.username o ≡ true
    → found_job r job_id o w ≡ (raised (domain_failure job_not_found (about_job job_id)), w)
unfolding found_job raise
found_job-hidden r job_id none w h = refl
found_job-hidden r job_id (some j) w h = rw h refl

pub require_job-hidden :
    (r : Repository) (job_id : String) (w : World)
    → r.ctx.env.db_fails w.tick ≡ false
    → is_hidden_from r.username (find_row job_id (seen r w).jobs) ≡ true
    → require_job r job_id w
      ≡ (raised (domain_failure job_not_found (about_job job_id)), untouched r w)
unfolding require_job get_job transact settle ◌>>=◌ continue untouched seen Methods.get
require_job-hidden r job_id w up h =
    rw up (found_job-hidden r job_id (find_row job_id (seen r w).jobs) (untouched r w) h)

after_refusal :
    {A B : Type 0} (m : World → Outcome A × World) (f : A → World → Outcome B × World) (e : Failure)
    (w w' : World)
    → m w ≡ (raised e, w')
    → (m >>= f) w ≡ (raised e, w')
unfolding ◌>>=◌ continue
after_refusal m f e w w' h = rw h refl

abbrev pub refusal : {A : Type 0} → String → Outcome A
refusal job_id = raised (domain_failure job_not_found (about_job job_id))

-- The world behind `self._clock.now()`.
abbrev pub timed : World → World
timed w = record w { tick = w.tick + 1 }

close_row-hidden :
    (r : Repository) (job_id : String) (t : ℕ) (w w' : World)
    → require_job r job_id w ≡ (refusal job_id, w')
    → close_row r job_id t w ≡ (refusal job_id, w')
unfolding close_row
close_row-hidden r job_id t w w' h =
    after_refusal (require_job r job_id) _ (domain_failure job_not_found (about_job job_id)) w w' h

close_caught :
    (r : Repository) (job_id : String) (t : ℕ) (w w' : World)
    → require_job r job_id w ≡ (refusal job_id, w')
    → try_catch (close_row r job_id t) (close_refused job_id) w ≡ (refusal job_id, w')
unfolding try_catch recover close_refused domain_failure raise
close_caught r job_id t w w' h = rw (close_row-hidden r job_id t w w' h) refl

close_job-hidden :
    (r : Repository) (job_id : String) (w w' : World)
    → require_job r job_id (timed w) ≡ (refusal job_id, w')
    → close_job r job_id w ≡ (refusal job_id, w')
unfolding close_job now ◌>>=◌ continue
close_job-hidden r job_id w w' h =
    rw (close_caught r job_id (r.ctx.env.clock w.tick) (timed w) w' h) refl

-- If the caller is authenticated and the job is missing or another owner's at the transaction that
-- reads it, and the database answers, then the listing of sessions, the steps, a trajectory, a result,
-- the milestones and the closing of the job all raise JOB_NOT_FOUND about the id that was asked for, make no call and write
-- nothing: the store is what the other tasks left.
pub hidden_job-refused :
    (r : Repository) (job_id session_id step_id : String) (w : World)
    → r.ctx.env.db_fails w.tick ≡ false
    → is_hidden_from r.username (find_row job_id (seen r w).jobs) ≡ true
    → r.ctx.env.db_fails (w.tick + 1) ≡ false
    → is_hidden_from r.username (find_row job_id (seen r (timed w)).jobs) ≡ true
    → (list_sessions r job_id w ≡ (refusal job_id, untouched r w))
      × ((get_steps r job_id session_id w ≡ (refusal job_id, untouched r w))
          × ((get_trajectory r job_id session_id step_id w ≡ (refusal job_id, untouched r w))
              × ((get_result r job_id session_id w ≡ (refusal job_id, untouched r w))
                  × ((get_milestones r job_id session_id w ≡ (refusal job_id, untouched r w))
                      × (close_job r job_id w ≡ (refusal job_id, untouched r (timed w)))))))
unfolding list_sessions get_steps get_trajectory get_result get_milestones
hidden_job-refused r job_id session_id step_id w up h up' h' =
    let here = require_job-hidden r job_id w up h in
    let e = domain_failure job_not_found (about_job job_id) in
    (
      after_refusal (require_job r job_id) _ e w _ here,
      (
        after_refusal (require_job r job_id) _ e w _ here,
        (
          after_refusal (require_job r job_id) _ e w _ here,
          (
            after_refusal (require_job r job_id) _ e w _ here,
            (
              after_refusal (require_job r job_id) _ e w _ here,
              close_job-hidden r job_id w _ (require_job-hidden r job_id (timed w) up' h'),
            ),
          ),
        ),
      ),
    )
