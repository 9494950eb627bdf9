-- ===== src/Examples/Witnesses.antt =====
-- Tests of the loop and of the store, and their theorems at concrete inputs.
use safactory_server.Base.{ℕ, ◌≡◌, refl, some, List, map, [], ◌∷◌, get_or, true, false, Any}
use safactory_server.Domain.{JobStatus}
use safactory_server.Store.Row.{ControlJob, Change}
use safactory_server.Store.Failure.{ok}
use safactory_server.Store.Table.{Store, find_row, write_rows, breaks_unique}
use safactory_server.Store.Methods
use safactory_server.Store.Methods.{updated}
use safactory_server.RJob.{RJobState}
use safactory_server.Store.Writes.{find_row-nil, rows_after}
use safactory_server.Store.Keys.{IsKeyed}
use safactory_server.Store.Lifecycle.{Extends}
use safactory_server.Exec.{World}
use safactory_server.Orchestrator.Reconcile.{run_rounds}
use safactory_server.Orchestrator.Safety.{
  IsSound, run_rounds-IsSound, run_rounds-Extends, closing_listed,
}
use safactory_server.Store.Methods.{request_close, closing_row}
use safactory_server.Store.Closing.{request_close_once}
use safactory_server.Orchestrator.Cleanup.{cleanup, cleanup_changes}
use safactory_server.Orchestrator.Closes.Stops.{IsCalm}
use safactory_server.Orchestrator.Closes.Ending.{IsClosed, cleanup_closes}
use safactory_server.Examples.Inputs.{a_calm_context}
use safactory_server.Examples.Open.{state_after}
use safactory_server.Examples.Inputs.{
  a_context, a_stubborn_context, empty_world, empty_store, a_job,
}

status_of : World → List JobStatus
status_of w = map (λ j. j.status) w.store.jobs

pub empty-IsSound : IsSound empty_store
empty-IsSound = record { keyed = tt; rows = λ k j h. absurd (find_row-nil k h) }

run_rounds-IsSound_example :
    IsSound (run_rounds (a_context 18 RJobState.running) 2 empty_world).1.store
run_rounds-IsSound_example =
    run_rounds-IsSound (a_context 18 RJobState.running) 2 empty_world empty-IsSound

run_rounds-Extends_example :
    Extends empty_store (run_rounds (a_context 18 RJobState.running) 2 empty_world).1.store
run_rounds-Extends_example =
    run_rounds-Extends (a_context 18 RJobState.running) 2 empty_world empty-IsSound

-- A job runs after two rounds.
two_rounds :
    status_of (state_after (a_context 400 RJobState.running) 2 empty_world) ≡ JobStatus.running ∷ []
unfolding state_after status_of
two_rounds = refl

-- The job that the platform does not stop.
abbrev stuck_job : ControlJob
stuck_job =
    get_or (find_row "job_1" (state_after (a_stubborn_context 20) 2 empty_world).store.jobs) a_job

stuck_found :
    find_row "job_1" (run_rounds (a_stubborn_context 20) 2 empty_world).1.store.jobs
    ≡ some stuck_job
unfolding state_after find_row
stuck_found = refl

stuck_closing : stuck_job.status ≡ JobStatus.closing
unfolding state_after find_row
stuck_closing = refl

closing_listed_example :
    Any
      (λ x. x ≡ stuck_job)
      (Methods.list_cleanup_pending (run_rounds (a_stubborn_context 20) 2 empty_world).1.store)
closing_listed_example =
    closing_listed (a_stubborn_context 20) 2 empty_world empty-IsSound "job_1" stuck_job stuck_found
      stuck_closing

abbrev pub one_job : Store
one_job = record { jobs = a_job ∷ []; log = [] }

abbrev a_change : List Change
a_change = Change.phase "x" ∷ []

one_job-IsKeyed : IsKeyed one_job.jobs
unfolding find_row
one_job-IsKeyed = (refl, tt)

one_job-found : find_row a_job.job_id one_job.jobs ≡ some a_job
unfolding find_row a_job
one_job-found = refl

request_close_once_example :
    (request_close a_job.job_id 7000000 one_job
      ≡ (ok (closing_row 7000000 a_job, true), rows_after a_job (closing_row 7000000) one_job))
    × (request_close a_job.job_id 9000000 (rows_after a_job (closing_row 7000000) one_job)
        ≡ (ok (closing_row 7000000 a_job, false), rows_after a_job (closing_row 7000000) one_job))
request_close_once_example =
    request_close_once one_job a_job 7000000 9000000 one_job-IsKeyed one_job-found
      (unfold a_job in refl) (unfold breaks_unique write_rows closing_row a_job in refl)

abbrev leaving_job : ControlJob
leaving_job = record a_job {
  status = JobStatus.closing;
  gateway_rjob_id = some "g";
  safactory_rjob_id = some "c";
  cleanup_requested = 1;
}

abbrev leaving_store : Store
leaving_store = record { jobs = leaving_job ∷ []; log = [] }

leaving_found : find_row "job_1" leaving_store.jobs ≡ some leaving_job
unfolding find_row a_job
leaving_found = refl

calm : IsCalm a_calm_context
calm = record { quiet = record { alone = λ n. refl; up = λ n. refl }; stops = λ n rjob_id. refl }

abbrev leaving_world : World
leaving_world = record { store = leaving_store; tick = 0; calls = [] }

leaving_unique :
    (t : ℕ)
    → breaks_unique (rows_after leaving_job (updated t (cleanup_changes true t)) leaving_store).jobs
      ≡ false
unfolding breaks_unique write_rows updated cleanup_changes a_job
leaving_unique t = refl

leaving-IsKeyed : IsKeyed leaving_store.jobs
unfolding find_row
leaving-IsKeyed = (refl, tt)

cleanup_closes_example :
    (w' : World) × ((k : ControlJob) × ((cleanup a_calm_context leaving_job leaving_world
          ≡ (ok tt, w'))
        × ((find_row "job_1" w'.store.jobs ≡ some k) × IsClosed k)))
unfolding a_job
cleanup_closes_example =
    cleanup_closes a_calm_context leaving_world leaving_job calm leaving-IsKeyed leaving_found refl
      leaving_unique
