-- ===== src/Examples/Requests.antt =====
-- The theorems on requests, redaction and names at concrete inputs.
use safactory_server.Base.{◌≡◌, refl, [], false, none}
use safactory_server.Domain.{JobStatus}
use safactory_server.Store.Table.{find_row}
use safactory_server.Exec.{World}
use safactory_server.Json.{Json, null, text, array, object, nil, cons, end, field}
use safactory_server.Domain.{ResultStatus}
use safactory_server.Domain.Entities.{SessionResult}
use safactory_server.Orchestrator.Names.{safe_rjob_name}
use safactory_server.Orchestrator.Naming.{IsName, safe_rjob_name-IsName}
use safactory_server.Service.Redaction.{IsClean, redact, redact-IsClean}
use safactory_server.Exec.{interfere_all}
use safactory_server.Runtime.Repository.{is_hidden_from}
use safactory_server.Runtime.Results.{is_open, reconcile_result, reconcile_result-settles}
use safactory_server.Runtime.Isolation.{refusal, untouched, timed, seen, hidden_job-refused}
use safactory_server.Runtime.Jobs.{create_job, close_job}
use safactory_server.Runtime.Sessions.{list_sessions, get_steps, get_trajectory}
use safactory_server.Runtime.Reports.{get_result, get_milestones}
use safactory_server.Runtime.Kept.{Grown, requests-IsSound}
use safactory_server.Examples.Inputs.{a_repository}
use safactory_server.Examples.Inputs.{empty_world, empty_store, a_job}
use safactory_server.Examples.Witnesses.{one_job, empty-IsSound}

safe_rjob_name-IsName_example : IsName (safe_rjob_name (λ t. t) "..Job_One--")
safe_rjob_name-IsName_example = safe_rjob_name-IsName (λ t. t) "..Job_One--"

abbrev some_value : Json
some_value = object (
    field "Api-Key" (text "x")
      (field "a" (array (cons (object (field "secret" null end)) nil)) end))

redact-IsClean_example :
    IsClean (λ t. t) (redact (λ t. t) some_value)
    × (redact (λ t. t) (redact (λ t. t) some_value) ≡ redact (λ t. t) some_value)
redact-IsClean_example = redact-IsClean (λ t. t) some_value

-- A value without a hidden name, whose other keys hold a credential and a path of the host.
abbrev an_open_value : Json
an_open_value = object (
    field "x-api-key" (text "k")
      (field "cwd" (text "/home") (field "secret" (text "[REDACTED]") end)))

abbrev a_result : SessionResult
a_result = record {
  session_id = "s";
  result_status = ResultStatus.running;
  score = none;
  completed_at = none;
  retry_after_seconds = none;
  result = none;
  error = none;
}

reconcile_result-settles_example :
    (is_open (reconcile_result a_result JobStatus.succeeded).result_status ≡ false)
    × (reconcile_result (reconcile_result a_result JobStatus.succeeded) JobStatus.succeeded
        ≡ reconcile_result a_result JobStatus.succeeded)
reconcile_result-settles_example = reconcile_result-settles a_result JobStatus.succeeded refl

abbrev one_world : World
one_world = record { store = one_job; tick = 1; calls = [] }

hidden_job-refused_example :
    (list_sessions a_repository "job_1" one_world
      ≡ (refusal "job_1", untouched a_repository one_world))
    × ((get_steps a_repository "job_1" "s" one_world
          ≡ (refusal "job_1", untouched a_repository one_world))
        × ((get_trajectory a_repository "job_1" "s" "t" one_world
              ≡ (refusal "job_1", untouched a_repository one_world))
            × ((get_result a_repository "job_1" "s" one_world
                  ≡ (refusal "job_1", untouched a_repository one_world))
                × ((get_milestones a_repository "job_1" "s" one_world
                      ≡ (refusal "job_1", untouched a_repository one_world))
                    × (close_job a_repository "job_1" one_world
                        ≡ (refusal "job_1", untouched a_repository (timed one_world)))))))
hidden_job-refused_example =
    hidden_job-refused a_repository "job_1" "s" "t" one_world refl
      (unfold is_hidden_from seen interfere_all find_row a_job in refl) refl
      (unfold is_hidden_from seen interfere_all find_row a_job in refl)

requests-IsSound_example :
    Grown empty_store (create_job a_repository "m" "r" empty_world).1.store
    × (Grown empty_store (close_job a_repository "m" empty_world).1.store
        × (Grown empty_store (list_sessions a_repository "m" empty_world).1.store
            × (Grown empty_store (get_result a_repository "m" "r" empty_world).1.store
                × (Grown empty_store (get_milestones a_repository "m" "r" empty_world).1.store
                    × (Grown empty_store (get_steps a_repository "m" "r" empty_world).1.store
                        × Grown empty_store
                            (get_trajectory a_repository "m" "r" "t" empty_world).1.store)))))
requests-IsSound_example = requests-IsSound a_repository "m" "r" "t" empty_world empty-IsSound
