-- ===== src/Examples/Reports.antt =====
-- The theorems on the result of a session above the data platform, at a job that is bound, and on the
-- creation of a job.
use safactory_server.Files.Text.{binding_json}
use safactory_server.Base.{true, false, some, [], ◌∷◌, ◌≡◌, refl}
use safactory_server.Json.{object, end}
use safactory_server.Domain.Entities.{SessionResult, CreatedJob}
use safactory_server.Store.Failure.{ok}
use safactory_server.Store.Table.{find_row}
use safactory_server.Store.Methods
use safactory_server.Exec.{World, interfere_all, ◌>>=◌, transact, try_catch, now}
use safactory_server.Store.Row.{new_control_job}
use safactory_server.Platform.Queries.{landing}
use safactory_server.Platform.Sessions
use safactory_server.Runtime.Artifacts.{FileEntry}
use safactory_server.Runtime.Repository.{Repository}
use safactory_server.Runtime.Reports.{get_result}
use safactory_server.Runtime.Served.{IsReport, get_result-IsReport}
use safactory_server.Domain.{JobStatus}
use safactory_server.Runtime.Jobs
use safactory_server.Service.Creation.{create_job}
use safactory_server.Service.Admission.{IsAdmitted, create_job-IsAdmitted}
use safactory_server.Examples.Inputs.{a_repository, a_job, a_calm_context, a_catalog, empty_world}
use safactory_server.Examples.Platform.{a_python, a_query, a_session_result}

abbrev a_file : FileEntry
a_file = record {
  exists = true;
  is_symlink = false;
  is_file = true;
  size = 2;
  vanished = false;
  content = some (object end);
}

-- The owner of the job asks, and the data platform answers through its adapter.
abbrev an_owner : Repository
an_owner = record a_repository {
  ctx = a_calm_context;
  username = some "alice";
  result_reply =
      λ n job_id session_id. Sessions.get_result a_python (landing a_query) job_id session_id;
  files = λ n path. a_file;
}

unfoldable a_bound_world : World
unfolding a_job
a_bound_world = record {
  store = record { jobs = record a_job { binding_json = some "b" } ∷ []; log = [] };
  tick = 1;
  calls = [];
}

abbrev a_report : SessionResult
a_report = record a_session_result { result = some end }

report_found : (get_result an_owner "job_1" "s" a_bound_world).0 ≡ ok a_report
unfolding get_result a_bound_world Sessions.get_result find_row interfere_all ◌>>=◌ transact
    Methods.get try_catch binding_json
report_found = refl

get_result-IsReport_example : IsReport 5 "s" a_report
get_result-IsReport_example =
    get_result-IsReport an_owner a_python (λ n. landing a_query) "job_1" "s" (λ n j s. refl)
      a_bound_world a_report report_found

abbrev a_created_job : CreatedJob
a_created_job = record {
  job_id = "job_2";
  status = JobStatus.queued;
  model_id = "m";
  range_id = "r";
  created_at = 6000000;
}

job_created : (create_job an_owner "m" "r" empty_world).0 ≡ ok a_created_job
unfolding create_job Jobs.create_job interfere_all ◌>>=◌ transact try_catch Methods.add
    Methods.add_event now new_control_job
job_created = refl

create_job-IsAdmitted_example : IsAdmitted a_catalog "m" "r" a_created_job
create_job-IsAdmitted_example =
    create_job-IsAdmitted an_owner "m" "r" empty_world a_created_job job_created
