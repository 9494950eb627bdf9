-- ===== src/Runtime/Results.antt =====
-- `_reconcile_result_with_job` of runtime_repository.py.
use safactory_server.Base.{
  String, Bool, true, false, Option, none, some, ◌||◌, ◌≡◌, refl, if◌then◌else◌, ◌⊎◌, inl, inr,
  Bool-cases, ap, arith,
}
use safactory_server.Json.{end}
use safactory_server.Domain.{
  JobStatus, queued, preparing, closing, closed, ResultStatus, pending, same_status,
}
use safactory_server.Domain.Entities.{FailureInfo, SessionResult}

-- `result.result_status in {ResultStatus.PENDING, ResultStatus.RUNNING}`.
abbrev pub is_open : ResultStatus → Bool
is_open pending = true
is_open ResultStatus.running = true
is_open ResultStatus.succeeded = false
is_open ResultStatus.failed = false

abbrev not_published : String → String → FailureInfo
not_published code message = record {
  code = code;
  message = message;
  details = end;
  retryable = false;
}

-- The table `failure_details`, as the failure that it gives.
unfoldable pub failure_of : JobStatus → Option FailureInfo
failure_of JobStatus.failed =
    some
      (not_published "JOB_EXECUTION_FAILED" "The session did not complete because the job failed.")
failure_of closed =
    some (not_published "SESSION_CANCELLED" "The session was cancelled because the job was closed.")
failure_of JobStatus.succeeded = some (
    not_published "SESSION_RESULT_INCOMPLETE"
      "The session did not publish a completed result before the job succeeded.")
failure_of queued = none
failure_of preparing = none
failure_of JobStatus.running = none
failure_of closing = none

unfoldable pub status_under : JobStatus → Option FailureInfo → ResultStatus
status_under job_status (some failure) = ResultStatus.failed
status_under job_status none =
    if same_status job_status queued || same_status job_status preparing
    then pending
    else ResultStatus.running

-- `_reconcile_result_with_job`.
unfoldable pub reconcile_result : SessionResult → JobStatus → SessionResult
unfolding failure_of status_under
reconcile_result result job_status =
    if is_open result.result_status
    then record result {
      result_status = status_under job_status (failure_of job_status);
      score = none;
      completed_at = none;
      result = none;
      error = failure_of job_status;
    }
    else result

-- The job has ended.
abbrev pub has_ended : JobStatus → Bool
has_ended s =
    same_status s JobStatus.succeeded || (same_status s JobStatus.failed || same_status s closed)

by_status :
    (s : ResultStatus)
    → (s ≡ pending)
      ⊎ ((s ≡ ResultStatus.running) ⊎ ((s ≡ ResultStatus.succeeded) ⊎ (s ≡ ResultStatus.failed)))
by_status pending = inl refl
by_status ResultStatus.running = inr (inl refl)
by_status ResultStatus.succeeded = inr (inr (inl refl))
by_status ResultStatus.failed = inr (inr (inr refl))

ended_failed :
    (st : JobStatus) → has_ended st ≡ true → status_under st (failure_of st) ≡ ResultStatus.failed
unfolding status_under failure_of
ended_failed queued h = ground arith
ended_failed preparing h = ground arith
ended_failed JobStatus.running h = ground arith
ended_failed closing h = ground arith
ended_failed JobStatus.succeeded h = refl
ended_failed JobStatus.failed h = refl
ended_failed closed h = refl

closes :
    (r : SessionResult) (st : JobStatus)
    → has_ended st ≡ true
    → is_open (reconcile_result r st).result_status ≡ false
unfolding reconcile_result
closes r st h = elim (Bool-cases (is_open r.result_status)) [
  | inl unsettled ↦ rw unsettled (ap is_open (ended_failed st h))
  | inr shut ↦ rw shut shut
]

again :
    (r : SessionResult) (st : JobStatus)
    → reconcile_result (reconcile_result r st) st ≡ reconcile_result r st
unfolding reconcile_result
again r st = elim (Bool-cases (is_open r.result_status)) [
  | inr shut ↦ rw shut (rw shut refl)
  | inl unsettled ↦ rw unsettled (elim (Bool-cases (is_open (status_under st (failure_of st)))) [
    | inl still ↦ rw still refl
    | inr done ↦ rw done refl
  ])
]

-- For every result of a job that has ended: the result is reported neither as pending nor as running,
-- and reconciling it again changes nothing.
pub reconcile_result-settles :
    (r : SessionResult) (st : JobStatus)
    → has_ended st ≡ true
    → (is_open (reconcile_result r st).result_status ≡ false)
      × (reconcile_result (reconcile_result r st) st ≡ reconcile_result r st)
reconcile_result-settles r st h = (closes r st h, again r st)
