-- ===== src/Runtime/Served.antt =====
-- What `get_result` of runtime_repository.py answers above the adapter of the data platform.
use safactory_server.Base.{
  ℕ, String, false, not, ◌&&◌, Option, none, some, is_some, if◌then◌else◌, ◌≡◌, refl, sym, ◌∙◌,
  Bool-cases, inl, inr,
}
use safactory_server.Json.{Fields}
use safactory_server.Domain.{JobStatus}
use safactory_server.Domain.Entities.{SessionResult}
use safactory_server.Store.Failure.{Failure, data_platform_error, ok}
use safactory_server.Store.Row.{ControlJob}
use safactory_server.Outcomes.{Promises}
use safactory_server.Exec.{World}
use safactory_server.Exec.Answers.{
  Answers, Answers-pure, Answers-raise, Answers-any, Answers-bind, Answers-try_catch,
}
use safactory_server.Platform.Queries.{Client}
use safactory_server.Platform.Values.{Python}
use safactory_server.Platform.Sessions
use safactory_server.Platform.Sessions.{is_succeeded}
use safactory_server.Platform.Consistency.{IsConsistent, get_result-IsConsistent}
use safactory_server.Runtime.Repository.{Repository, ask, require_job, query_failure, query_failed}
use safactory_server.Runtime.Results.{is_open, reconcile_result, failure_of, status_under}
use safactory_server.Runtime.Reports.{
  get_result, result_or_missing, job_range, only_artifact, check_session_name, with_payload,
  with_artifact, with_retry,
}

-- A result that may be shown: it is about the session that was asked for, it has a score exactly if it
-- is succeeded, it says after how many seconds to ask again exactly if it is open.
pub record IsReport (seconds : ℕ) (session_id : String) (r : SessionResult) : Type 0 where
  pub same_session : r.session_id ≡ session_id
  pub scored : is_some r.score ≡ is_succeeded r.result_status
  pub retried : r.retry_after_seconds ≡ (if is_open r.result_status then some seconds else none)

-- The same before `with_retry`.
record IsJudged (session_id : String) (r : SessionResult) : Type 0 where
  same_session : r.session_id ≡ session_id
  scored : is_some r.score ≡ is_succeeded r.result_status
  untimed : r.retry_after_seconds ≡ none

not_succeeded : (st : JobStatus) → is_succeeded (status_under st (failure_of st)) ≡ false
unfolding status_under failure_of
not_succeeded JobStatus.queued = refl
not_succeeded JobStatus.preparing = refl
not_succeeded JobStatus.running = refl
not_succeeded JobStatus.closing = refl
not_succeeded JobStatus.succeeded = refl
not_succeeded JobStatus.failed = refl
not_succeeded JobStatus.closed = refl

reconcile_result-IsJudged :
    (session_id : String) (r : SessionResult) (st : JobStatus)
    → IsConsistent session_id r
    → IsJudged session_id (reconcile_result r st)
unfolding reconcile_result
reconcile_result-IsJudged session_id r st c = elim (Bool-cases (is_open r.result_status)) [
  | inl unsettled ↦ rw unsettled (record {
    same_session = c.same_session;
    scored = sym (not_succeeded st);
    untimed = c.untimed;
  })
  | inr shut ↦
      rw shut (record { same_session = c.same_session; scored = c.scored; untimed = c.untimed })
]

with_retry-IsReport :
    (seconds : ℕ) (session_id : String) (r : SessionResult)
    → IsJudged session_id r
    → IsReport seconds session_id (with_retry seconds r)
unfolding with_retry
with_retry-IsReport seconds session_id r j = elim (Bool-cases (is_open r.result_status)) [
  | inl unsettled ↦
      rw unsettled
        (record { same_session = j.same_session; scored = j.scored; retried = rw unsettled refl })
  | inr shut ↦
      rw shut
        (record { same_session = j.same_session; scored = j.scored; retried = rw shut j.untimed })
]

module _ (r : Repository) (job_id session_id : String) where
  with_payload-Answers :
      (result : SessionResult) (payload : Option Fields)
      → IsJudged session_id result
      → Answers (with_payload job_id session_id result payload) (IsJudged session_id)
  unfolding with_payload
  with_payload-Answers result payload j =
      elim (Bool-cases (not (is_some payload) && is_succeeded result.result_status)) [
        | inl missing ↦ rw missing (Answers-raise _)
        | inr fits ↦ rw fits (
            Answers-pure _
              (record { same_session = j.same_session; scored = j.scored; untimed = j.untimed }))
      ]

  with_artifact-Answers :
      (job : ControlJob) (result : SessionResult) (o : Option String)
      → IsJudged session_id result
      → Answers (with_artifact r job job_id session_id result o) (IsJudged session_id)
  unfolding with_artifact
  with_artifact-Answers job result none j = Answers-pure _ j
  with_artifact-Answers job result (some artifact_name) j =
      Answers-bind (check_session_name session_id) _ (Answers-any _) (λ _ _.
        Answers-bind _ _ (Answers-any _) (λ payload _. with_payload-Answers result payload j))

  result_or_missing-Answers :
      (o : Option SessionResult)
      → Promises (IsConsistent session_id) (ok o)
      → Answers (result_or_missing job_id session_id o) (IsConsistent session_id)
  unfolding result_or_missing
  result_or_missing-Answers none c = Answers-raise _
  result_or_missing-Answers (some result) c = Answers-pure _ c

  query_failure-Answers :
      {A : Type 0} {Q : A → Type 0} (operation : String) (e : Failure)
      → Answers (query_failure {A = A} r job_id operation e) Q
  unfolding query_failure
  query_failure-Answers operation data_platform_error =
      Answers-bind (query_failed r job_id operation) _ (Answers-any _) (λ _ _. Answers-raise _)
  query_failure-Answers operation e = Answers-raise _

  module _ (py : Python) (client : ℕ → Client)
      (served : (n : ℕ) (j s : String)
        → r.result_reply n j s ≡ Sessions.get_result py (client n) j s) where
    reply-Answers :
        Answers
          (ask (λ n. r.result_reply n job_id session_id))
          (λ o. Promises (IsConsistent session_id) (ok o))
    unfolding ask
    reply-Answers = record { at = λ w o h. told w o (sym (served w.tick job_id session_id) ∙ h) }
      where
        told :
            (w : World) (o : Option SessionResult)
            → Sessions.get_result py (client w.tick) job_id session_id ≡ ok o
            → Promises (IsConsistent session_id) (ok o)
        told w none h = tt
        told w (some result) h =
            get_result-IsConsistent py (client w.tick) job_id session_id result h

    answered : Answers (get_result r job_id session_id) (IsReport r.retry_after_seconds session_id)
    unfolding get_result
    answered = Answers-bind (require_job r job_id) _ (Answers-any _) (λ job _.
        Answers-bind _ _ (Answers-try_catch _ _ reply-Answers (query_failure-Answers "get_result"))
          (λ reply c. Answers-bind _ _ (result_or_missing-Answers reply c) (λ result consistent.
            Answers-bind (job_range r job) _ (Answers-any _) (λ range_config _.
              Answers-bind (only_artifact range_config) _ (Answers-any _) (λ artifact_name _.
                Answers-bind _ _
                  (with_artifact-Answers job _ artifact_name
                    (reconcile_result-IsJudged session_id result job.status consistent))
                  (λ report j.
                    Answers-pure _
                      (with_retry-IsReport r.retry_after_seconds session_id report j)))))))

-- If the data platform's replies are those of the adapter, on either surface of its client and with
-- any answers: whenever `get_result` of the repository answers, the result is about the session that
-- was asked for, has a score exactly if it is succeeded, and says after how many seconds to ask again
-- exactly if it is pending or running. The status of the job, the range and the file on the shared
-- storage do not matter, nor what other tasks do meanwhile.
pub get_result-IsReport :
    (r : Repository) (py : Python) (client : ℕ → Client) (job_id session_id : String)
    → ((n : ℕ) (j s : String) → r.result_reply n j s ≡ Sessions.get_result py (client n) j s)
    → (w : World) (result : SessionResult) → (get_result r job_id session_id w).0 ≡ ok result
    → IsReport r.retry_after_seconds session_id result
get_result-IsReport r py client job_id session_id served w result h =
    (answered r job_id session_id py client served).at w result h
