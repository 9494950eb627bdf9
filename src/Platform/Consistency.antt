-- ===== src/Platform/Consistency.antt =====
-- What `get_result` of data_platform.py returns.
use safactory_server.Base.{
  ℕ, String, false, not, ◌&&◌, ◌||◌, Option, none, some, is_some, select, List, [], ◌∷◌, ◌≡◌, refl,
}
use safactory_server.Json.{Json, Fields}
use safactory_server.Domain.{ResultStatus, pending}
use safactory_server.Domain.Entities.{SessionResult}
use safactory_server.Store.Failure.{value_error, ok}
use safactory_server.Outcomes.{require, or_raise, Promises, Promises-bind, promised, wrap-eq-ok}
use safactory_server.Platform.Values.{
  truthy, is_null, Python, get, field_of, finite_float, datetime_or_none,
}
use safactory_server.Platform.Rows.{row_datetime, row_lt}
use safactory_server.Platform.Queries.{Client, landing, legacy, query_landing}
use safactory_server.Platform.Sessions.{
  latest, judged, succeeded_with, failed_with, landing_result, checked_result, result_of_row,
  legacy_result, find_result, get_result, is_succeeded, is_same, status_of_text, score_of,
}

-- A result that the platform adapter may return for a session.
pub record IsConsistent (session_id : String) (r : SessionResult) : Type 0 where
  pub same_session : r.session_id ≡ session_id
  pub scored : is_some r.score ≡ is_succeeded r.result_status
  pub completed : (is_succeeded r.result_status && not (is_some r.completed_at)) ≡ false
  pub unjudged : (is_some r.result || is_some r.error) ≡ false
  pub untimed : r.retry_after_seconds ≡ none

module _ (py : Python) (session_id : String) where
  succeeded-Promises :
      (row : Fields) → Promises (IsConsistent session_id) (succeeded_with py session_id row)
  unfolding succeeded_with
  succeeded-Promises row =
      Promises-bind (IsConsistent session_id) (finite_float py (get "reward" row)) _ (λ score _.
        Promises-bind (IsConsistent session_id) (row_datetime py row) _ (λ completed_at _.
          Promises-bind (IsConsistent session_id) (or_raise value_error completed_at) _ (λ moment _.
            record {
              same_session = refl;
              scored = refl;
              completed = refl;
              unjudged = refl;
              untimed = refl;
            })))

  failed-Promises :
      (row : Fields) → Promises (IsConsistent session_id) (failed_with py session_id row)
  unfolding failed_with
  failed-Promises row =
      Promises-bind (IsConsistent session_id) (row_datetime py row) _ (λ completed_at _. record {
        same_session = refl;
        scored = refl;
        completed = refl;
        unjudged = refl;
        untimed = refl;
      })

  judged-Promises :
      (rewarded completed : List Fields)
      → Promises (IsConsistent session_id) (judged py session_id rewarded completed)
  unfolding judged
  judged-Promises (row ∷ rows) completed = succeeded-Promises (latest (row_lt py) row rows)
  judged-Promises [] (row ∷ rows) = failed-Promises (latest (row_lt py) row rows)
  judged-Promises [] [] = record {
    same_session = refl;
    scored = refl;
    completed = refl;
    unjudged = refl;
    untimed = refl;
  }

  landing-Promises :
      (rows : List Fields) → Promises (IsConsistent session_id) (landing_result py session_id rows)
  unfolding landing_result
  landing-Promises [] = tt
  landing-Promises (row ∷ rows) =
      let completed = select (λ r. truthy py (get "is_session_completed" r)) (row ∷ rows) in
      judged-Promises (select (λ r. not (is_null (get "reward" r))) completed) completed

  checked-Promises :
      (status : ResultStatus) (score : Option String) (completed_at : Option ℕ)
      → Promises (IsConsistent session_id) (checked_result session_id status score completed_at)
  unfolding checked_result
  checked-Promises ResultStatus.succeeded none completed_at = tt
  checked-Promises ResultStatus.succeeded (some score) none = tt
  checked-Promises ResultStatus.succeeded (some score) (some moment) = record {
    same_session = refl;
    scored = refl;
    completed = refl;
    unjudged = refl;
    untimed = refl;
  }
  checked-Promises ResultStatus.failed (some score) completed_at = tt
  checked-Promises ResultStatus.failed none completed_at = record {
    same_session = refl;
    scored = refl;
    completed = refl;
    unjudged = refl;
    untimed = refl;
  }
  checked-Promises ResultStatus.running (some score) completed_at = tt
  checked-Promises ResultStatus.running none completed_at = record {
    same_session = refl;
    scored = refl;
    completed = refl;
    unjudged = refl;
    untimed = refl;
  }
  checked-Promises pending (some score) completed_at = tt
  checked-Promises pending none completed_at = record {
    same_session = refl;
    scored = refl;
    completed = refl;
    unjudged = refl;
    untimed = refl;
  }

  row-Promises : (row : Json) → Promises (IsConsistent session_id) (result_of_row py session_id row)
  unfolding result_of_row
  row-Promises row =
      Promises-bind (IsConsistent session_id)
        (require (is_same session_id (field_of "session_id" row)) value_error) _
        (λ _ _.
          Promises-bind (IsConsistent session_id)
            (status_of_text (py.str_of (field_of "result_status" row))) _
            (λ status _.
              Promises-bind (IsConsistent session_id) (score_of py (field_of "score" row)) _
                (λ score _.
                  Promises-bind (IsConsistent session_id)
                    (datetime_or_none py (field_of "completed_at" row)) _
                    (λ completed_at _. checked-Promises status score completed_at))))

  legacy-Promises :
      (row : Json) → Promises (IsConsistent session_id) (legacy_result py session_id row)
  unfolding legacy_result
  legacy-Promises Json.null = tt
  legacy-Promises row = row-Promises row

  find-Promises :
      (client : Client) (job_id : String)
      → Promises (IsConsistent session_id) (find_result py client job_id session_id)
  unfolding find_result
  find-Promises (landing query) job_id =
      Promises-bind (IsConsistent session_id) (query_landing query job_id (some session_id) none) _
        (λ rows _. landing-Promises rows)
  find-Promises (legacy a get_session_result c d) job_id =
      Promises-bind (IsConsistent session_id) (get_session_result job_id session_id) _
        (λ row _. legacy-Promises row)

-- For either surface of the client and every answer of it: a result that `get_result` returns is about
-- the session that was asked for, has a score exactly if it is succeeded, has a time of completion if
-- it is succeeded, and carries neither a payload nor an error nor a time to retry yet.
pub get_result-IsConsistent :
    (py : Python) (client : Client) (job_id session_id : String) (r : SessionResult)
    → get_result py client job_id session_id ≡ ok (some r)
    → IsConsistent session_id r
unfolding get_result
get_result-IsConsistent py client job_id session_id r h =
    promised (IsConsistent session_id) (find_result py client job_id session_id) r
      (find-Promises py session_id client job_id)
      (wrap-eq-ok _ (find_result py client job_id session_id) h)
