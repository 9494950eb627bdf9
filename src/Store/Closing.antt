-- ===== src/Store/Closing.antt =====
-- `request_close` of control_store.py: a job is asked to close once.
use safactory_server.Base.{ℕ, true, false, some, ◌≡◌, refl, ap, ◌∙◌}
use safactory_server.Store.Failure.{ok}
use safactory_server.Store.Row.{ControlJob, is_active}
use safactory_server.Store.Table.{Store, find_row, breaks_unique}
use safactory_server.Store.Methods.{request_close, closing_row, with_flag}
use safactory_server.Store.Writes.{rows_after, find_row-write_rows, write_total, is_current_self}
use safactory_server.Store.Extension.{
  request_close_inactive, request_close_active, closing_row-job_id, with_flag-ok,
}
use safactory_server.Store.Keys.{IsKeyed, rowcount_found}

-- The row that a close leaves is found.
closed_found :
    (s : Store) (j : ControlJob) (now : ℕ)
    → find_row j.job_id s.jobs ≡ some j
    → find_row j.job_id (rows_after j (closing_row now) s).jobs ≡ some (closing_row now j)
closed_found s j now found =
    find_row-write_rows j.job_id j.version (closing_row now) (closing_row-job_id now) j.job_id
      s.jobs j found
    ∙ rw (is_current_self j) refl

closing_inactive : (now : ℕ) (j : ControlJob) → is_active (closing_row now j).status ≡ false
unfolding closing_row
closing_inactive now j = refl

-- In a table with distinct ids, for an active job that is there, if the closing row breaks no UNIQUE
-- column: the request succeeds, writes the closing row and reports that it closed the job; a second
-- request at any time returns that same row, reports that it closed nothing and writes nothing.
pub request_close_once :
    (s : Store) (j : ControlJob) (now later : ℕ)
    → IsKeyed s.jobs
    → find_row j.job_id s.jobs ≡ some j
    → is_active j.status ≡ true
    → breaks_unique (rows_after j (closing_row now) s).jobs ≡ false
    → (request_close j.job_id now s
        ≡ (ok (closing_row now j, true), rows_after j (closing_row now) s))
      × (request_close j.job_id later (rows_after j (closing_row now) s)
          ≡ (ok (closing_row now j, false), rows_after j (closing_row now) s))
request_close_once s j now later u found active free = (
  request_close_active j.job_id now s j found active
      ∙ ap (with_flag true) (
          write_total j (closing_row now) s (closing_row-job_id now) found free
            (rowcount_found s.jobs j u found))
      ∙ with_flag-ok true (closing_row now j) (rows_after j (closing_row now) s),
  request_close_inactive j.job_id later (rows_after j (closing_row now) s) (closing_row now j)
      (closed_found s j now found) (closing_inactive now j),
)
