-- ===== src/Orchestrator/Closes/Ending.antt =====
-- `_cleanup` of orchestrator.py brings a closing job to its end when nothing gets in its way.
use safactory_server.Base.{
  ℕ, Bool, true, false, some, is_some, List, [], ◌≡◌, refl, sym, ap, ◌∙◌, subst, ◌&&◌,
  if◌then◌else◌,
}
use safactory_server.Domain.{JobStatus, same_status}
use safactory_server.Store.Failure.{ok}
use safactory_server.Store.Row.{ControlJob, has_unsupported, requested_status, assign, assign_all}
use safactory_server.Store.Table.{Store, find_row, breaks_unique, write_rows}
use safactory_server.Store.Methods
use safactory_server.Store.Methods.{update, updated, admit}
use safactory_server.Store.Writes.{
  rows_after, find_row-write_rows, is_current_self, updated-SameIdentity,
}
use safactory_server.Store.Keys.{IsKeyed, update_exact}
use safactory_server.Exec.{Context, World, pure, ◌>>=◌}
use safactory_server.Exec.Returns.{
  Returns, Returns-transact, Returns-now, Returns-bind, Returns-known,
}
use safactory_server.Orchestrator.Steps.{get_job, update_at, event}
use safactory_server.Orchestrator.Cleanup.{
  cleanup_changes, finish_cleanup, release, cleanup_row, cleanup_found, cleanup,
}
use safactory_server.Orchestrator.Closes.Stops.{HasRows, IsCalm, event-Returns, released}

and_false : (b : Bool) → (b && false) ≡ false
and_false true = refl
and_false false = refl

row_released :
    (ctx : Context) (j : ControlJob)
    → same_status j.status JobStatus.closing ≡ true
    → cleanup_row ctx j ≡ release ctx j true
unfolding cleanup_row
row_released ctx j closing = rw (closing, and_false ctx.settings.keep_rjobs) refl

closing_admits :
    (j : ControlJob) (t : ℕ)
    → j.status ≡ JobStatus.closing
    → admit j (cleanup_changes true t) ≡ ok (cleanup_changes true t)
unfolding admit cleanup_changes requested_status
closing_admits j t h = rw h refl

module _ (ctx : Context) (calm : IsCalm ctx) (js : List ControlJob) (j : ControlJob)
    (keyed : IsKeyed js) (found : find_row j.job_id js ≡ some j)
    (closing : j.status ≡ JobStatus.closing)
    (unique : (t : ℕ)
      → breaks_unique (write_rows j.job_id j.version (updated t (cleanup_changes true t)) js)
        ≡ false) where
  abbrev rows_at : ℕ → List ControlJob
  rows_at t = write_rows j.job_id j.version (updated t (cleanup_changes true t)) js

  abbrev row_at : ℕ → ControlJob
  row_at t = updated t (cleanup_changes true t) j

  found_at : (t : ℕ) → find_row j.job_id (rows_at t) ≡ some (row_at t)
  found_at t =
      find_row-write_rows j.job_id j.version (updated t (cleanup_changes true t))
        (λ x. (updated-SameIdentity t (cleanup_changes true t) x).job_id) j.job_id js j found
      ∙ rw (is_current_self j) refl

  step :
      (t : ℕ) (s : Store)
      → HasRows js s
      → update j.job_id t (cleanup_changes true t) s
        ≡ (ok (row_at t), rows_after j (updated t (cleanup_changes true t)) s)
  step t s p =
      update_exact s j t (cleanup_changes true t) (cleanup_changes true t)
        (subst IsKeyed (sym p) keyed) (subst (λ x. find_row j.job_id x ≡ some j) (sym p) found)
        (unfold has_unsupported cleanup_changes in refl) (closing_admits j t closing)
        (subst
          (λ x.
            breaks_unique (write_rows j.job_id j.version (updated t (cleanup_changes true t)) x)
            ≡ false)
          (sym p) (unique t))

  -- The job is closed at some clock reading.
  abbrev ClosedAtSome : Store → Type 0
  ClosedAtSome s = (t : ℕ) × (s.jobs ≡ rows_at t)

  update-Returns :
      (t : ℕ)
      → Returns
          (HasRows js)
          (update_at ctx j.job_id t (cleanup_changes true t))
          (λ done s. (done ≡ row_at t) × HasRows (rows_at t) s)
  unfolding update_at
  update-Returns t =
      Returns-transact {P = HasRows js} {Q = λ done s. (done ≡ row_at t) × HasRows (rows_at t) s}
        ctx.env (update j.job_id t (cleanup_changes true t)) (λ s. row_at t)
        (rows_after j (updated t (cleanup_changes true t))) calm.quiet (step t)
        (λ s p. (refl, ap (write_rows j.job_id j.version (updated t (cleanup_changes true t))) p))

  there_at : (t : ℕ) → is_some (find_row (row_at t).job_id (rows_at t)) ≡ true
  there_at t = rw (updated-SameIdentity t (cleanup_changes true t) j).job_id (rw (found_at t) refl)

  events-Returns :
      (t : ℕ)
      → Returns
          (HasRows (rows_at t))
          (event ctx (row_at t) "cleanup_completed" [] >>= λ _.
            event ctx (row_at t) "job_closed" [])
          (λ _. ClosedAtSome)
  events-Returns t =
      Returns-bind _ _
        (event-Returns ctx calm (rows_at t) (row_at t) "cleanup_completed" [] (there_at t))
        (λ _. record {
          at = λ w p.
              let d =
                (event-Returns ctx calm (rows_at t) (row_at t) "job_closed" [] (there_at t)).at w
                  p in
              record { value = d.value; after = d.after; runs = d.runs; holds = (t, d.holds) };
        })

  finish-Returns : Returns (HasRows js) (finish_cleanup ctx j true) (λ _. ClosedAtSome)
  unfolding finish_cleanup
  finish-Returns = Returns-bind _ _ (Returns-now ctx.env) (λ t.
      Returns-bind _ _ (update-Returns t) (λ done.
        Returns-known {R = λ _. ClosedAtSome}
          (λ x. event ctx x "cleanup_completed" [] >>= λ _. event ctx x "job_closed" []) done
          (row_at t) (events-Returns t)))

  release-Returns : Returns (HasRows js) (release ctx j true) (λ _. ClosedAtSome)
  unfolding release
  release-Returns = Returns-bind _ _ (released ctx calm js j (rw found refl)) (λ stopped.
      Returns-known {R = λ _. ClosedAtSome} (λ b. if b then finish_cleanup ctx j true else pure tt)
        stopped true finish-Returns)

  read-Returns : Returns (HasRows js) (get_job ctx j.job_id) (λ o s. (o ≡ some j) × HasRows js s)
  unfolding get_job
  read-Returns =
      Returns-transact {P = HasRows js} {Q = λ o s. (o ≡ some j) × HasRows js s} ctx.env
        (λ s. (ok (Methods.get j.job_id s), s)) (λ s. some j) (λ s. s) calm.quiet
        (λ s p. unfold Methods.get in rw p (rw found refl)) (λ s p. (refl, p))

  row-Returns : Returns (HasRows js) (cleanup_row ctx j) (λ _. ClosedAtSome)
  row-Returns =
      subst (λ m. Returns (HasRows js) m (λ _. ClosedAtSome))
        (sym (row_released ctx j (ap (λ x. same_status x JobStatus.closing) closing)))
        release-Returns

  cleanup-Returns : Returns (HasRows js) (cleanup ctx j) (λ _. ClosedAtSome)
  unfolding cleanup cleanup_found
  cleanup-Returns =
      Returns-bind _ _ read-Returns
        (λ o. Returns-known {R = λ _. ClosedAtSome} (cleanup_found ctx) o (some j) row-Returns)

-- A row that has been closed: it asks for no cleanup any more, and it has its time of completion.
pub record IsClosed (k : ControlJob) : Type 0 where
  pub status : k.status ≡ JobStatus.closed
  pub released : k.cleanup_requested ≡ 0
  pub completed : is_some k.completed_at ≡ true

row_at-IsClosed : (j : ControlJob) (t : ℕ) → IsClosed (updated t (cleanup_changes true t) j)
unfolding updated cleanup_changes assign_all assign
row_at-IsClosed j t = record { status = refl; released = refl; completed = refl }

-- In a table with distinct ids, for a closing job that is there, if no other task runs, the database
-- answers, the platform stops RJobs, and the UPDATE breaks no UNIQUE column: the cleanup returns, and
-- behind it the job is closed, asks for no cleanup and has its time of completion. This holds with and
-- without `keep_rjobs`.
pub cleanup_closes :
    (ctx : Context) (w : World) (j : ControlJob)
    → IsCalm ctx
    → IsKeyed w.store.jobs
    → find_row j.job_id w.store.jobs ≡ some j
    → j.status ≡ JobStatus.closing
    → ((t : ℕ)
        → breaks_unique (rows_after j (updated t (cleanup_changes true t)) w.store).jobs ≡ false)
    → (w' : World) × ((k : ControlJob) × ((cleanup ctx j w ≡ (ok tt, w'))
          × ((find_row j.job_id w'.store.jobs ≡ some k) × IsClosed k)))
cleanup_closes ctx w j calm keyed found closing unique =
    let d = (cleanup-Returns ctx calm w.store.jobs j keyed found closing unique).at w refl in
    let t = d.holds.0 in
    (
      d.after,
      (
        updated t (cleanup_changes true t) j,
        (
          d.runs,
          (
            ap (find_row j.job_id) d.holds.1
                ∙ found_at ctx calm w.store.jobs j keyed found closing unique t,
            row_at-IsClosed j t,
          ),
        ),
      ),
    )
