-- ===== src/Orchestrator/Cleaning/Cleanup.antt =====
-- `_cleanup` of orchestrator.py under interference.
use safactory_server.Base.{
  ℕ, String, Option, none, some, [], ◌∷◌, ◌≡◌, refl, ap, ◌∙◌, Bool, true, false, ◌&&◌, inl, inr,
  arith, Bool-cases,
}
use safactory_server.Domain.{JobStatus, same_status}
use safactory_server.Store.Failure.{ok}
use safactory_server.Store.Row.{ControlJob, Change, is_active, is_terminal}
use safactory_server.Store.Table.{Store, find_row}
use safactory_server.Store.Methods
use safactory_server.Store.Methods.{admit, updated}
use safactory_server.Store.Extension.{found_self}
use safactory_server.Exec.{Context}
use safactory_server.Exec.Keeps.{
  Carries, Yields, Yields-bind, Yields-transact, Keeps-transact, Keeps-pure, Keeps-if,
}
use safactory_server.Orchestrator.Rows.{closed-IsLegal, unflag-RowOk}
use safactory_server.Orchestrator.Kept.{IsKept, update_at-Keeps, release-Keeps, skip_cleanup-Keeps}
use safactory_server.Orchestrator.Steps.{get_job, update_at}
use safactory_server.Orchestrator.Cleanup.{
  cleanup, cleanup_found, cleanup_row, release, skip_cleanup, cleanup_changes,
}
use safactory_server.Orchestrator.Cleaning.Stability.{
  Ended, Ended-stable, Settled, Settled-stable, both-IsKept, stable-IsKept, weaken, same_found,
}

pub failed_inactive : (s : JobStatus) → same_status s JobStatus.failed ≡ true → is_active s ≡ false
failed_inactive s h = ground arith

-- What the SELECT of `get` says of the row that it returns.
abbrev pub Read : String → Option ControlJob → Store → Type 0
Read k none s = Unit
Read k (some j) s = find_row k s.jobs ≡ some j

and_false : (b : Bool) → (b && false) ≡ false
and_false true = refl
and_false false = refl

module _ {P : Store → Type 0} (kept : IsKept P) (ctx : Context) where
  Ended-kept : (k : String) → IsKept (λ s. P s × Ended k s)
  Ended-kept k = both-IsKept kept (stable-IsKept (Ended-stable k))

  unflag-Keeps :
      (k : String) (t : ℕ)
      → Carries
          (λ s. P s × Ended k s)
          (λ s. P s × Ended k s)
          (update_at ctx k t (Change.cleanup_requested 0 ∷ []))
  unfolding update_at
  unflag-Keeps k t =
      Keeps-transact (Ended-kept k).disturbed ctx.env
        (Methods.update k t (Change.cleanup_requested 0 ∷ []))
        (λ s h.
          (Ended-kept k).updated_legally k t (Change.cleanup_requested 0 ∷ []) s
            (λ j admitted found r a.
              unflag-RowOk t j admitted
                (ap (λ x. is_terminal x.status) (same_found k s found h.1.found) ∙ h.1.over) r a)
            h)

  over-Carries :
      (job : ControlJob)
      → same_status job.status JobStatus.closing ≡ false
      → Carries
          (λ s. P s × Ended job.job_id s)
          (λ s. P s × Ended job.job_id s)
          (cleanup_row ctx job)
  unfolding cleanup_row
  over-Carries job over = rw over (
      Keeps-if (ctx.settings.keep_rjobs && true) (skip_cleanup ctx job) (release ctx job false)
        (skip_cleanup-Keeps (Ended-kept job.job_id) ctx job (unflag-Keeps job.job_id))
        (release-Keeps (Ended-kept job.job_id) ctx job false
          (unfold cleanup_changes in unflag-Keeps job.job_id)))

  closing-Carries :
      (job : ControlJob)
      → same_status job.status JobStatus.closing ≡ true
      → Carries P P (cleanup_row ctx job)
  unfolding cleanup_row
  closing-Carries job closing =
      rw (closing, and_false ctx.settings.keep_rjobs)
        (release-Keeps kept ctx job true
          (λ t. update_at-Keeps kept ctx job.job_id t (cleanup_changes true t) (closed-IsLegal t)))

  pub get_job-Yields : (k : String) → Yields P (get_job ctx k) (Read k)
  unfolding get_job Methods.get
  get_job-Yields k =
      Yields-transact kept.disturbed ctx.env (λ s. (ok (Methods.get k s), s)) (Read k)
        (λ s h. (h, read k s (find_row k s.jobs) refl))
    where
      read : (k : String) (s : Store) (o : Option ControlJob) → find_row k s.jobs ≡ o → Read k o s
      read k s none e = tt
      read k s (some j) e = e

terminal_of :
    (s : JobStatus)
    → is_active s ≡ false
    → same_status s JobStatus.closing ≡ false
    → is_terminal s ≡ true
terminal_of s a c = ground arith

module _ {P : Store → Type 0} (kept : IsKept P) (ctx : Context) where
  cleanup_row-Carries :
      (job : ControlJob) (k : String)
      → Carries (λ s. (P s × Settled k s) × (find_row k s.jobs ≡ some job)) P (cleanup_row ctx job)
  cleanup_row-Carries job k = elim (Bool-cases (same_status job.status JobStatus.closing)) [
    | inl closing ↦ weaken (λ s h. h.0.0) (λ s h. h) (closing-Carries kept ctx job closing)
    | inr over ↦
        weaken
          (λ s h. (
            h.0.0,
            record {
              row = job;
              found = found_self s k job h.1;
              over =
                  terminal_of job.status
                    (ap (λ x. is_active x.status) (same_found k s h.1 h.0.1.found) ∙ h.0.1.inactive)
                    over;
            },
          ))
          (λ s h. h.0) (over-Carries kept ctx job over)
  ]

  cleanup_found-Carries :
      (k : String) (o : Option ControlJob)
      → Carries (λ s. (P s × Settled k s) × Read k o s) P (cleanup_found ctx o)
  unfolding cleanup_found
  cleanup_found-Carries k none = weaken (λ s h. h.0.0) (λ s h. h) (Keeps-pure tt)
  cleanup_found-Carries k (some job) = cleanup_row-Carries job k

pub Settled-IsKept : {P : Store → Type 0} (k : String) → IsKept P → IsKept (λ s. P s × Settled k s)
Settled-IsKept k kept = both-IsKept kept (stable-IsKept (Settled-stable k))

-- The cleanup of a settled job keeps what other tasks, events and legal updates keep: its last
-- write takes the flag back, and does so of no job that is closing.
pub cleanup-Carries :
    {P : Store → Type 0} (kept : IsKept P) (ctx : Context) (job : ControlJob)
    → Carries (λ s. P s × Settled job.job_id s) P (cleanup ctx job)
unfolding cleanup
cleanup-Carries {P} kept ctx job =
    weaken (λ s h. h) (λ s h. h.0)
      (Yields-bind (Read job.job_id) (get_job ctx job.job_id) (cleanup_found ctx)
        (get_job-Yields (Settled-IsKept job.job_id kept) ctx job.job_id)
        (λ o.
          weaken (λ s h. ((h.0, h.0.1), h.1)) (λ s h. h)
            (cleanup_found-Carries (Settled-IsKept job.job_id kept) ctx job.job_id o)))
