-- ===== src/Orchestrator/Cleaning/Fail.antt =====
-- `_fail` of orchestrator.py under interference.
use safactory_server.Base.{
  ℕ, String, Option, none, some, List, [], ◌∷◌, ◌≡◌, refl, sym, ap, ◌∙◌, ◌⊎◌, inl, inr, arith,
  Bool-cases,
}
use safactory_server.Domain.{JobStatus, same_status}
use safactory_server.Store.Failure.{Failure, Outcome, ok, raised}
use safactory_server.Store.Row.{ControlJob, Change, is_active, requested_status}
use safactory_server.Store.Table.{Store, find_row}
use safactory_server.Store.Methods
use safactory_server.Store.Methods.{admit, updated}
use safactory_server.Store.Writes.{
  requested_status-pop_phase, updated-SameIdentity, updated-status, rows_after, find_row-rows_after,
}
use safactory_server.Store.Extension.{found_self, update-cases}
use safactory_server.Exec.{Context, now}
use safactory_server.Exec.Keeps.{
  Carries, Yields, Holds, Yields-bind, Yields-transact, Yields-after, Yields-try_catch,
  Yields-returned, Yields-pure, Yields-raise, Carries-bind, Keeps-now, Keeps-pure,
}
use safactory_server.Orchestrator.Rows.{IsLegal, failed-IsLegal}
use safactory_server.Orchestrator.Kept.{IsKept, event-Keeps}
use safactory_server.Orchestrator.Steps.{get_job, update_at}
use safactory_server.Orchestrator.Cleanup.{
  fail, fail_found, mark_failed, give_way, cleanup_failed, is_settled, failed_changes,
}
use safactory_server.Orchestrator.Cleaning.Stability.{Settled, weaken}
use safactory_server.Orchestrator.Cleaning.Cleanup.{
  failed_inactive, Read, Settled-IsKept, cleanup-Carries, get_job-Yields,
}

-- The job that an update returns stands in the store as it is returned.
abbrev pub Written : List Change → ControlJob → Store → Type 0
Written cs j s = (find_row j.job_id s.jobs ≡ some j) × (requested_status cs j.status ≡ j.status)

-- What `mark_failed` returns is settled.
abbrev SettledJob : Option ControlJob → Store → Type 0
SettledJob none s = Unit
SettledJob (some j) s = Settled j.job_id s

failed-Settled :
    (reason : String) (t : ℕ) (j : ControlJob) (s : Store)
    → Written (failed_changes reason t) j s
    → Settled j.job_id s
unfolding failed_changes requested_status
failed-Settled reason t j s h = record { row = j; found = h.0; inactive = ap is_active (sym h.1) }

-- The status that a list of changes asks for is either the same for all rows or the row's own.
requested_status-cases :
    (cs : List Change)
    → ((s t : JobStatus) → requested_status cs s ≡ requested_status cs t)
      ⊎ ((s : JobStatus) → requested_status cs s ≡ s)
unfolding requested_status
requested_status-cases [] = inr (λ s. refl)
requested_status-cases (Change.status v ∷ cs) = inl (λ s t. refl)
requested_status-cases (c ∷ cs) = requested_status-cases cs

requested_status_idem :
    (cs : List Change) (s : JobStatus)
    → requested_status cs (requested_status cs s) ≡ requested_status cs s
requested_status_idem cs s = elim (requested_status-cases cs) [
  | inl constant ↦ constant (requested_status cs s) s
  | inr own ↦ own (requested_status cs s)
]

admit-requested :
    (j : ControlJob) (cs admitted : List Change)
    → admit j cs ≡ ok admitted
    → requested_status admitted j.status ≡ requested_status cs j.status
unfolding admit
admit-requested j cs admitted h = ground (arith, requested_status-pop_phase cs j.status)

update-Written :
    (k : String) (t : ℕ) (cs : List Change) (s : Store)
    → Holds (λ s'. Unit) (Written cs) (Methods.update k t cs s).0 (Methods.update k t cs s).1
update-Written k t cs s = elim (update-cases k t cs s) [
  | inl (e, h) ↦ rw h tt
  | inr d ↦
      let f = updated t d.admitted in
      let same = λ (x : ControlJob). (updated-SameIdentity t d.admitted x).job_id in
      let status : (f d.row).status ≡ requested_status cs d.row.status =
        updated-status t d.admitted d.row ∙ admit-requested d.row cs d.admitted d.admits in
      rw d.result (
        tt,
        (
          ap (λ i. find_row i (rows_after d.row f s).jobs) (same d.row)
              ∙ find_row-rows_after d.row f s same d.found,
          ap (requested_status cs) status ∙ requested_status_idem cs d.row.status ∙ sym status,
        ),
      )
]

module _ {P : Store → Type 0} (kept : IsKept P) (ctx : Context) where
  update_at-Yields :
      (k : String) (t : ℕ) (cs : List Change)
      → IsLegal cs
      → Yields P (update_at ctx k t cs) (Written cs)
  unfolding update_at
  update_at-Yields k t cs legal =
      Yields-transact kept.disturbed ctx.env (Methods.update k t cs) (Written cs) (λ s h.
        join-Holds (Methods.update k t cs s).0 (Methods.update k t cs s).1
          (kept.updated_legally k t cs s (λ j admitted _ r a. legal.keeps t j admitted r a) h)
          (update-Written k t cs s))
    where
      join-Holds :
          (r : Outcome ControlJob) (s : Store)
          → P s
          → Holds (λ s'. Unit) (Written cs) r s
          → Holds P (Written cs) r s
      join-Holds (ok j) s p h = (p, h.1)
      join-Holds (raised e) s p h = p

  give_way-Yields : (e : Failure) → Yields P (give_way e) SettledJob
  unfolding give_way
  give_way-Yields Failure.job_state_conflict = Yields-pure none SettledJob (λ s h. tt)
  give_way-Yields e = Yields-raise _ SettledJob

  mark_failed-Yields : (k reason : String) → Yields P (mark_failed ctx k reason) SettledJob
  unfolding mark_failed
  mark_failed-Yields k reason = Yields-after SettledJob (now ctx.env) _ (Keeps-now ctx.env) (λ t.
      Yields-try_catch SettledJob _ give_way
        (Yields-returned (Written (failed_changes reason t)) SettledJob
          (update_at ctx k t (failed_changes reason t)) some
          (update_at-Yields k t (failed_changes reason t) (failed-IsLegal reason t))
          (failed-Settled reason t))
        give_way-Yields)

cleanup_failed-Carries :
    {P : Store → Type 0} (kept : IsKept P) (ctx : Context) (reason : String) (o : Option ControlJob)
    → Carries (λ s. P s × SettledJob o s) P (cleanup_failed ctx reason o)
unfolding cleanup_failed
cleanup_failed-Carries kept ctx reason none = weaken (λ s h. h.0) (λ s h. h) (Keeps-pure tt)
cleanup_failed-Carries kept ctx reason (some job) =
    Carries-bind _ _ (λ s h. h.0)
      (event-Keeps (Settled-IsKept job.job_id kept) ctx job "job_failed" _)
      (λ _. cleanup-Carries kept ctx job)

module _ {P : Store → Type 0} (kept : IsKept P) (ctx : Context) where
  fail_found-Carries :
      (k reason : String) (o : Option ControlJob)
      → Carries (λ s. P s × Read k o s) P (fail_found ctx k reason o)
  unfolding fail_found
  fail_found-Carries k reason none = weaken (λ s h. h.0) (λ s h. h) (Keeps-pure tt)
  fail_found-Carries k reason (some job) = elim (Bool-cases (is_settled job.status)) [
    | inl settled ↦ rw settled (weaken (λ s h. h.0) (λ s h. h) (Keeps-pure tt))
    | inr open_job ↦ elim (Bool-cases (same_status job.status JobStatus.failed)) [
      | inr fresh ↦
          rw (open_job, fresh)
            (weaken (λ s h. h.0) (λ s h. h)
              (Yields-bind SettledJob (mark_failed ctx k reason) (cleanup_failed ctx reason)
                (mark_failed-Yields kept ctx k reason) (cleanup_failed-Carries kept ctx reason)))
      | inl failed ↦
          rw (open_job, failed)
            (weaken
              (λ s h. (
                h.0,
                record {
                  row = job;
                  found = found_self s k job h.1;
                  inactive = failed_inactive job.status failed;
                },
              ))
              (λ s h. h) (cleanup-Carries kept ctx job))
    ]
  ]

  -- `_fail` keeps what other tasks, events and legal updates keep.
  pub fail-Keeps : (k reason : String) → Carries P P (fail ctx k reason)
  unfolding fail
  fail-Keeps k reason =
      Yields-bind (Read k) (get_job ctx k) (fail_found ctx k reason) (get_job-Yields kept ctx k)
        (fail_found-Carries k reason)
