-- ===== src/Orchestrator/Safety/Round.antt =====
-- A round of reconciliation keeps the invariant.
use safactory_server.Base.{
  All, All-map, All-select, All-order_by, select, ℕ, zero, suc, some, List, [], ◌∷◌, ◌≡◌, ◌==◌,
  arith,
}
use safactory_server.Store.Failure.{ok}
use safactory_server.Store.Row.{ControlJob}
use safactory_server.Store.Table.{Store, find_row}
use safactory_server.Store.Methods
use safactory_server.Store.Methods.{updated, closing_row, admit}
use safactory_server.Store.Lifecycle.{Extends, Extends-refl}
use safactory_server.Store.Keys.{All-found}
use safactory_server.Exec.{Context, World, for_each}
use safactory_server.Exec.Keeps.{
  Carries, Yields-bind, Yields-transact, Carries-bind, Keeps-for_each, Keeps-pure, Keeps-bind,
  Keeps-transact,
}
use safactory_server.Orchestrator.Kept.{IsKept}
use safactory_server.Orchestrator.Cleaning.{
  Settled, stable-IsKept, both-IsKept, weaken, cleanup-Carries, Settled-stable,
}
use safactory_server.Orchestrator.Cleanup.{cleanup}
use safactory_server.Orchestrator.Rounds.{reconcile_guarded-Keeps}
use safactory_server.Orchestrator.Reconcile.{reconcile_once, run_rounds, reconcile_guarded}
use safactory_server.Orchestrator.Safety.Sound.{IsSound, IsSound-IsKept, Extends-IsKept}

AllSettled : List ControlJob → Store → Type 0
AllSettled xs s = All (λ j. Settled j.job_id s) xs

AllSettled-IsKept : (xs : List ControlJob) → IsKept (AllSettled xs)
unfolding AllSettled
AllSettled-IsKept xs = stable-IsKept (λ s t e h. All-map xs (λ j. Settled-stable j.job_id s t e) h)

cleanups-Carries :
    {P : Store → Type 0} (kept : IsKept P) (ctx : Context) (xs : List ControlJob)
    → Carries (λ s. P s × AllSettled xs s) P (for_each xs (cleanup ctx))
unfolding for_each AllSettled
cleanups-Carries kept ctx [] = weaken (λ s h. h.0) (λ s h. h) (Keeps-pure tt)
cleanups-Carries {P} kept ctx (x ∷ xs) =
    Carries-bind {P = λ s. P s × AllSettled xs s} (cleanup ctx x) (λ _. for_each xs (cleanup ctx))
      (λ s h. h.0)
      (weaken (λ s h. ((h.0, h.1.1), h.1.0)) (λ s h. h)
        (cleanup-Carries (both-IsKept kept (AllSettled-IsKept xs)) ctx x))
      (λ _. cleanups-Carries kept ctx xs)

-- The jobs that `list_cleanup_pending` returns are settled.
pending-AllSettled : (s : Store) → IsSound s → AllSettled (Methods.list_cleanup_pending s) s
unfolding AllSettled Methods.list_cleanup_pending
pending-AllSettled s h =
    All-order_by (λ j. Settled j.job_id s) (λ j. j.updated_at) _
      (All-map (select (λ j. j.cleanup_requested == 1) s.jobs)
        (λ j p. record {
          row = j;
          found = p.0;
          inactive = (h.rows j.job_id j p.0).flagged_inactive (ground arith);
        })
        (All-select (λ j. find_row j.job_id s.jobs ≡ some j) (λ j. j.cleanup_requested == 1) s.jobs
          (All-found s.jobs h.keyed)))

module _ {P : Store → Type 0} (kept : IsKept P) (sound : (s : Store) → P s → IsSound s)
    (ctx : Context) where
  -- A round of reconciliation keeps every kept condition that implies the invariant.
  pub reconcile_once-Keeps : Carries P P (reconcile_once ctx)
  unfolding reconcile_once
  reconcile_once-Keeps =
      Keeps-bind _ _
        (Keeps-transact kept.disturbed ctx.env (λ s. (ok (Methods.list_active s), s)) (λ s h. h))
        (λ active.
          Keeps-bind _ _
            (Keeps-for_each active (reconcile_guarded ctx) (reconcile_guarded-Keeps kept ctx))
            (λ _.
              Yields-bind AllSettled _ (λ pending. for_each pending (cleanup ctx))
                (Yields-transact kept.disturbed ctx.env
                  (λ s. (ok (Methods.list_cleanup_pending s), s)) AllSettled
                  (λ s h. (h, pending-AllSettled s (sound s h))))
                (cleanups-Carries kept ctx)))

run_rounds-Keeps :
    {P : Store → Type 0} (kept : IsKept P) (sound : (s : Store) → P s → IsSound s) (ctx : Context)
    (n : ℕ)
    → Carries P P (run_rounds ctx n)
unfolding run_rounds
run_rounds-Keeps kept sound ctx zero = Keeps-pure tt
run_rounds-Keeps kept sound ctx (suc n) =
    Keeps-bind _ _ (reconcile_once-Keeps kept sound ctx) (λ _. run_rounds-Keeps kept sound ctx n)

-- From a store with the invariant, after any number of rounds of the loop, whatever other tasks do
-- between its steps, whatever the platform, the files and the clock answer, and whether or not the
-- last round raised: the ids are still distinct, and every row has its invariant. A closing job is
-- flagged for cleanup, an active one is not, a terminal one has its time of completion, a running one
-- has its RJob id and its start, and a failed one has its reason.
pub run_rounds-IsSound :
    (ctx : Context) (n : ℕ) (w : World) → IsSound w.store → IsSound (run_rounds ctx n w).1.store
run_rounds-IsSound ctx n w h = (run_rounds-Keeps IsSound-IsKept (λ s i. i) ctx n).at w h

-- From a store with the invariant, any number of rounds under any interference extends the store:
-- every job is still there, with the same identity and a version that is no smaller, its terminal
-- status if it had one is unchanged, if it was closing it is closing or closed, and the event log has
-- only grown.
pub run_rounds-Extends :
    (ctx : Context) (n : ℕ) (w : World)
    → IsSound w.store
    → Extends w.store (run_rounds ctx n w).1.store
run_rounds-Extends ctx n w h =
    ((run_rounds-Keeps (both-IsKept IsSound-IsKept (Extends-IsKept w.store)) (λ s p. p.0) ctx n).at
      w (h, Extends-refl w.store)).1
