-- ===== src/Orchestrator/Safety/Pending.antt =====
-- A closing job is never forgotten: the next round's list of cleanups has it.
use safactory_server.Base.{
  ℕ, String, some, List, [], ◌∷◌, ◌≡◌, sym, ap, ◌∙◌, true, ◌==◌, inl, inr, arith, Bool-cases, Any,
  Any-select, Any-order_by,
}
use safactory_server.Domain.{JobStatus}
use safactory_server.Store.Row.{ControlJob}
use safactory_server.Store.Table.{find_row, has_id}
use safactory_server.Store.Methods
use safactory_server.Store.Writes.{find_row-hit, find_row-miss, find_row-nil}
use safactory_server.Exec.{Context, World}
use safactory_server.Orchestrator.Reconcile.{run_rounds}
use safactory_server.Orchestrator.Safety.Sound.{IsSound}
use safactory_server.Orchestrator.Safety.Round.{run_rounds-IsSound}

-- A row that is found and flagged is one of the rows that the query selects.
listed :
    (k : String) (js : List ControlJob) (j : ControlJob)
    → find_row k js ≡ some j
    → j.cleanup_requested ≡ 1
    → Any (λ x. (x ≡ j) × ((x.cleanup_requested == 1) ≡ true)) js
listed k [] j h flag = find_row-nil k h
listed k (x ∷ js) j h flag = elim (Bool-cases (has_id k x)) [
  | inl here ↦
      let p : some x ≡ some j = sym (find_row-hit k x js here) ∙ h in
      let e : x ≡ j = cc p in inl (e, ground (arith, ap (λ y. y.cleanup_requested) e))
  | inr other ↦ inr (listed k js j (sym (find_row-miss k x js other) ∙ h) flag)
]

-- From a store with the invariant, after any number of rounds under any interference and any replies,
-- every job that is then closing is in the list from which the next round cleans up.
pub closing_listed :
    (ctx : Context) (n : ℕ) (w : World)
    → IsSound w.store
    → (k : String) (j : ControlJob) → find_row k (run_rounds ctx n w).1.store.jobs ≡ some j
    → j.status ≡ JobStatus.closing
    → Any (λ x. x ≡ j) (Methods.list_cleanup_pending (run_rounds ctx n w).1.store)
unfolding Methods.list_cleanup_pending
closing_listed ctx n w h k j found closing =
    let s = (run_rounds ctx n w).1.store in
    let flag = ((run_rounds-IsSound ctx n w h).rows k j found).closing_flagged closing in
    Any-order_by (λ x. x ≡ j) (λ x. x.updated_at) _
      (Any-select (λ x. x ≡ j) (λ x. x.cleanup_requested == 1) s.jobs
        (listed k s.jobs j found flag))
