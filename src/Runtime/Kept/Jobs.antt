-- ===== src/Runtime/Kept/Jobs.antt =====
-- `create_job` and `close_job` keep what the orchestrator relies on.
use safactory_server.Base.{ℕ, String, Bool, true, false, Option-cases, inl, inr}
use safactory_server.Store.Failure.{Failure, key_error, sqlite_error}
use safactory_server.Store.Row.{ControlJob, NewJob, new_control_job}
use safactory_server.Store.Table.{Store}
use safactory_server.Store.Methods
use safactory_server.Exec.{transact, interfere, add_job}
use safactory_server.Exec.{close_job as closing_by}
use safactory_server.Exec.Keeps.{Carries, Keeps-transact, Keeps-raise}
use safactory_server.Orchestrator.Kept.{IsKept}
use safactory_server.Runtime.Repository.{Repository}
use safactory_server.Runtime.Jobs.{
  Resolved, resolve, insert_job, insert_resolved, create_job, close_requested, close_refused,
  close_row, close_job,
}
use safactory_server.Runtime.Kept.Rules.{request_rules}

module _ {P : Store → Type 0} (kept : IsKept P) (r : Repository) where
  pub resolve-Keeps : (model_id range_id : String) → Carries P P (resolve r model_id range_id)
  unfolding resolve
  resolve-Keeps model_id range_id = search request_rules

  pub add-Keeps : (n : NewJob) → Carries P P (transact r.ctx.env (Methods.add (new_control_job n)))
  unfolding interfere
  add-Keeps n = Keeps-transact kept.disturbed r.ctx.env _ (λ s h. kept.disturbed (add_job n) s h)

  pub insert_job-Keeps :
      (model_id range_id gateway_json checksum : String)
      → Carries P P (insert_job r model_id range_id gateway_json checksum)
  unfolding insert_job
  insert_job-Keeps model_id range_id gateway_json checksum = search (request_rules, add-Keeps)

  pub insert_resolved-Keeps :
      (model_id range_id : String) (found : Resolved)
      → Carries P P (insert_resolved r model_id range_id found)
  unfolding insert_resolved
  insert_resolved-Keeps model_id range_id found = elim (Option-cases (found.model)) [
    | inl none_known ↦ rw none_known (Keeps-raise _)
    | inr (model, known) ↦ rw known (search (request_rules, insert_job-Keeps))
  ]

  pub create_job-Keeps : (model_id range_id : String) → Carries P P (create_job r model_id range_id)
  unfolding create_job
  create_job-Keeps model_id range_id = search (request_rules, resolve-Keeps, insert_resolved-Keeps)

  pub close_requested-Keeps :
      (k : String) (t : ℕ) (closed : ControlJob × Bool) → Carries P P (close_requested r k t closed)
  unfolding close_requested
  close_requested-Keeps k t (job, true) = search request_rules
  close_requested-Keeps k t (job, false) = search request_rules

  pub request_close-Keeps :
      (k : String) (t : ℕ) → Carries P P (transact r.ctx.env (Methods.request_close k t))
  unfolding interfere
  request_close-Keeps k t =
      Keeps-transact kept.disturbed r.ctx.env _ (λ s h. kept.disturbed (closing_by k t) s h)

  pub close_row-Keeps : (k : String) (t : ℕ) → Carries P P (close_row r k t)
  unfolding close_row
  close_row-Keeps k t = search (request_rules, request_close-Keeps, close_requested-Keeps)

  pub close_refused-Keeps : (k : String) (e : Failure) → Carries P P (close_refused k e)
  unfolding close_refused
  close_refused-Keeps k key_error = search request_rules
  close_refused-Keeps k sqlite_error = search request_rules
  close_refused-Keeps k e = search request_rules

  pub close_job-Keeps : (k : String) → Carries P P (close_job r k)
  unfolding close_job
  close_job-Keeps k = search (request_rules, close_row-Keeps, close_refused-Keeps)
