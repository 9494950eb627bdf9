-- ===== src/Orchestrator/Rows.antt =====
-- The invariant of a job's row, and the writes of the orchestrator that keep it.
use safactory_server.Base.{ℕ, String, ℤ, Option, is_some, List, [], ◌∷◌, ◌≡◌, true, false, arith}
use safactory_server.Domain.{JobStatus}
use safactory_server.Store.Failure.{ok}
use safactory_server.Store.Row.{
  ControlJob, Change, is_terminal, is_active, requested_status, pop_phase, assign_all, NewJob,
  new_control_job,
}
use safactory_server.Store.Methods.{admit, updated, closing_row}
use safactory_server.Orchestrator.Submit.{gateway_submitted, controller_submitted, controller_kept}
use safactory_server.Orchestrator.Cleanup.{cleanup_changes, failed_changes}
use safactory_server.Orchestrator.Reconcile.{
  bound_changes, succeeded_changes, gateway_ready_changes,
}
use safactory_server.RJob.{RJobSnapshot}
use safactory_server.Exec.{Context}
use safactory_server.Files.{JobFileBinding}

pub record RowOk (j : ControlJob) : Type 0 where
  pub closing_flagged : j.status ≡ JobStatus.closing → j.cleanup_requested ≡ 1
  pub flagged_inactive : j.cleanup_requested ≡ 1 → is_active j.status ≡ false
  pub terminal_completed : is_terminal j.status ≡ true → is_some j.completed_at ≡ true
  pub running_submitted : j.status ≡ JobStatus.running → is_some j.safactory_rjob_id ≡ true
  pub running_started : j.status ≡ JobStatus.running → is_some j.started_at ≡ true
  pub failed_explained : j.status ≡ JobStatus.failed → is_some j.status_reason ≡ true

-- `update` by these changes keeps the row's invariant, whatever the row.
pub record IsLegal (cs : List Change) : Type 0 where
  pub keeps :
      (now : ℕ) (j : ControlJob) (admitted : List Change)
      → RowOk j
      → admit j cs ≡ ok admitted
      → RowOk (updated now admitted j)

pub attempt-IsLegal : (n : ℕ) → IsLegal (Change.orchestrator_attempt n ∷ [])
unfolding updated admit assign_all requested_status pop_phase
attempt-IsLegal n = record { keeps = λ now j admitted r h. ground arith }

pub phase-IsLegal : (p : String) → IsLegal (Change.phase p ∷ [])
unfolding updated admit assign_all requested_status pop_phase
phase-IsLegal p = record { keeps = λ now j admitted r h. ground arith }

pub preparing-IsLegal :
    (p : String) → IsLegal (Change.status JobStatus.preparing ∷ Change.phase p ∷ [])
unfolding updated admit assign_all requested_status pop_phase
preparing-IsLegal p = record { keeps = λ now j admitted r h. ground arith }

pub bound-IsLegal : (ctx : Context) (b : JobFileBinding) → IsLegal (bound_changes ctx b)
unfolding updated admit assign_all requested_status pop_phase bound_changes
bound-IsLegal ctx b = record { keeps = λ now j admitted r h. ground arith }

pub gateway_submitted-IsLegal : (k : String) → IsLegal (gateway_submitted k)
unfolding updated admit assign_all requested_status pop_phase gateway_submitted
gateway_submitted-IsLegal k = record { keeps = λ now j admitted r h. ground arith }

pub gateway_status-IsLegal :
    (a : Option String) (b : Option ℤ) (c : Option String)
    → IsLegal (
        Change.gateway_status a
        ∷ Change.gateway_exit_code b
        ∷ Change.gateway_failure_summary c
        ∷ [])
unfolding updated admit assign_all requested_status pop_phase
gateway_status-IsLegal a b c = record { keeps = λ now j admitted r h. ground arith }

pub safactory_status-IsLegal :
    (a : Option String) (b : Option ℤ) (c : Option String) (n1 n2 n3 n4 n5 : ℕ)
    → IsLegal (
        Change.safactory_status a
        ∷ Change.safactory_exit_code b
        ∷ Change.safactory_failure_summary c
        ∷ Change.episode_total n1
        ∷ Change.episode_running n2
        ∷ Change.episode_succeeded n3
        ∷ Change.episode_failed n4
        ∷ Change.episode_collected n5
        ∷ [])
unfolding updated admit assign_all requested_status pop_phase
safactory_status-IsLegal a b c n1 n2 n3 n4 n5 = record {
  keeps = λ now j admitted r h. ground arith;
}

pub gateway_ready-IsLegal :
    (g : RJobSnapshot) (url : String) (t : ℕ) → IsLegal (gateway_ready_changes g url t)
unfolding updated admit assign_all requested_status pop_phase gateway_ready_changes
gateway_ready-IsLegal g url t = record { keeps = λ now j admitted r h. ground arith }

pub controller_submitted-IsLegal :
    (job : ControlJob) (k : String) (t : ℕ) → IsLegal (controller_submitted job k t)
unfolding updated admit assign_all requested_status pop_phase controller_submitted
controller_submitted-IsLegal job k t = record { keeps = λ now j admitted r h. ground arith }

pub controller_kept-IsLegal :
    (job : ControlJob) (k : String) (t : ℕ) → IsLegal (controller_kept job k t)
unfolding updated admit assign_all requested_status pop_phase controller_kept
controller_kept-IsLegal job k t = record { keeps = λ now j admitted r h. ground arith }

pub succeeded-IsLegal : (t : ℕ) → IsLegal (succeeded_changes t)
unfolding updated admit assign_all requested_status pop_phase succeeded_changes
succeeded-IsLegal t = record { keeps = λ now j admitted r h. ground arith }

pub failed-IsLegal : (reason : String) (t : ℕ) → IsLegal (failed_changes reason t)
unfolding updated admit assign_all requested_status pop_phase failed_changes
failed-IsLegal reason t = record { keeps = λ now j admitted r h. ground arith }

pub closed-IsLegal : (t : ℕ) → IsLegal (cleanup_changes true t)
unfolding updated admit assign_all requested_status pop_phase cleanup_changes
closed-IsLegal t = record { keeps = λ now j admitted r h. ground arith }

-- Taking the flag back is no legal write for every row, and is one for a terminal row.
pub unflag-RowOk :
    (now : ℕ) (j : ControlJob) (admitted : List Change)
    → is_terminal j.status ≡ true
    → RowOk j
    → admit j (Change.cleanup_requested 0 ∷ []) ≡ ok admitted
    → RowOk (updated now admitted j)
unfolding updated admit assign_all requested_status pop_phase
unflag-RowOk now j admitted t r h = ground arith

pub closing_row-RowOk :
    (now : ℕ) (j : ControlJob) → is_active j.status ≡ true → RowOk j → RowOk (closing_row now j)
unfolding closing_row
closing_row-RowOk now j a r = ground arith

pub new_control_job-RowOk : (n : NewJob) → RowOk (new_control_job n)
unfolding new_control_job
new_control_job-RowOk n = ground arith
