-- ===== src/Orchestrator.antt =====
-- src/server/infrastructure/real/orchestrator.py: the reconciliation loop over the two RJobs of a job.
pub mod Names
pub mod Naming
pub mod Checks
pub mod Config
pub mod Steps
pub mod Submit
pub mod Cleanup
pub mod Reconcile
pub mod Rows
pub mod Kept
pub mod Closes
pub mod Cleaning
pub mod Rounds
pub mod Safety
