-- ===== src/Runtime.antt =====
-- src/server/infrastructure/real/runtime_repository.py: the operations behind the API.
pub mod Repository
pub mod Jobs
pub mod Sessions
pub mod Artifacts
pub mod Results
pub mod Reports
pub mod Served
pub mod Isolation
pub mod Kept
