-- ===== src/Orchestrator/Submit.antt =====
-- The submission of the two RJobs, in src/server/infrastructure/real/orchestrator.py.
mod Common
mod Gateway
mod Controller
unfoldable pub use Common.*
unfoldable pub use Gateway.*
unfoldable pub use Controller.*
