-- ===== src/Orchestrator/Cleaning.antt =====
-- The cleanup and the failure of a job under interference (orchestrator.py).
mod Stability
mod Cleanup
mod Fail
unfoldable pub use Stability.*
unfoldable pub use Cleanup.*
unfoldable pub use Fail.*
