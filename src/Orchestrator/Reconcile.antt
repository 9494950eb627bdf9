-- ===== src/Orchestrator/Reconcile.antt =====
-- The reconciliation of src/server/infrastructure/real/orchestrator.py. `_reconcile` is cut at its
-- awaits: each part ends where the function returns or goes on to the next part.
mod Binding
mod Controller
mod Gateway
mod Loop
unfoldable pub use Binding.*
unfoldable pub use Controller.*
unfoldable pub use Gateway.*
unfoldable pub use Loop.*
