-- ===== src/Orchestrator/Safety.antt =====
-- The invariant of the store under the loop of orchestrator.py.
mod Sound
mod Round
mod Pending
unfoldable pub use Sound.*
unfoldable pub use Round.*
unfoldable pub use Pending.*
