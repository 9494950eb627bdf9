-- ===== src/Orchestrator/Closes.antt =====
-- An undisturbed cleanup of orchestrator.py.
pub mod Stops
pub mod Ending
