-- ===== src/Store.antt =====
-- src/server/infrastructure/real/control_store.py: the SQLite control store. Each method runs in
-- one transaction under the store's lock, so it is one function on the store's content.
pub mod Failure
pub mod Row
pub mod Table
pub mod Methods
pub mod Lifecycle
pub mod Writes
pub mod Extension
pub mod Keys
pub mod Closing
