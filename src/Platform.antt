-- ===== src/Platform.antt =====
-- src/server/infrastructure/real/data_platform.py: what the server reads from the data platform.
pub mod Values
pub mod Rows
pub mod Queries
pub mod Sessions
pub mod Steps
pub mod Order
pub mod Latest
pub mod Numbering
pub mod Consistency
pub mod Listing
pub mod Escaping
