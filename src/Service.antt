-- ===== src/Service.antt =====
-- src/server/application/service.py: what the API may show and whom it may ask to run a job.
pub mod Redaction
pub mod Creation
pub mod Admission
