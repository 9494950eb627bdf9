-- ===== src/Domain.antt =====
-- The entities of the service, from src/server/domain/entities.py.
pub mod Errors
pub mod Entities
use safactory_server.Base.{ℕ, Bool, true, false, ◌==◌, ◌≡◌, refl, arith, String, Option}

pub data JobStatus : Type 0 where
  queued preparing running closing succeeded failed closed : JobStatus

pub data ResultStatus : Type 0 where
  pending running succeeded failed : ResultStatus

pub data MilestoneStatus : Type 0 where
  pending available : MilestoneStatus

abbrev pub status_index : JobStatus → ℕ
status_index queued = 0
status_index preparing = 1
status_index JobStatus.running = 2
status_index closing = 3
status_index JobStatus.succeeded = 4
status_index JobStatus.failed = 5
status_index closed = 6

abbrev pub same_status : JobStatus → JobStatus → Bool
same_status s t = status_index s == status_index t
