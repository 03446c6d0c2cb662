-- ===== src/Remediation.antt =====
-- Remediation under backend/lokilinux: models/remediation.py, services/remediation_service.py, the
-- plan half of services/job_service.py, workers/remediation_verification.py and the plans that
-- workers/remediation_scheduler.py dispatches and resolves.
pub mod Types
pub mod Payload
pub mod Windows
pub mod Service
pub mod Rollback
pub mod Sync
pub mod Verify
pub mod Scheduler
pub mod Life
mod Tests
