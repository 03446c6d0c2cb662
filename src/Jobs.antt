-- ===== src/Jobs.antt =====
-- The job engine under backend/lokilinux: models/job.py, services/job_service.py, the job half of
-- services/agent_service.py, utils/capability_rbac.py, and `cancel_job` of api/v1/routers/jobs.py.
pub mod Types
pub mod Access
pub mod Envelope
pub mod Store
pub mod Create
pub mod Status
pub mod Approval
mod Tests
pub mod Dispatch
