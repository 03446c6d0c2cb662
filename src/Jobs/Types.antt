-- ===== src/Jobs/Types.antt =====
-- models/job.py: the statuses of a job, the job and its result rows.
use lokilinux.Prelude.{Bool, true, false, ℕ, String, Option, List}
use lokilinux.Prelude.Int.{ℤ}
use lokilinux.Python.{Fields}

pub data JobStatus : Type 0 where
  queued scheduled pending running completed failed timeout cancelled : JobStatus

-- `_TERMINAL_JOB_STATUSES` of services/workflow_engine.py
unfoldable pub is_terminal_job : JobStatus → Bool
is_terminal_job JobStatus.completed = true
is_terminal_job JobStatus.failed = true
is_terminal_job JobStatus.timeout = true
is_terminal_job JobStatus.cancelled = true
is_terminal_job _ = false

-- `_CANCELLABLE_JOB_STATUSES` of services/workflow_engine.py
unfoldable pub is_cancellable_job : JobStatus → Bool
is_cancellable_job JobStatus.queued = true
is_cancellable_job JobStatus.scheduled = true
is_cancellable_job _ = false

unfoldable pub is_completed : JobStatus → Bool
is_completed JobStatus.completed = true
is_completed _ = false

-- `JobResult.status`, a text in the source.
pub data ResultStatus : Type 0 where
  pending running completed failed timeout cancelled skipped : ResultStatus

-- `Job.job_type`, a text in the source: those that capability_rbac.py names, and any other.
pub data JobType : Type 0 where
  heartbeat file_read log_read inventory_scan cve_scan : JobType
  service file package_update security_patch : JobType
  compliance_remediate remediation reboot firewall_change : JobType
  custom_command workflow_steps ansible_playbook plugin_install : JobType
  other : String → JobType

pub record Job : Type 0 where
  pub id : ℕ
  pub job_type : JobType
  pub parameters : Fields
  pub targets : List ℕ  -- the agents of `target_servers`
  pub status : JobStatus
  pub total_servers : Option ℕ
  pub scheduled_time : Option ℕ
  pub started_at : Option ℕ
  pub completed_at : Option ℕ
  pub requires_approval : Bool
  pub approved_by : Option ℕ
  pub approved_at : Option ℕ
  pub dedup_key : String
  pub created_by : Option ℕ
  pub created_by_actor : Option String

pub record JobResult : Type 0 where
  pub job_id : ℕ
  pub agent_id : ℕ
  pub status : ResultStatus
  pub exit_code : Option ℤ
  pub stdout : List ℕ
  pub stderr : List ℕ
  pub duration_seconds : Option ℕ
  pub started_at : Option ℕ
  pub completed_at : Option ℕ
  pub held_until : Option ℕ
