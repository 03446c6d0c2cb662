-- ===== src/Remediation/Types.antt =====
-- models/remediation.py and models/drift.py: plans with their actions, the jobs linked to a plan,
-- drift events, and maintenance windows. A Desk is what the database holds about one plan.
use lokilinux.Prelude.{ℕ, String, Bool, true, false, Option, List}
use lokilinux.Jobs.Types.{JobStatus}

pub data PlanStatus : Type 0 where
  draft pending_approval approved executing verifying completed failed rolled_back : PlanStatus

pub data Trigger : Type 0 where
  manual scheduled automatic ai_suggested : Trigger

pub record Plan : Type 0 where
  pub status : PlanStatus
  pub trigger_type : Trigger
  pub maintenance_window_id : Option ℕ
  pub is_emergency : Bool
  pub created_by : Option ℕ
  pub created_by_actor : Option String
  pub approved_by : Option ℕ
  pub approved_at : Option ℕ
  pub created_at : ℕ

-- A provider and a body are texts that no decision reads.
pub record Action : Type 0 where
  pub rule_id : Option ℕ
  pub drift_event_id : Option ℕ
  pub agent_id : ℕ
  pub provider : String
  pub rendered_body : String
  pub rollback_body : Option String
  pub sequence : ℕ

-- `entry` of the actions map in a job's parameters.
pub record PlanEntry : Type 0 where
  pub sequence : ℕ
  pub provider : String
  pub rendered_body : String

-- The "operation" in a job's parameters.
pub data Operation : Type 0 where
  apply dry_run rollback : Operation

-- A job that a RemediationJob row links to the plan: `done_on` are the agents of its COMPLETED rows.
pub record PlanJob : Type 0 where
  pub id : ℕ
  pub operation : Operation
  pub targets : List ℕ
  pub actions : List (ℕ × List PlanEntry)
  pub status : JobStatus
  pub completed_at : Option ℕ
  pub done_on : List ℕ

pub data DriftStatus : Type 0 where
  opened acknowledged in_remediation resolved suppressed exception : DriftStatus

pub record Drift : Type 0 where
  pub id : ℕ
  pub agent_id : ℕ
  pub domain : String
  pub status : DriftStatus
  pub last_seen : ℕ
  pub resolved_at : Option ℕ

-- The jobs stand newest first, as `order_by(Job.created_at.desc())` gives them.
pub record Desk : Type 0 where
  pub plan : Plan
  pub actions : List Action
  pub jobs : List PlanJob
  pub drifts : List Drift

-- `status in OPEN_DRIFT_STATUSES`
unfoldable pub is_open_drift : DriftStatus → Bool
is_open_drift DriftStatus.opened = true
is_open_drift DriftStatus.acknowledged = true
is_open_drift DriftStatus.in_remediation = true
is_open_drift _ = false

abbrev pub is_in_remediation : DriftStatus → Bool
is_in_remediation DriftStatus.in_remediation = true
is_in_remediation _ = false

abbrev pub is_draft_plan : PlanStatus → Bool
is_draft_plan PlanStatus.draft = true
is_draft_plan _ = false

abbrev pub is_pending_approval : PlanStatus → Bool
is_pending_approval PlanStatus.pending_approval = true
is_pending_approval _ = false

abbrev pub is_approved : PlanStatus → Bool
is_approved PlanStatus.approved = true
is_approved _ = false

abbrev pub is_verifying : PlanStatus → Bool
is_verifying PlanStatus.verifying = true
is_verifying _ = false

-- `plan.status in ("COMPLETED", "FAILED")`
abbrev pub is_ended : PlanStatus → Bool
is_ended PlanStatus.completed = true
is_ended PlanStatus.failed = true
is_ended _ = false

abbrev pub is_apply : Operation → Bool
is_apply Operation.apply = true
is_apply _ = false

abbrev pub is_dry_run : Operation → Bool
is_dry_run Operation.dry_run = true
is_dry_run _ = false
