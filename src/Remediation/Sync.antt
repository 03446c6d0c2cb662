-- ===== src/Remediation/Sync.antt =====
-- services/job_service.py: what the end of a COMPLIANCE_REMEDIATE job does to its plan.
pub mod Once
use lokilinux.Prelude.{
  ℕ, Bool, false, ◌&&◌, Option, none, some, List, [], ◌∷◌, if◌then◌else◌, any, map, is_some, ◌==◌,
}
use lokilinux.Jobs.Types.{JobStatus, is_terminal_job, is_completed}
use lokilinux.Remediation.Types.{
  PlanStatus, Action, Operation, PlanJob, DriftStatus, Drift, Desk, is_in_remediation, is_dry_run,
}
use lokilinux.Remediation.Service.{set_status, is_linked}

abbrev pub revert_row : ℕ → List Action → Drift → Drift
unfolding is_linked
revert_row now actions e =
    if is_linked actions e.id && is_in_remediation e.status
    then record e { status = DriftStatus.opened; last_seen = now }
    else e

-- `_revert_drift_to_open`
unfoldable pub revert_drift_to_open : ℕ → Desk → Desk
unfolding is_linked
revert_drift_to_open now d = record d { drifts = map (revert_row now d.actions) d.drifts }

-- `_plan_has_verifiable_actions`
unfoldable pub has_verifiable_actions : List Action → Bool
has_verifiable_actions actions = any (λ (a : Action). is_some a.rule_id) actions

-- The plan behind the end of its newest job.
unfoldable pub settle_plan : ℕ → Operation → JobStatus → Desk → Desk
unfolding revert_drift_to_open has_verifiable_actions is_completed
settle_plan now Operation.rollback s d =
    revert_drift_to_open now
      (set_status (if is_completed s then PlanStatus.rolled_back else PlanStatus.failed) d)
settle_plan now _ s d =
    if is_completed s
    then set_status
        (if has_verifiable_actions d.actions then PlanStatus.verifying else PlanStatus.completed) d
    else revert_drift_to_open now (set_status PlanStatus.failed d)

-- `latest_link.job_id == job.id`
abbrev pub is_latest : ℕ → List PlanJob → Bool
is_latest id [] = false
is_latest id (j ∷ js) = j.id == id

-- `_sync_remediation_plan`, for a job of this plan
unfoldable pub sync_plan : ℕ → PlanJob → Desk → Desk
unfolding settle_plan is_terminal_job
sync_plan now j d =
    if is_terminal_job j.status
    then if is_dry_run j.operation
      then d
      else if is_latest j.id d.jobs
      then settle_plan now j.operation j.status d
      else d
    else d

unfoldable pub find_plan_job : ℕ → List PlanJob → Option PlanJob
find_plan_job id [] = none
find_plan_job id (j ∷ js) = if j.id == id then some j else find_plan_job id js

-- `sync_remediation_plan`: every job of the desk is a COMPLIANCE_REMEDIATE job.
unfoldable pub sync_remediation_plan : ℕ → ℕ → Desk → Desk
unfolding sync_plan find_plan_job
sync_remediation_plan now id d = elim (find_plan_job id d.jobs) [
  | none ↦ d
  | some j ↦ sync_plan now j d
]
