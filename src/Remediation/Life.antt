-- ===== src/Remediation/Life.antt =====
-- All that can happen to a plan: the operations of its service, the rounds of the three workers, and
-- what agents and other users do to its jobs and its drift events.
pub mod Cleared
pub mod Stuck
use lokilinux.Prelude.{ℕ, Bool, ◌≡◌, Option, List, String, if◌then◌else◌, ◌==◌, map}
use lokilinux.Http.{done}
use lokilinux.Jobs.Types.{JobStatus}
use lokilinux.Remediation.Types.{Trigger, PlanJob, Drift, Desk}
use lokilinux.Remediation.Service.{Env, Caller, NewAction, create_plan, submit, approve, dry_run}
use lokilinux.Remediation.Rollback.{rollback}
use lokilinux.Remediation.Sync.{sync_remediation_plan}
use lokilinux.Remediation.Verify.{Evidence, verify_tick}
use lokilinux.Remediation.Scheduler.{Fleet, scheduler_tick, autopilot_tick}

-- What recompute_job_status, a cancellation or the timeout sweep makes of a job.
pub record JobChange : Type 0 where
  pub id : ℕ
  pub status : JobStatus
  pub completed_at : Option ℕ
  pub done_on : List ℕ

abbrev pub report_row : JobChange → PlanJob → PlanJob
report_row r j =
    if j.id == r.id
    then record j { status = r.status; completed_at = r.completed_at; done_on = r.done_on }
    else j

unfoldable pub report : JobChange → Desk → Desk
report r d = record d { jobs = map (report_row r) d.jobs }

-- Drift events change by the hand of others.
abbrev pub drift_to : List Drift → Desk → Desk
drift_to es d = record d { drifts = es }

pub data Change : Desk → Desk → Type 0 where
  submits : (d e : Desk) → submit d ≡ done e → Change d e
  approves : (env : Env) (c : Caller) (d e : Desk) → approve env c d ≡ done e → Change d e
  previews : (env : Env) (c : Caller) (d e : Desk) → dry_run env c d ≡ done e → Change d e
  rolls_back : (env : Env) (c : Caller) (d e : Desk) → rollback env c d ≡ done e → Change d e
  schedules : (env : Env) (fleet : Fleet) (d : Desk) → Change d (scheduler_tick env fleet d)
  graduates : (env : Env) (flushes : Bool) (d : Desk) → Change d (autopilot_tick env flushes d)
  reports : (r : JobChange) (d : Desk) → Change d (report r d)
  syncs : (now id : ℕ) (d : Desk) → Change d (sync_remediation_plan now id d)
  verifies : (ev : Evidence) (d : Desk) → Change d (verify_tick ev d)
  drifts : (es : List Drift) (d : Desk) → Change d (drift_to es d)

-- Any number of steps.
pub data Changes : Desk → Desk → Type 0 where
  here : (d : Desk) → Changes d d
  then_by : (d e f : Desk) → Changes d e → Change e f → Changes d f

-- A plan that was created, and what followed.
pub data Life : Desk → Type 0 where
  begins :
      (env : Env) (trigger : Trigger) (actions : List NewAction) (emergency : Bool)
      (window by : Option ℕ) (actor : Option String) (drifts : List Drift) (d e : Desk)
      → create_plan env trigger actions emergency window by actor drifts ≡ done d
      → Changes d e
      → Life e
