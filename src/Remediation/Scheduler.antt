-- ===== src/Remediation/Scheduler.antt =====
-- workers/remediation_scheduler.py: the dispatch of approved plans in their windows, and the plans
-- of the autopilot behind their dry run.
pub mod Scoped
use lokilinux.Prelude.{
  ℕ, ◌-◌, Bool, true, false, not, ◌&&◌, Option, none, some, List, [], ◌∷◌, if◌then◌else◌, all,
  is_empty, ltb,
}
use lokilinux.Http.{Http, done, http_error}
use lokilinux.Jobs.Types.{is_terminal_job, is_completed}
use lokilinux.Jobs.Access.{Role}
use lokilinux.Remediation.Types.{
  PlanStatus, Trigger, PlanJob, Desk, is_draft_plan, is_approved, is_dry_run,
}
use lokilinux.Remediation.Payload.{agent_ids}
use lokilinux.Remediation.Windows.{Window, Agent, is_window_open, agent_matches_window_scope}
use lokilinux.Remediation.Service.{Env, Caller, dispatch, submit, approve, stamp, set_status}

-- The agents table.
abbrev pub Fleet : Type 0
Fleet = ℕ → Option Agent

-- One target exists and matches the scope.
unfoldable pub in_scope : Fleet → Window → ℕ → Bool
unfolding agent_matches_window_scope
in_scope fleet w id = elim (fleet id) [ none ↦ false | some a ↦ agent_matches_window_scope a w ]

abbrev pub or_same : Desk → Http Desk → Desk
or_same d (done e) = e
or_same d (http_error c) = d

-- The window is usable and open, and there are targets, all of them in its scope.
unfoldable pub may_dispatch : Env → Fleet → Desk → Window → Bool
unfolding in_scope is_window_open agent_ids
may_dispatch env fleet d w =
    w.is_enabled
    && is_window_open w env.now
    && not (is_empty (agent_ids d.actions))
    && all (in_scope fleet w) (agent_ids d.actions)

-- `_try_dispatch`; an exception of the dispatch is logged.
unfoldable pub try_dispatch : Env → Fleet → ℕ → Desk → Desk
unfolding may_dispatch dispatch
try_dispatch env fleet id d = elim (env.window id) [
  | none ↦ d
  | some w ↦ if may_dispatch env fleet d w then or_same d (dispatch env Role.system d) else d
]

-- The round of `_tick` for one plan: APPROVED, with a window.
unfoldable pub scheduler_tick : Env → Fleet → Desk → Desk
unfolding try_dispatch
scheduler_tick env fleet d =
    if is_approved d.plan.status
    then elim d.plan.maintenance_window_id [ none ↦ d | some id ↦ try_dispatch env fleet id d ]
    else d

-- `_AUTOPILOT_ACTOR`
abbrev pub autopilot : Caller
autopilot = record { actor_id = none; actor = none; role = Role.system }

-- `_DRY_RUN_DISPATCH_GRACE`, 300 seconds in microseconds
abbrev pub dry_run_dispatch_grace : ℕ
dry_run_dispatch_grace = 300000000

-- `_latest_dry_run_job`: the newest link only, and only if its job is a dry run.
unfoldable pub latest_dry_run_job : List PlanJob → Option PlanJob
latest_dry_run_job [] = none
latest_dry_run_job (j ∷ js) = if is_dry_run j.operation then some j else none

-- `submit` and `approve` of a plan whose dry run passed. Where `approve` raises, the plan stays
-- submitted; the time of approval, which it has set by then, is saved if a later commit of the tick
-- `flushes` the session.
unfoldable pub graduate : Env → Bool → Desk → Desk
unfolding submit approve stamp
graduate env flushes d = elim (submit d) [
  | http_error c ↦ d
  | done e ↦ elim (approve env autopilot e) [
    | done f ↦ f
    | http_error c ↦ if flushes then stamp env autopilot e else e
  ]
]

abbrev pub is_automatic : Trigger → Bool
is_automatic Trigger.automatic = true
is_automatic _ = false

-- The loop's body in `_resolve_pending_dry_runs`.
unfoldable pub resolve_dry_run : Env → Bool → Desk → Desk
unfolding latest_dry_run_job graduate is_terminal_job is_completed
resolve_dry_run env flushes d = elim (latest_dry_run_job d.jobs) [
  | none ↦
      if ltb dry_run_dispatch_grace (env.now - d.plan.created_at)
      then set_status PlanStatus.failed d
      else d
  | some j ↦
      if is_terminal_job j.status
      then if is_completed j.status then graduate env flushes d else set_status PlanStatus.failed d
      else d
]

-- The round of `_resolve_pending_dry_runs` for one plan: DRAFT and AUTOMATIC.
unfoldable pub autopilot_tick : Env → Bool → Desk → Desk
unfolding resolve_dry_run
autopilot_tick env flushes d =
    if is_draft_plan d.plan.status && is_automatic d.plan.trigger_type
    then resolve_dry_run env flushes d
    else d
