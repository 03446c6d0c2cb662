-- ===== src/Remediation/Service.antt =====
-- services/remediation_service.py: the operations of `RemediationService` on one plan, and
-- `is_monitor_only` of services/auto_remediation.py. An operation that ends in an HTTPException
-- leaves no change: the request's session is closed without a commit.
use lokilinux.Prelude.{
  ℕ, suc, String, Bool, true, false, not, ◌&&◌, ◌||◌, Option, none, some, List, [], ◌∷◌,
  if◌then◌else◌, any, all, map, is_empty, is_str, is_num, is_some,
}
use lokilinux.Python.{Exc, Result, ok, raised}
use lokilinux.Http.{Http, done, http_error, require, ◌>>=◌, ◌>>◌}
use lokilinux.Jobs.Types.{JobStatus}
use lokilinux.Jobs.Access.{Role}
use lokilinux.Jobs.Approval.{same_actor, same_user}
use lokilinux.Remediation.Types.{
  PlanStatus, Trigger, Plan, Action, PlanEntry, Operation, DriftStatus, Drift, Desk, is_open_drift,
  is_draft_plan, is_pending_approval,
}
use lokilinux.Remediation.Payload.{build_actions_payload, agent_ids}
use lokilinux.Remediation.Windows.{Window, is_window_open}

-- `create_job role agents operation actions` is what `JobService.create_job` answers for a
-- COMPLIANCE_REMEDIATE job: the id of the job, or an exception. `policy_modes` are the modes of the
-- enabled policy sets that cover a rule.
pub record Env : Type 0 where
  pub now : ℕ
  pub window : ℕ → Option Window
  pub policy_modes : ℕ → List (Option String)
  pub create_job : Role → List ℕ → Operation → List (ℕ × List PlanEntry) → Result ℕ

-- `actor`: its raw id, the UUID that `_safe_uuid` makes of it, and its role.
pub record Caller : Type 0 where
  pub actor_id : Option String
  pub actor : Option ℕ
  pub role : Role

-- `RemediationActionCreate`
pub record NewAction : Type 0 where
  pub rule_id : Option ℕ
  pub drift_event_id : Option ℕ
  pub agent_id : ℕ
  pub provider : String
  pub rendered_body : String
  pub rollback_body : Option String

unfoldable pub is_monitor_only : Env → ℕ → Bool
is_monitor_only env rule =
    let modes = env.policy_modes rule in
    not (is_empty modes) && all (λ (m : Option String). is_str m "MONITOR") modes

abbrev pub is_blocked : Env → NewAction → Bool
unfolding is_monitor_only
is_blocked env a = elim a.rule_id [ none ↦ false | some r ↦ is_monitor_only env r ]

-- A window that is referenced exists and is enabled.
unfoldable pub window_usable : Env → Option ℕ → Bool
window_usable env none = true
window_usable env (some id) = elim (env.window id) [ none ↦ false | some w ↦ w.is_enabled ]

-- `enumerate(actions)`
unfoldable pub number_actions : ℕ → List NewAction → List Action
number_actions i [] = []
number_actions i (a ∷ more) =
    record {
      rule_id = a.rule_id;
      drift_event_id = a.drift_event_id;
      agent_id = a.agent_id;
      provider = a.provider;
      rendered_body = a.rendered_body;
      rollback_body = a.rollback_body;
      sequence = i;
    }
    ∷ number_actions (suc i) more

-- The rows of a new plan, beside the drift events that there are.
unfoldable pub new_plan :
    ℕ → Trigger → List NewAction → Bool → Option ℕ → Option ℕ → Option String → List Drift → Desk
unfolding number_actions
new_plan now trigger actions emergency window by actor drifts = record {
  plan = record {
    status = PlanStatus.draft;
    trigger_type = trigger;
    maintenance_window_id = window;
    is_emergency = emergency;
    created_by = by;
    created_by_actor = actor;
    approved_by = none;
    approved_at = none;
    created_at = now;
  };
  actions = number_actions 0 actions;
  jobs = [];
  drifts = drifts;
}

unfoldable pub create_plan :
    Env
    → Trigger
    → List NewAction
    → Bool
    → Option ℕ
    → Option ℕ
    → Option String
    → List Drift
    → Http Desk
unfolding is_monitor_only window_usable new_plan
create_plan env trigger actions emergency window by actor drifts = do
  require (not (is_empty actions)) 400
  require (not (any (is_blocked env) actions)) 409
  require (window_usable env window) 409
  done (new_plan env.now trigger actions emergency window by actor drifts)

abbrev pub set_status : PlanStatus → Desk → Desk
set_status s d = record d { plan = record d.plan { status = s } }

unfoldable pub submit : Desk → Http Desk
submit d = do
  require (is_draft_plan d.plan.status) 409
  done (set_status PlanStatus.pending_approval d)

-- The RemediationJob row of a new job, which is now the newest.
unfoldable pub link : ℕ → Operation → List ℕ → List (ℕ × List PlanEntry) → Desk → Desk
link id op targets payload d = record d {
  jobs =
      record {
        id = id;
        operation = op;
        targets = targets;
        actions = payload;
        status = JobStatus.queued;
        completed_at = none;
        done_on = [];
      }
      ∷ d.jobs;
}

-- The status of the response for what `create_job` raises; the routers answer 403 to PermissionError.
abbrev pub refusal_code : Exc → ℕ
refusal_code Exc.value_error = 409
refusal_code Exc.permission_error = 403
refusal_code _ = 500

abbrev pub created_or_error : Result ℕ → Http ℕ
created_or_error (ok id) = done id
created_or_error (raised e) = http_error (refusal_code e)

-- `[a.drift_event_id for a in actions if a.drift_event_id is not None]`, as a test
unfoldable pub is_linked : List Action → ℕ → Bool
is_linked actions id = any (λ (a : Action). is_num a.drift_event_id id) actions

abbrev pub mark_row : List Action → Drift → Drift
unfolding is_linked is_open_drift
mark_row actions e =
    if is_linked actions e.id && is_open_drift e.status
    then record e { status = DriftStatus.in_remediation }
    else e

unfoldable pub dispatched : ℕ → Desk → Desk
unfolding link build_actions_payload agent_ids is_linked is_open_drift
dispatched id d =
    let l = link id Operation.apply (agent_ids d.actions) (build_actions_payload d.actions) d in
    record l {
      plan = record l.plan { status = PlanStatus.executing };
      drifts = map (mark_row d.actions) d.drifts;
    }

-- `_dispatch`
unfoldable pub dispatch : Env → Role → Desk → Http Desk
unfolding dispatched build_actions_payload agent_ids
dispatch env role d = do
  id ←
      created_or_error (
        env.create_job role (agent_ids d.actions) Operation.apply (build_actions_payload d.actions))
  done (dispatched id d)

unfoldable pub is_plan_creator : Caller → Plan → Bool
is_plan_creator c p = same_actor c.actor_id p.created_by_actor || same_user p.created_by c.actor

-- `plan.approved_by = ...; plan.approved_at = ...`
unfoldable pub stamp : Env → Caller → Desk → Desk
stamp env c d = record d {
  plan = record d.plan { approved_by = c.actor; approved_at = some env.now };
}

-- `_is_window_open` of a window that was found
unfoldable pub window_open : Env → Option ℕ → Bool
unfolding is_window_open
window_open env none = false
window_open env (some id) = elim (env.window id) [
  | none ↦ false
  | some w ↦ is_window_open w env.now
]

unfoldable pub should_dispatch : Env → Plan → Bool
unfolding window_open
should_dispatch env p =
    p.is_emergency
    || not (is_some p.maintenance_window_id)
    || window_open env p.maintenance_window_id

-- Dispatch now or defer to the scheduler.
unfoldable pub decide : Env → Role → Desk → Http Desk
unfolding should_dispatch dispatch
decide env role d =
    if should_dispatch env d.plan
    then dispatch env role d
    else done (set_status PlanStatus.approved d)

unfoldable pub approve : Env → Caller → Desk → Http Desk
unfolding is_plan_creator window_usable decide stamp
approve env c d = do
  require (is_pending_approval d.plan.status) 409
  require (not (is_plan_creator c d.plan)) 403
  require (window_usable env d.plan.maintenance_window_id) 409
  decide env c.role (stamp env c d)

-- `dry_run`, which asks for no status.
unfoldable pub dry_run : Env → Caller → Desk → Http Desk
unfolding link build_actions_payload agent_ids
dry_run env c d = do
  require (not (is_empty d.actions)) 409
  id ← created_or_error (
      env.create_job c.role (agent_ids d.actions) Operation.dry_run
        (build_actions_payload d.actions))
  done (link id Operation.dry_run (agent_ids d.actions) (build_actions_payload d.actions) d)
