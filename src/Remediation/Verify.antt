-- ===== src/Remediation/Verify.antt =====
-- workers/remediation_verification.py: the check of a plan against fresh rule evaluations.
pub mod Ends
pub mod Verdicts
use lokilinux.Prelude.{
  ℕ, ◌-◌, String, Bool, false, ◌&&◌, Option, none, some, List, [], ◌∷◌, if◌then◌else◌, any, all,
  map, is_empty, is_str, ltb, ◌==◌, str_eq,
}
use lokilinux.Remediation.Types.{
  PlanStatus, Action, PlanJob, DriftStatus, Drift, Desk, is_open_drift, is_apply, is_verifying,
}
use lokilinux.Remediation.Service.{set_status}
use lokilinux.Remediation.Sync.{revert_drift_to_open}

-- `rule_evaluations`, as the query reads them: the newest result of an agent and a rule behind a
-- time; and `compliance_rules`: the domain of a rule.
pub record Evidence : Type 0 where
  pub now : ℕ
  pub latest_fresh_result : ℕ → ℕ → ℕ → Option String
  pub domain_of : ℕ → Option String

-- `_VERIFICATION_TIMEOUT`, 15 minutes in microseconds
abbrev pub verification_timeout : ℕ
verification_timeout = 900000000

-- `_latest_apply_job`: the newest link only, and only if its job applies.
unfoldable pub latest_apply_job : List PlanJob → Option PlanJob
latest_apply_job [] = none
latest_apply_job (j ∷ js) = if is_apply j.operation then some j else none

-- `pairs`: agents and rules of the actions that have a rule.
unfoldable pub pairs : List Action → List (ℕ × ℕ)
pairs [] = []
pairs (a ∷ more) =
    let rest = pairs more in elim a.rule_id [ none ↦ rest | some r ↦ (a.agent_id, r) ∷ rest ]

abbrev pub verdict : Evidence → ℕ → ℕ × ℕ → Option String
verdict ev since (a, r) = ev.latest_fresh_result a r since

abbrev pub passes : Evidence → ℕ → ℕ × ℕ → Bool
passes ev since p = is_str (verdict ev since p) "PASS"

abbrev pub fails : Evidence → ℕ → ℕ × ℕ → Bool
fails ev since p = is_str (verdict ev since p) "FAIL"

abbrev same_domain : Option String → String → Bool
same_domain none s = false
same_domain (some t) s = str_eq t s

abbrev resolves : Evidence → Drift → ℕ × ℕ → Bool
resolves ev e (a, r) = e.agent_id == a && same_domain (ev.domain_of r) e.domain

abbrev resolve_row : Evidence → List (ℕ × ℕ) → Drift → Drift
unfolding is_open_drift
resolve_row ev ps e =
    if is_open_drift e.status && any (resolves ev e) ps
    then record e { status = DriftStatus.resolved; resolved_at = some ev.now }
    else e

-- `_resolve_related_drift`
unfoldable pub resolve_related_drift : Evidence → List (ℕ × ℕ) → Desk → Desk
unfolding is_open_drift
resolve_related_drift ev ps d = record d { drifts = map (resolve_row ev ps) d.drifts }

-- The verdicts on an APPLY job that ended at `since`.
unfoldable pub judge : Evidence → ℕ → List (ℕ × ℕ) → Desk → Desk
unfolding resolve_related_drift revert_drift_to_open
judge ev since ps d =
    if is_empty ps
    then set_status PlanStatus.completed d
    else if all (passes ev since) ps
    then resolve_related_drift ev ps (set_status PlanStatus.completed d)
    else if any (fails ev since) ps
    then revert_drift_to_open ev.now (set_status PlanStatus.failed d)
    else if ltb verification_timeout (ev.now - since)
    then revert_drift_to_open ev.now (set_status PlanStatus.failed d)
    else d

-- `_verify_plan`
unfoldable pub verify_plan : Evidence → Desk → Desk
unfolding latest_apply_job pairs judge
verify_plan ev d = elim (latest_apply_job d.jobs) [
  | none ↦ d
  | some j ↦ elim j.completed_at [ none ↦ d | some since ↦ judge ev since (pairs d.actions) d ]
]

-- The round of `_tick` for one plan.
unfoldable pub verify_tick : Evidence → Desk → Desk
unfolding verify_plan
verify_tick ev d = if is_verifying d.plan.status then verify_plan ev d else d
