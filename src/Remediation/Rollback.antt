-- ===== src/Remediation/Rollback.antt =====
-- services/remediation_service.py: `RemediationService.rollback`. Actions of one sequence, which
-- create_plan does not make, come in the order of the table; SQL leaves that order open.
pub mod Bodies
use lokilinux.Prelude.{
  ℕ, suc, String, Bool, true, false, not, Option, none, some, List, [], ◌∷◌, if◌then◌else◌, any,
  is_empty, ◌==◌,
}
use lokilinux.Http.{Http, done, require, found, ◌>>=◌, ◌>>◌}
use lokilinux.Remediation.Types.{
  PlanStatus, Action, PlanEntry, Operation, PlanJob, Desk, is_ended, is_apply,
}
use lokilinux.Remediation.Payload.{sort_by, descending, append_entry, sorted_ids}
use lokilinux.Remediation.Service.{Env, Caller, set_status, link, created_or_error}

-- The loop over the links: the newest APPLY job.
unfoldable pub newest_apply : List PlanJob → Option PlanJob
newest_apply [] = none
newest_apply (j ∷ js) = if is_apply j.operation then some j else newest_apply js

-- `agent_key in completed_agent_ids`
abbrev pub mem_num : ℕ → List ℕ → Bool
mem_num n ns = any (λ (m : ℕ). m == n) ns

-- An action with a rollback body, and that body.
pub record Undo : Type 0 where
  pub agent_id : ℕ
  pub provider : String
  pub body : String

-- The actions with `rollback_body.isnot(None)`.
unfoldable pub reversible : List Action → List Undo
reversible [] = []
reversible (a ∷ more) =
    let rest = reversible more in
    elim a.rollback_body [
      | none ↦ rest
      | some b ↦ record { agent_id = a.agent_id; provider = a.provider; body = b } ∷ rest
    ]

abbrev pub undo_entry : ℕ → Undo → PlanEntry
undo_entry seq u = record { sequence = seq; provider = u.provider; rendered_body = u.body }

-- The loop that builds `rollback_map`, from `seq` on.
unfoldable pub undo_all :
    List ℕ → ℕ → List Undo → List (ℕ × List PlanEntry) → List (ℕ × List PlanEntry)
unfolding append_entry
undo_all completed seq [] m = m
undo_all completed seq (u ∷ more) m = elim (mem_num u.agent_id completed) [
  | false ↦ undo_all completed seq more m
  | true ↦ undo_all completed (suc seq) more (append_entry u.agent_id (undo_entry seq u) m)
]

unfoldable pub rollback_map : List ℕ → List Action → List (ℕ × List PlanEntry)
unfolding undo_all reversible sort_by
rollback_map completed actions = undo_all completed 0 (reversible (sort_by descending actions)) []

abbrev pub keys : List (ℕ × List PlanEntry) → List ℕ
keys [] = []
keys ((a, es) ∷ more) = a ∷ keys more

unfoldable pub rolling_back : ℕ → List (ℕ × List PlanEntry) → Desk → Desk
unfolding link sorted_ids
rolling_back id m d =
    set_status PlanStatus.executing (link id Operation.rollback (sorted_ids (keys m)) m d)

unfoldable pub rollback : Env → Caller → Desk → Http Desk
unfolding newest_apply rollback_map rolling_back sorted_ids
rollback env c d = do
  require (is_ended d.plan.status) 409
  j ← found (newest_apply d.jobs) 409
  require (not (is_empty (rollback_map j.done_on d.actions))) 409
  id ← created_or_error (
      env.create_job c.role (sorted_ids (keys (rollback_map j.done_on d.actions)))
        Operation.rollback (rollback_map j.done_on d.actions))
  done (rolling_back id (rollback_map j.done_on d.actions) d)
