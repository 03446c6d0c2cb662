-- ===== src/Remediation/Life/Cleared/Operations.antt =====
-- The operations of the service keep a plan cleared.
use lokilinux.Prelude.{
  ℕ, true, false, ◌≡◌, refl, subst, some, List, [], ◌∷◌, any, arith, inl, inr, Bool-cases,
  Option-cases, is_empty,
}
use lokilinux.Python.{Result-cases}
use lokilinux.Http.{done}
use lokilinux.Jobs.Access.{Role}
use lokilinux.Remediation.Types.{
  PlanStatus, PlanJob, Operation, Desk, PlanEntry, is_dry_run, is_draft_plan, is_ended, is_apply,
  is_pending_approval,
}
use lokilinux.Remediation.Payload.{agent_ids, build_actions_payload, sorted_ids}
use lokilinux.Remediation.Service.{
  Env, Caller, is_plan_creator, stamp, submit, approve, decide, dispatch, dispatched, link,
  set_status, should_dispatch, window_usable, dry_run,
}
use lokilinux.Remediation.Rollback.{newest_apply, rollback, rollback_map, rolling_back, keys}
use lokilinux.Remediation.Life.Cleared.{
  IsSigned, IsCleared, acts, with_status-IsSigned, stamp-IsSigned,
}
use lokilinux.Http.{done_injective}

is_apply_acts : (o : Operation) → is_apply o ≡ true → is_dry_run o ≡ false
is_apply_acts Operation.apply h = refl
is_apply_acts Operation.dry_run h = cc
is_apply_acts Operation.rollback h = refl

-- A plan with an APPLY job has a job that acts.
newest_apply-acts :
    (js : List PlanJob) (j : PlanJob) → newest_apply js ≡ some j → any acts js ≡ true
unfolding newest_apply
newest_apply-acts [] j h = cc
newest_apply-acts (k ∷ ks) j h = elim (Bool-cases (is_apply k.operation)) [
  | inl n ↦ let a = is_apply_acts k.operation n in ground arith
  | inr n ↦ let ih = newest_apply-acts ks j (rw n at h) in ground arith
]

module _ (G : Caller → Type 0) where
  pub submitted-IsCleared :
      (d : Desk) → IsCleared G d → IsCleared G (set_status PlanStatus.pending_approval d)
  submitted-IsCleared d g = record {
    by_status = λ h. cc;
    by_job = λ h. with_status-IsSigned G d.plan PlanStatus.pending_approval (g.by_job h);
  }

  pub submit-IsCleared : (d e : Desk) → submit d ≡ done e → IsCleared G d → IsCleared G e
  unfolding submit
  submit-IsCleared d e h g = elim (Bool-cases (is_draft_plan d.plan.status)) [
    | inr n ↦ cc (simp n at h)
    | inl n ↦ subst (IsCleared G) (done_injective _ e (simp n at h)) (submitted-IsCleared d g)
  ]

  dispatched-IsSigned : (id : ℕ) (d : Desk) → IsSigned G d.plan → IsSigned G (dispatched id d).plan
  unfolding dispatched link
  dispatched-IsSigned id d g = with_status-IsSigned G d.plan PlanStatus.executing g

  pub dispatch-IsSigned :
      (env : Env) (role : Role) (d e : Desk)
      → dispatch env role d ≡ done e
      → IsSigned G d.plan
      → IsSigned G e.plan
  unfolding dispatch
  dispatch-IsSigned env role d e h g =
      elim (Result-cases (
        env.create_job role (agent_ids d.actions) Operation.apply
          (build_actions_payload d.actions))) [
            | inr (x, n) ↦ cc (simp n at h)
            | inl (id, n) ↦
                subst (λ (f : Desk). IsSigned G f.plan) (done_injective _ e (simp n at h))
                  (dispatched-IsSigned id d g)
          ]

  decide-IsSigned :
      (env : Env) (role : Role) (d e : Desk)
      → decide env role d ≡ done e
      → IsSigned G d.plan
      → IsSigned G e.plan
  unfolding decide
  decide-IsSigned env role d e h g = elim (Bool-cases (should_dispatch env d.plan)) [
    | inl n ↦ dispatch-IsSigned env role d e (simp n at h) g
    | inr n ↦
        subst (λ (f : Desk). IsSigned G f.plan) (done_injective _ e (simp n at h))
          (with_status-IsSigned G d.plan PlanStatus.approved g)
  ]

  pub approve-IsSigned :
      (env : Env) (c : Caller) (d e : Desk) → G c → approve env c d ≡ done e → IsSigned G e.plan
  unfolding approve
  approve-IsSigned env c d e k h = elim (Bool-cases (is_pending_approval d.plan.status)) [
    | inr n ↦ cc (simp n at h)
    | inl n ↦ elim (Bool-cases (is_plan_creator c d.plan)) [
      | inl o ↦ cc (simp (n, o) at h)
      | inr o ↦ elim (Bool-cases (window_usable env d.plan.maintenance_window_id)) [
        | inr w ↦ cc (simp (n, o, w) at h)
        | inl w ↦
            decide-IsSigned env c.role (stamp env c d) e (simp (n, o, w) at h)
              (stamp-IsSigned G env c d k o)
      ]
    ]
  ]

  linked-IsCleared :
      (id : ℕ) (ts : List ℕ) (m : List (ℕ × List PlanEntry)) (d : Desk)
      → IsCleared G d
      → IsCleared G (link id Operation.dry_run ts m d)
  unfolding link
  linked-IsCleared id ts m d g = record { by_status = g.by_status; by_job = g.by_job }

  pub dry_run-IsCleared :
      (env : Env) (c : Caller) (d e : Desk)
      → dry_run env c d ≡ done e
      → IsCleared G d
      → IsCleared G e
  unfolding dry_run
  dry_run-IsCleared env c d e h g = elim (Bool-cases (is_empty d.actions)) [
    | inl n ↦ cc (simp n at h)
    | inr n ↦
        elim (Result-cases (
          env.create_job c.role (agent_ids d.actions) Operation.dry_run
            (build_actions_payload d.actions))) [
              | inr (x, o) ↦ cc (simp (n, o) at h)
              | inl (id, o) ↦
                  subst (IsCleared G) (done_injective _ e (simp (n, o) at h)) (
                    linked-IsCleared id (agent_ids d.actions) (build_actions_payload d.actions) d g)
            ]
  ]

  rolling_back-IsSigned :
      (id : ℕ) (m : List (ℕ × List PlanEntry)) (d : Desk)
      → IsSigned G d.plan
      → IsSigned G (rolling_back id m d).plan
  unfolding rolling_back link
  rolling_back-IsSigned id m d g = with_status-IsSigned G d.plan PlanStatus.executing g

  module _ (env : Env) (c : Caller) (d e : Desk) (j : PlanJob) where
    abbrev m : List (ℕ × List PlanEntry)
    m = rollback_map j.done_on d.actions

    undone-IsSigned :
        is_ended d.plan.status ≡ true
        → newest_apply d.jobs ≡ some j
        → rollback env c d ≡ done e
        → IsSigned G d.plan
        → IsSigned G e.plan
    unfolding rollback
    undone-IsSigned n f h g = elim (Bool-cases (is_empty m)) [
      | inl x ↦ cc (simp (n, f, x) at h)
      | inr x ↦
          elim (Result-cases (env.create_job c.role (sorted_ids (keys m)) Operation.rollback m)) [
            | inr (y, o) ↦ cc (simp (n, f, x, o) at h)
            | inl (id, o) ↦
                subst (λ (f : Desk). IsSigned G f.plan)
                  (done_injective _ e (simp (n, f, x, o) at h)) (rolling_back-IsSigned id m d g)
          ]
    ]

  pub rollback-IsSigned :
      (env : Env) (c : Caller) (d e : Desk)
      → rollback env c d ≡ done e
      → IsCleared G d
      → IsSigned G e.plan
  unfolding rollback
  rollback-IsSigned env c d e h g = elim (Bool-cases (is_ended d.plan.status)) [
    | inr n ↦ cc (simp n at h)
    | inl n ↦ elim (Option-cases (newest_apply d.jobs)) [
      | inl f ↦ cc (simp (n, f) at h)
      | inr (j, f) ↦ undone-IsSigned env c d e j n f h (g.by_job (newest_apply-acts d.jobs j f))
    ]
  ]
