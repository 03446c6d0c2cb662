-- ===== src/Remediation/Verify/Ends.antt =====
-- How an execution ends: the sync of the APPLY job and the verification behind it.
use lokilinux.Prelude.{
  ◌∷◌, ◌==◌, if_lem, ◌⊎◌, inl, inr, Bool-cases, ℕ, ◌-◌, true, ◌≡◌, refl, List, is_empty, all, any,
  ltb, arith, false, some,
}
use lokilinux.Jobs.Types.{is_terminal_job, is_completed}
use lokilinux.Remediation.Sync.{
  has_verifiable_actions, settle_plan, sync_plan, find_plan_job, sync_remediation_plan,
  revert_drift_to_open,
}
use lokilinux.Remediation.Types.{Desk, is_ended, PlanJob, Operation, PlanStatus, is_verifying}
use lokilinux.Remediation.Verify.{
  Evidence, judge, passes, fails, resolve_related_drift, verification_timeout, verify_plan,
  latest_apply_job, pairs, verify_tick,
}

abbrev Ended : Desk → Type 0
Ended d = is_ended d.plan.status ≡ true

late_judge :
    (ev : Evidence) (since : ℕ) (ps : List (ℕ × ℕ)) (d : Desk)
    → ltb verification_timeout (ev.now - since) ≡ true
    → Ended (judge ev since ps d)
unfolding judge resolve_related_drift revert_drift_to_open
late_judge ev since ps d h = if_lem Ended (is_empty ps) _ _ refl (
    if_lem Ended (all (passes ev since) ps) _ _ refl
      (if_lem Ended (any (fails ev since) ps) _ _ refl (rw h refl)))

-- The newest job of the desk is an APPLY job that has ended at `since`.
pub record IsApplied (d : Desk) (j : PlanJob) (since : ℕ) : Type 0 where
  pub newest : (js : List PlanJob) × (d.jobs ≡ j ∷ js)
  pub applies : j.operation ≡ Operation.apply
  pub over : is_terminal_job j.status ≡ true
  pub at_time : j.completed_at ≡ some since

num_refl : (n : ℕ) → (n == n) ≡ true
num_refl n = ground arith

pub latest_apply_job_lem :
    (d : Desk) (j : PlanJob) (since : ℕ) → IsApplied d j since → latest_apply_job d.jobs ≡ some j
unfolding latest_apply_job
latest_apply_job_lem d j since a = let n = a.newest.1 in let o = a.applies in simp (n, o) refl

late_verify :
    (ev : Evidence) (since : ℕ) (d : Desk) (j : PlanJob)
    → IsApplied d j since
    → ltb verification_timeout (ev.now - since) ≡ true
    → Ended (verify_plan ev d)
unfolding verify_plan
late_verify ev since d j a h =
    let l = latest_apply_job_lem d j since a in
    let t = a.at_time in simp (l, t, verify_plan) (late_judge ev since (pairs d.actions) d h)

is_ended_idle : (s : PlanStatus) → is_ended s ≡ true → is_verifying s ≡ false
is_ended_idle s h = ground arith

verify_tick_idle : (ev : Evidence) (d : Desk) → Ended d → Ended (verify_tick ev d)
unfolding verify_tick
verify_tick_idle ev d h = let i = is_ended_idle d.plan.status h in simp (i, verify_tick) h

module _ (now : ℕ) (d : Desk) (j : PlanJob) (since : ℕ) (a : IsApplied d j since) where
  sync_lem : sync_remediation_plan now j.id d ≡ settle_plan now Operation.apply j.status d
  unfolding sync_remediation_plan sync_plan find_plan_job
  sync_lem =
      let n = a.newest.1 in
      let o = a.applies in
      let t = a.over in
      let e = num_refl j.id in
      simp (n, e, t, o, sync_remediation_plan, sync_plan, find_plan_job) refl

  settle-IsApplied : IsApplied (settle_plan now Operation.apply j.status d) j since
  unfolding settle_plan revert_drift_to_open
  settle-IsApplied =
      if_lem (λ (f : Desk). IsApplied f j since) (is_completed j.status) _ _
        (record { newest = a.newest; applies = a.applies; over = a.over; at_time = a.at_time })
        (record { newest = a.newest; applies = a.applies; over = a.over; at_time = a.at_time })

  settle-cases :
      Ended (settle_plan now Operation.apply j.status d)
      ⊎ ((settle_plan now Operation.apply j.status d).plan.status ≡ PlanStatus.verifying)
  unfolding settle_plan revert_drift_to_open
  settle-cases = elim (Bool-cases (is_completed j.status)) [
    | inr c ↦ inl (rw c refl)
    | inl c ↦ elim (Bool-cases (has_verifiable_actions d.actions)) [
      | inl v ↦ inr (rw (c, v) refl)
      | inr v ↦ inl (rw (c, v) refl)
    ]
  ]

  -- Once its newest job, an APPLY job, has ended, the sync with that job and a round of the
  -- verification more than 15 minutes after that end leave the plan COMPLETED or FAILED.
  pub verify_tick_ends :
      (ev : Evidence)
      → ltb verification_timeout (ev.now - since) ≡ true
      → is_ended (verify_tick ev (sync_remediation_plan now j.id d)).plan.status ≡ true
  unfolding verify_tick
  verify_tick_ends ev h = rw sync_lem (elim settle-cases [
    | inl e ↦ verify_tick_idle ev (settle_plan now Operation.apply j.status d) e
    | inr v ↦
        simp (v, verify_tick)
          (late_verify ev since (settle_plan now Operation.apply j.status d) j settle-IsApplied h)
  ])
