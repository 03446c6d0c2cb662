-- ===== src/Remediation/Sync/Once.antt =====
-- A second sync with the same job.
use lokilinux.Prelude.{
  ◌∙◌, sym, refl, if_lem, ap, some, Option-cases, Bool-cases, inl, inr, true, arith, ℕ, ◌&&◌, ◌≡◌,
  List, [], ◌∷◌, map,
}
use lokilinux.Jobs.Types.{is_terminal_job, is_completed, JobStatus}
use lokilinux.Remediation.Types.{
  PlanJob, is_dry_run, Desk, Operation, Action, Drift, is_in_remediation,
}
use lokilinux.Remediation.Sync.{
  is_latest, sync_plan, find_plan_job, sync_remediation_plan, settle_plan, revert_drift_to_open,
  revert_row,
}
use lokilinux.Remediation.Service.{is_linked}

revert_row-once :
    (later now : ℕ) (actions : List Action) (e : Drift)
    → revert_row later actions (revert_row now actions e) ≡ revert_row now actions e
unfolding revert_row
revert_row-once later now actions e =
    elim (Bool-cases (is_linked actions e.id && is_in_remediation e.status)) [
      | inl h ↦ rw h (ground arith)
      | inr h ↦ rw (h, h) refl
    ]

map-once :
    (later now : ℕ) (actions : List Action) (es : List Drift)
    → map (revert_row later actions) (map (revert_row now actions) es)
      ≡ map (revert_row now actions) es
map-once later now actions [] = refl
map-once later now actions (e ∷ es) =
    let h = revert_row-once later now actions e in
    let t = map-once later now actions es in
    ap (λ x. x ∷ map (revert_row later actions) (map (revert_row now actions) es)) h
    ∙ ap (λ xs. revert_row now actions e ∷ xs) t

settle_plan-once :
    (later now : ℕ) (o : Operation) (s : JobStatus) (d : Desk)
    → settle_plan later o s (settle_plan now o s d) ≡ settle_plan now o s d
unfolding settle_plan revert_drift_to_open
settle_plan-once later now Operation.rollback s d =
    let m = map-once later now d.actions d.drifts in rw m refl
settle_plan-once later now Operation.apply s d = elim (Bool-cases (is_completed s)) [
  | inr c ↦ let m = map-once later now d.actions d.drifts in rw (c, m) refl
  | inl c ↦ rw c refl
]
settle_plan-once later now Operation.dry_run s d = elim (Bool-cases (is_completed s)) [
  | inr c ↦ let m = map-once later now d.actions d.drifts in rw (c, m) refl
  | inl c ↦ rw c refl
]

settle_plan-jobs :
    (now : ℕ) (o : Operation) (s : JobStatus) (d : Desk) → (settle_plan now o s d).jobs ≡ d.jobs
unfolding settle_plan revert_drift_to_open
settle_plan-jobs now Operation.rollback s d = refl
settle_plan-jobs now Operation.apply s d =
    if_lem (λ (e : Desk). e.jobs ≡ d.jobs) (is_completed s) _ _ refl refl
settle_plan-jobs now Operation.dry_run s d =
    if_lem (λ (e : Desk). e.jobs ≡ d.jobs) (is_completed s) _ _ refl refl

-- Syncing leaves the jobs as they are.
sync_plan-jobs : (now : ℕ) (j : PlanJob) (d : Desk) → (sync_plan now j d).jobs ≡ d.jobs
unfolding sync_plan
sync_plan-jobs now j d =
    let same = if_lem (λ (e : Desk). e.jobs ≡ d.jobs) in
    same (is_terminal_job j.status) _ _
      (same (is_dry_run j.operation) _ _ refl
        (same (is_latest j.id d.jobs) _ _ (settle_plan-jobs now j.operation j.status d) refl))
      refl

sync_plan-once :
    (later now : ℕ) (j : PlanJob) (d : Desk)
    → sync_plan later j (sync_plan now j d) ≡ sync_plan now j d
unfolding sync_plan
sync_plan-once later now j d = elim (Bool-cases (is_terminal_job j.status)) [
  | inr t ↦ rw t refl
  | inl t ↦ elim (Bool-cases (is_dry_run j.operation)) [
    | inl o ↦ rw (t, o) refl
    | inr o ↦ elim (Bool-cases (is_latest j.id d.jobs)) [
      | inr l ↦ rw (t, o, l, l) refl
      | inl l ↦
          let k : is_latest j.id (settle_plan now j.operation j.status d).jobs ≡ true =
            ap (is_latest j.id) (settle_plan-jobs now j.operation j.status d) ∙ l in
          rw (t, o, l, k) (settle_plan-once later now j.operation j.status d)
    ]
  ]
]

-- A second sync with the same job, at any later time, changes nothing: neither the status of the
-- plan nor a drift event, nor when that was last seen.
pub sync_remediation_plan-once :
    (later now id : ℕ) (d : Desk)
    → sync_remediation_plan later id (sync_remediation_plan now id d)
      ≡ sync_remediation_plan now id d
unfolding sync_remediation_plan
sync_remediation_plan-once later now id d = elim (Option-cases (find_plan_job id d.jobs)) [
  | inl n ↦
      let s : sync_remediation_plan now id d ≡ d = rw (n, sync_remediation_plan) refl in
      let u : sync_remediation_plan later id d ≡ d = rw (n, sync_remediation_plan) refl in
      ap (sync_remediation_plan later id) s ∙ u ∙ sym s
  | inr (j, n) ↦
      let s : sync_remediation_plan now id d ≡ sync_plan now j d =
        rw (n, sync_remediation_plan) refl in
      let k : find_plan_job id (sync_plan now j d).jobs ≡ some j =
        ap (find_plan_job id) (sync_plan-jobs now j d) ∙ n in
      let u : sync_remediation_plan later id (sync_plan now j d)
          ≡ sync_plan later j (sync_plan now j d) =
        rw (k, sync_remediation_plan) refl in
      ap (sync_remediation_plan later id) s ∙ u ∙ sync_plan-once later now j d ∙ sym s
]
