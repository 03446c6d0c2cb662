-- ===== src/Remediation/Life/Stuck.antt =====
-- A dry run of a plan that is being executed.
use lokilinux.Prelude.{
  ℕ, Bool, true, false, ◌≡◌, refl, sym, ◌∙◌, subst, some, List, [], ◌∷◌, inl, inr, Bool-cases,
  Option-cases, is_empty, map, ◌==◌, arith,
}
use lokilinux.Python.{Result-cases}
use lokilinux.Http.{done}
use lokilinux.Jobs.Types.{is_terminal_job}
use lokilinux.Remediation.Types.{PlanStatus, PlanJob, Operation, Drift, Desk, is_dry_run}
use lokilinux.Remediation.Payload.{agent_ids, build_actions_payload}
use lokilinux.Remediation.Service.{Env, Caller, link, submit, approve, dry_run}
use lokilinux.Remediation.Rollback.{rollback}
use lokilinux.Remediation.Sync.{sync_plan, find_plan_job, sync_remediation_plan, is_latest}
use lokilinux.Remediation.Verify.{verify_tick}
use lokilinux.Remediation.Scheduler.{scheduler_tick, autopilot_tick}
use lokilinux.Remediation.Life.{JobChange, report_row, report, Change, Changes, drift_to}
use lokilinux.Http.{done_injective}

-- The newest job is a dry run.
abbrev pub previews_last : List PlanJob → Bool
previews_last [] = false
previews_last (j ∷ js) = is_dry_run j.operation

-- The plan is being executed, and its newest job is a dry run.
pub record IsStuck (d : Desk) : Type 0 where
  pub executing : d.plan.status ≡ PlanStatus.executing
  pub preview : previews_last d.jobs ≡ true

pub dry_run-IsStuck :
    (env : Env) (c : Caller) (d e : Desk)
    → dry_run env c d ≡ done e
    → d.plan.status ≡ PlanStatus.executing
    → IsStuck e
unfolding dry_run link
dry_run-IsStuck env c d e h g = elim (Bool-cases (is_empty d.actions)) [
  | inl n ↦ cc (simp n at h)
  | inr n ↦
      elim (Result-cases (
        env.create_job c.role (agent_ids d.actions) Operation.dry_run
          (build_actions_payload d.actions))) [
            | inr (x, o) ↦ cc (simp (n, o) at h)
            | inl (id, o) ↦
                subst IsStuck (done_injective _ e (simp (n, o) at h))
                  (record { executing = g; preview = refl })
          ]
]

some_injective : (j k : PlanJob) → some j ≡ some k → j ≡ k
some_injective j k h = cc

num_refl : (n : ℕ) → (n == n) ≡ true
num_refl n = ground arith

find_plan_job-id :
    (id : ℕ) (js : List PlanJob) (j : PlanJob) → find_plan_job id js ≡ some j → j.id ≡ id
unfolding find_plan_job
find_plan_job-id id [] j h = cc
find_plan_job-id id (k ∷ ks) j h = elim (Bool-cases (k.id == id)) [
  | inr n ↦ find_plan_job-id id ks j (rw n at h)
  | inl n ↦
      let e = some_injective k j (rw n at h) in subst (λ (x : PlanJob). x.id ≡ id) e (ground arith)
]

-- A job that is found and is the newest is a dry run where the newest is.
found_previews :
    (id : ℕ) (js : List PlanJob) (j : PlanJob)
    → previews_last js ≡ true
    → find_plan_job id js ≡ some j
    → is_latest j.id js ≡ true
    → is_dry_run j.operation ≡ true
unfolding find_plan_job
found_previews id [] j h f l = cc
found_previews id (k ∷ ks) j h f l = elim (Bool-cases (k.id == id)) [
  | inl n ↦
      subst (λ (x : PlanJob). is_dry_run x.operation ≡ true) (some_injective k j (rw n at f)) h
  | inr n ↦ let e = find_plan_job-id id ks j (rw n at f) in ground arith
]

sync-keeps : (now id : ℕ) (d : Desk) → IsStuck d → sync_remediation_plan now id d ≡ d
unfolding sync_remediation_plan sync_plan
sync-keeps now id d g = elim (Option-cases (find_plan_job id d.jobs)) [
  | inl n ↦ rw (n, sync_remediation_plan) refl
  | inr (j, n) ↦ elim (Bool-cases (is_terminal_job j.status)) [
    | inr t ↦ rw (n, sync_remediation_plan, sync_plan, t) refl
    | inl t ↦ elim (Bool-cases (is_dry_run j.operation)) [
      | inl o ↦ rw (n, sync_remediation_plan, sync_plan, t, o) refl
      | inr o ↦ elim (Bool-cases (is_latest j.id d.jobs)) [
        | inr l ↦ rw (n, sync_remediation_plan, sync_plan, t, o, l) refl
        | inl l ↦ let y = found_previews id d.jobs j g.preview n l in cc
      ]
    ]
  ]
]

previews_last-report :
    (r : JobChange) (js : List PlanJob) → previews_last (map (report_row r) js) ≡ previews_last js
previews_last-report r [] = refl
previews_last-report r (j ∷ js) = elim (Bool-cases (j.id == r.id)) [
  | inl h ↦ rw h refl
  | inr h ↦ rw h refl
]

report-IsStuck : (r : JobChange) (d : Desk) → IsStuck d → IsStuck (report r d)
unfolding report
report-IsStuck r d g = record {
  executing = g.executing;
  preview = previews_last-report r d.jobs ∙ g.preview;
}

drift_to-IsStuck : (es : List Drift) (d : Desk) → IsStuck d → IsStuck (drift_to es d)
drift_to-IsStuck es d g = record { executing = g.executing; preview = g.preview }

-- Of the operations only a dry run goes through, and no worker acts on the plan.
Change-keeps : (d e : Desk) → Change d e → IsStuck d → IsStuck e
unfolding submit approve rollback scheduler_tick autopilot_tick verify_tick
Change-keeps _ _ (Change.submits d e h) g = let x = g.executing in cc (simp x at h)
Change-keeps _ _ (Change.approves env c d e h) g = let x = g.executing in cc (simp x at h)
Change-keeps _ _ (Change.previews env c d e h) g = dry_run-IsStuck env c d e h g.executing
Change-keeps _ _ (Change.rolls_back env c d e h) g = let x = g.executing in cc (simp x at h)
Change-keeps _ _ (Change.schedules env fleet d) g =
    let x = g.executing in simp (x, scheduler_tick) g
Change-keeps _ _ (Change.graduates env flushes d) g =
    let x = g.executing in simp (x, autopilot_tick) g
Change-keeps _ _ (Change.reports r d) g = report-IsStuck r d g
Change-keeps _ _ (Change.syncs now id d) g = subst IsStuck (sym (sync-keeps now id d g)) g
Change-keeps _ _ (Change.verifies ev d) g = let x = g.executing in simp (x, verify_tick) g
Change-keeps _ _ (Change.drifts es d) g = drift_to-IsStuck es d g

Changes-keeps : (d e : Desk) → Changes d e → IsStuck d → IsStuck e
Changes-keeps _ _ (Changes.here d) g = g
Changes-keeps _ _ (Changes.then_by d e f l s) g = Change-keeps e f s (Changes-keeps d e l g)

-- A plan that is previewed while it is being executed never leaves EXECUTING again, whatever its
-- jobs report and whatever its users and the workers do.
pub dry_run-IsStuck_forever :
    (env : Env) (c : Caller) (d e f : Desk)
    → d.plan.status ≡ PlanStatus.executing
    → dry_run env c d ≡ done e
    → Changes e f
    → f.plan.status ≡ PlanStatus.executing
dry_run-IsStuck_forever env c d e f x h l =
    (Changes-keeps e f l (dry_run-IsStuck env c d e h x)).executing
