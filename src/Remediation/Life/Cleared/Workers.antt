-- ===== src/Remediation/Life/Cleared/Workers.antt =====
-- The workers, the reports on jobs and the syncs keep a plan cleared.
use lokilinux.Prelude.{
  ◌&&◌, ℕ, Bool, true, false, ◌≡◌, refl, sym, ◌∙◌, subst, some, List, [], ◌∷◌, ◌==◌, any, map,
  arith, inl, inr, Bool-cases, Option-cases, if_lem, is_empty, all, ltb, ◌-◌,
}
use lokilinux.Http.{Http, done, http_error, Http-cases}
use lokilinux.Jobs.Types.{JobStatus, is_terminal_job, is_completed}
use lokilinux.Jobs.Access.{Role}
use lokilinux.Remediation.Types.{
  PlanStatus, Plan, PlanJob, Operation, Desk, is_dry_run, is_approved, is_verifying, is_draft_plan,
}
use lokilinux.Remediation.Verify.{
  passes, fails, verification_timeout, Evidence, judge, verify_plan, verify_tick, latest_apply_job,
  pairs, resolve_related_drift,
}
use lokilinux.Remediation.Service.{
  Env, Caller, is_plan_creator, dispatch, set_status, submit, approve,
}
use lokilinux.Remediation.Sync.{
  settle_plan, sync_plan, find_plan_job, sync_remediation_plan, is_latest, revert_drift_to_open,
}
use lokilinux.Remediation.Scheduler.{
  Fleet, try_dispatch, scheduler_tick, may_dispatch, graduate, resolve_dry_run, autopilot_tick,
  autopilot, latest_dry_run_job, or_same, is_automatic,
}
use lokilinux.Remediation.Life.{JobChange, report_row, report}
use lokilinux.Remediation.Life.Cleared.{
  IsSigned, IsCleared, acts, is_past_approval, with_status-IsSigned, signed-IsCleared,
  stamp-IsSigned,
}
use lokilinux.Remediation.Life.Cleared.Operations.{
  dispatch-IsSigned, approve-IsSigned, submit-IsCleared,
}

-- The newest job of the plan is a dry run that has completed.
abbrev pub DryRunPassed : Desk → Type 0
DryRunPassed d =
    (j : PlanJob) × (latest_dry_run_job d.jobs ≡ some j) × (is_completed j.status ≡ true)

-- The autopilot may graduate the plan: a draft of its own whose dry run has passed.
abbrev pub Graduates : Desk → Type 0
Graduates d =
    ((is_draft_plan d.plan.status && is_automatic d.plan.trigger_type) ≡ true) × DryRunPassed d

-- A job that is found and is no dry run acts.
find_plan_job-acts :
    (id : ℕ) (js : List PlanJob) (j : PlanJob)
    → find_plan_job id js ≡ some j
    → is_dry_run j.operation ≡ false
    → any acts js ≡ true
unfolding find_plan_job
find_plan_job-acts id [] j h o = cc
find_plan_job-acts id (k ∷ ks) j h o = elim (Bool-cases (k.id == id)) [
  | inl n ↦
      let e : some k ≡ some j = rw n at h in
      let f : k ≡ j = cc in
      let a : is_dry_run k.operation ≡ false =
        subst (λ (x : PlanJob). is_dry_run x.operation ≡ false) (sym f) o in
      ground arith
  | inr n ↦ let ih = find_plan_job-acts id ks j (rw n at h) o in ground arith
]

is_verifying_past : (s : PlanStatus) → is_verifying s ≡ true → is_past_approval s ≡ true
is_verifying_past s h = ground arith

is_approved_past : (s : PlanStatus) → is_approved s ≡ true → is_past_approval s ≡ true
is_approved_past s h = ground arith

-- The autopilot is nobody's creator.
is_plan_creator-autopilot : (p : Plan) → is_plan_creator autopilot p ≡ false
unfolding is_plan_creator
is_plan_creator-autopilot p = elim (Option-cases p.created_by) [
  | inl h ↦ simp h refl
  | inr (n, h) ↦ simp h refl
]

-- A report leaves the operations of the jobs as they are.
any-report : (r : JobChange) (js : List PlanJob) → any acts (map (report_row r) js) ≡ any acts js
any-report r [] = refl
any-report r (j ∷ js) =
    let ih = any-report r js in
    elim (Bool-cases (j.id == r.id)) [ inl h ↦ rw (h, ih) refl | inr h ↦ rw (h, ih) refl ]

module _ (G : Caller → Type 0) where
  settle_plan-IsSigned :
      (now : ℕ) (o : Operation) (s : JobStatus) (d : Desk)
      → IsSigned G d.plan
      → IsSigned G (settle_plan now o s d).plan
  unfolding settle_plan revert_drift_to_open
  settle_plan-IsSigned now Operation.rollback s d g = with_status-IsSigned G d.plan _ g
  settle_plan-IsSigned now Operation.apply s d g =
      if_lem (λ (f : Desk). IsSigned G f.plan) (is_completed s) _ _
        (with_status-IsSigned G d.plan _ g) (with_status-IsSigned G d.plan _ g)
  settle_plan-IsSigned now Operation.dry_run s d g =
      if_lem (λ (f : Desk). IsSigned G f.plan) (is_completed s) _ _
        (with_status-IsSigned G d.plan _ g) (with_status-IsSigned G d.plan _ g)

  sync_plan-IsCleared :
      (now : ℕ) (j : PlanJob) (d : Desk)
      → (is_dry_run j.operation ≡ false → IsSigned G d.plan)
      → IsCleared G d
      → IsCleared G (sync_plan now j d)
  unfolding sync_plan
  sync_plan-IsCleared now j d s g = elim (Bool-cases (is_terminal_job j.status)) [
    | inr t ↦ simp t g
    | inl t ↦ elim (Bool-cases (is_dry_run j.operation)) [
      | inl o ↦ simp (t, o) g
      | inr o ↦ elim (Bool-cases (is_latest j.id d.jobs)) [
        | inr l ↦ simp (t, o, l) g
        | inl l ↦
            simp (t, o, l)
              (signed-IsCleared G _ (settle_plan-IsSigned now j.operation j.status d (s o)))
      ]
    ]
  ]

  pub sync-IsCleared :
      (now id : ℕ) (d : Desk) → IsCleared G d → IsCleared G (sync_remediation_plan now id d)
  unfolding sync_remediation_plan
  sync-IsCleared now id d g = elim (Option-cases (find_plan_job id d.jobs)) [
    | inl n ↦ rw (n, sync_remediation_plan) g
    | inr (j, n) ↦
        rw (n, sync_remediation_plan)
          (sync_plan-IsCleared now j d (λ o. g.by_job (find_plan_job-acts id d.jobs j n o)) g)
  ]

  judge-IsSigned :
      (ev : Evidence) (since : ℕ) (ps : List (ℕ × ℕ)) (d : Desk)
      → IsSigned G d.plan
      → IsSigned G (judge ev since ps d).plan
  unfolding judge resolve_related_drift revert_drift_to_open
  judge-IsSigned ev since ps d g =
      let either = if_lem (λ (f : Desk). IsSigned G f.plan) in
      let completed = with_status-IsSigned G d.plan PlanStatus.completed g in
      let failed = with_status-IsSigned G d.plan PlanStatus.failed g in
      either (is_empty ps) _ _ completed (
        either (all (passes ev since) ps) _ _ completed (
          either (any (fails ev since) ps) _ _ failed
            (either (ltb verification_timeout (ev.now - since)) _ _ failed g)))

  verify_plan-IsSigned :
      (ev : Evidence) (d : Desk) → IsSigned G d.plan → IsSigned G (verify_plan ev d).plan
  unfolding verify_plan
  verify_plan-IsSigned ev d g = elim (Option-cases (latest_apply_job d.jobs)) [
    | inl n ↦ rw (n, verify_plan) g
    | inr (j, n) ↦ elim (Option-cases j.completed_at) [
      | inl t ↦ simp (n, t, verify_plan) g
      | inr (since, t) ↦ simp (n, t, verify_plan) (judge-IsSigned ev since (pairs d.actions) d g)
    ]
  ]

  pub verify_tick-IsCleared :
      (ev : Evidence) (d : Desk) → IsCleared G d → IsCleared G (verify_tick ev d)
  unfolding verify_tick
  verify_tick-IsCleared ev d g = elim (Bool-cases (is_verifying d.plan.status)) [
    | inr n ↦ rw n g
    | inl n ↦ rw n (
        signed-IsCleared G _
          (verify_plan-IsSigned ev d (g.by_status (is_verifying_past d.plan.status n))))
  ]

  or_same-IsSigned :
      (r : Http Desk) (d : Desk)
      → IsSigned G d.plan
      → ((e : Desk) → r ≡ done e → IsSigned G e.plan)
      → IsSigned G (or_same d r).plan
  or_same-IsSigned (done e) d g k = k e refl
  or_same-IsSigned (http_error c) d g k = g

  module _ (env : Env) (fleet : Fleet) where
    try_dispatch-IsSigned :
        (id : ℕ) (d : Desk) → IsSigned G d.plan → IsSigned G (try_dispatch env fleet id d).plan
    unfolding try_dispatch
    try_dispatch-IsSigned id d g = elim (Option-cases (env.window id)) [
      | inl n ↦ rw (n, try_dispatch) g
      | inr (w, n) ↦
          rw (n, try_dispatch)
            (if_lem (λ (f : Desk). IsSigned G f.plan) (may_dispatch env fleet d w) _ _
              (or_same-IsSigned (dispatch env Role.system d) d g
                (λ e h. dispatch-IsSigned G env Role.system d e h g))
              g)
    ]

    pub scheduler_tick-IsCleared :
        (d : Desk) → IsCleared G d → IsCleared G (scheduler_tick env fleet d)
    unfolding scheduler_tick
    scheduler_tick-IsCleared d g = elim (Bool-cases (is_approved d.plan.status)) [
      | inr n ↦ rw n g
      | inl n ↦ elim (Option-cases d.plan.maintenance_window_id) [
        | inl w ↦ simp (n, w) g
        | inr (id, w) ↦
            simp (n, w)
              (signed-IsCleared G _
                (try_dispatch-IsSigned id d (g.by_status (is_approved_past d.plan.status n))))
      ]
    ]

  failed-IsCleared : (d : Desk) → IsCleared G d → IsCleared G (set_status PlanStatus.failed d)
  failed-IsCleared d g = record {
    by_status = λ h. cc;
    by_job = λ h. with_status-IsSigned G d.plan PlanStatus.failed (g.by_job h);
  }

  pub report-IsCleared : (r : JobChange) (d : Desk) → IsCleared G d → IsCleared G (report r d)
  unfolding report
  report-IsCleared r d g = record {
    by_status = g.by_status;
    by_job = λ h. g.by_job (sym (any-report r d.jobs) ∙ h);
  }

  module _ (env : Env) where
    graduate-IsCleared :
        (flushes : Bool) (d : Desk)
        → G autopilot
        → IsCleared G d
        → IsCleared G (graduate env flushes d)
    unfolding graduate
    graduate-IsCleared flushes d k g = elim (Http-cases (submit d)) [
      | inr (c, n) ↦ rw (n, graduate) g
      | inl (e, n) ↦ elim (Http-cases (approve env autopilot e)) [
        | inl (f, m) ↦
            rw (n, m, graduate) (signed-IsCleared G f (approve-IsSigned G env autopilot e f k m))
        | inr (c, m) ↦
            rw (n, m, graduate)
              (if_lem (IsCleared G) flushes _ _
                (signed-IsCleared G _
                  (stamp-IsSigned G env autopilot e k (is_plan_creator-autopilot e.plan)))
                (submit-IsCleared G d e n g))
      ]
    ]

    resolve_dry_run-IsCleared :
        (flushes : Bool) (d : Desk)
        → (DryRunPassed d → G autopilot)
        → IsCleared G d
        → IsCleared G (resolve_dry_run env flushes d)
    unfolding resolve_dry_run
    resolve_dry_run-IsCleared flushes d may g = elim (Option-cases (latest_dry_run_job d.jobs)) [
      | inl n ↦ rw (n, resolve_dry_run) (if_lem (IsCleared G) _ _ _ (failed-IsCleared d g) g)
      | inr (j, n) ↦
          rw (n, resolve_dry_run)
            (if_lem (IsCleared G) (is_terminal_job j.status) _ _
              (elim (Bool-cases (is_completed j.status)) [
                | inl o ↦ rw o (graduate-IsCleared flushes d (may (j, n, o)) g)
                | inr o ↦ rw o (failed-IsCleared d g)
              ])
              g)
    ]

    pub autopilot_tick-IsCleared :
        (flushes : Bool) (d : Desk)
        → (Graduates d → G autopilot)
        → IsCleared G d
        → IsCleared G (autopilot_tick env flushes d)
    unfolding autopilot_tick
    autopilot_tick-IsCleared flushes d may g =
        elim (Bool-cases (is_draft_plan d.plan.status && is_automatic d.plan.trigger_type)) [
          | inl o ↦ rw o (resolve_dry_run-IsCleared flushes d (λ r. may (o, r)) g)
          | inr o ↦ rw o g
        ]
