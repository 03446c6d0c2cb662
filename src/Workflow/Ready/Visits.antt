-- ===== src/Workflow/Ready/Visits.antt =====
-- What one round of the loop over the pending steps can do.
use lokilinux.Prelude.{
  Bool, List, if◌then◌else◌, true, false, ◌≡◌, refl, ◌⊎◌, inl, inr, Option, none, some, arith,
  Option-cases, Bool-cases,
}
use lokilinux.Python.{Exc, key_error, missing_greenlet, Result, ok, raised}
use lokilinux.Workflow.Types.{
  NodeType, Step, Graph, StepStatus, StepRun, lookup, put, is_pending, normalize_type,
}
use lokilinux.Workflow.Sync.{
  Dispatch, job, refused, lost_race, escapes, Env, Condition, evaluates, expression_error,
  condition_escapes, Delivery, delivered, undelivered, delivery_escapes,
}
use lokilinux.Workflow.Ready.{
  Tick, Progress, go, halt, incoming_edges, Readiness, blocked, ready, unmatched, readiness, fail,
  finish, end_status, run_condition, run_wait, run_notification, run_webhook, refuse, run_job,
  start_step, run_ready, visit, judged,
}

-- `r` is `sr` after the edges have decided: skipped where no edge matched, else no longer pending.
pub record Decides (rd : Readiness) (sr r : StepRun) : Type 0 where
  pub same_step : r.step_id ≡ sr.step_id
  pub started : is_pending r.status ≡ false
  pub not_blocked : rd ≡ blocked → ⊥
  pub skips : rd ≡ unmatched → r.status ≡ StepStatus.skipped

-- Something outside raises an exception that the tick does not catch.
pub data Escapes (env : Env) (s : Step) (rs : List StepRun) (e : Exc) : Type 0 where
  from_dispatch : env.dispatch s ≡ escapes e → Escapes env s rs e
  from_condition : env.condition s rs ≡ condition_escapes e → Escapes env s rs e
  from_alert : env.alert s ≡ delivery_escapes e → Escapes env s rs e
  from_webhook : env.webhook s ≡ delivery_escapes e → Escapes env s rs e

-- The round of `s` from `t`, with no reference to the type of the step.
pub data Visit (env : Env) (g : Graph) (s : Step) (t : Tick) : Progress → Type 0 where
  unchanged : Visit env g s t (go t)
  stopped :
      (e : Exc)
      → (lookup s.id t.runs ≡ none)
        ⊎ (readiness t.runs (incoming_edges g s.id) ≡ raised e)
        ⊎ Escapes env s t.runs e
        ⊎ ((t.expired ≡ true) × (e ≡ missing_greenlet))
      → Visit env g s t (halt e t)
  decided :
      (rd : Readiness) (sr r : StepRun) (t' : Tick)
      → lookup s.id t.runs ≡ some sr
      → is_pending sr.status ≡ true
      → readiness t.runs (incoming_edges g s.id) ≡ ok rd
      → Decides rd sr r
      → t'.runs ≡ put r t.runs
      → (t'.saved ≡ t.saved) ⊎ (t'.saved ≡ t.runs)
      → t'.expired ≡ t.expired
      → (t'.approval_blocked ≡ t.approval_blocked) ⊎ (r.status ≡ StepStatus.waiting_approval)
      → Visit env g s t (go t')
  rolled_back :
      (p sr r : StepRun) (t' : Tick)
      → env.dispatch s ≡ lost_race
      → lookup s.id t.runs ≡ some p
      → is_pending p.status ≡ true
      → lookup s.id t.saved ≡ some sr
      → r.step_id ≡ sr.step_id
      → r.status ≡ StepStatus.failed
      → t'.runs ≡ put r t.saved
      → t'.saved ≡ t.saved
      → t'.approval_blocked ≡ t.approval_blocked
      → Visit env g s t (go t')
  lost :
      (e : Exc) (t' : Tick)
      → env.dispatch s ≡ lost_race
      → lookup s.id t.saved ≡ none
      → t'.runs ≡ t.saved
      → t'.saved ≡ t.saved
      → Visit env g s t (halt e t')

module _ (env : Env) (g : Graph) (s : Step) (t : Tick) (sr : StepRun)
    (found : lookup s.id t.runs ≡ some sr) (waits : is_pending sr.status ≡ true) where
  module _ (edges : readiness t.runs (incoming_edges g s.id) ≡ ok ready) where
    simple :
        (r : StepRun)
        → r.step_id ≡ sr.step_id
        → is_pending r.status ≡ false
        → Visit env g s t (go (record t { runs = put r t.runs }))
    simple r e p =
        decided ready sr r _ found waits edges
          (record { same_step = e; started = p; not_blocked = λ x. cc; skips = λ x. cc }) refl
          (inl refl) refl (inl refl)

    saving :
        (r : StepRun)
        → r.step_id ≡ sr.step_id
        → is_pending r.status ≡ false
        → Visit env g s t (go (record t { runs = put r t.runs; saved = t.runs }))
    saving r e p =
        decided ready sr r _ found waits edges
          (record { same_step = e; started = p; not_blocked = λ x. cc; skips = λ x. cc }) refl
          (inr refl) refl (inl refl)

    escaping : (x : Exc) → Escapes env s t.runs x → Visit env g s t (halt x t)
    escaping x w = stopped x (inr (inr (inl w)))

    -- A branch that reads the run.
    reading :
        (p : Progress)
        → Visit env g s t p
        → Visit env g s t (if t.expired then halt missing_greenlet t else p)
    reading p v = elim (Bool-cases t.expired) [
      | inl x ↦ simp x (stopped missing_greenlet (inr (inr (inr (x, refl)))))
      | inr x ↦ simp x v
    ]

    refuse-Visit : Visit env g s t (refuse env s.id t)
    unfolding refuse is_pending
    refuse-Visit = rw (found, refuse) (simple (fail env sr _) refl refl)

    rollback-Visit :
        env.dispatch s ≡ lost_race
        → (o : Option StepRun) → lookup s.id t.saved ≡ o
        → Visit env g s t (refuse env s.id (record t { runs = t.saved; expired = true }))
    unfolding refuse is_pending
    rollback-Visit race none e = rw (e, refuse) (lost key_error _ race e refl refl)
    rollback-Visit race (some q) e =
        rw (e, refuse) (rolled_back sr q _ _ race found waits e refl refl refl refl refl)

    run_job-Visit : (d : Dispatch) → env.dispatch s ≡ d → Visit env g s t (run_job env s sr t)
    unfolding run_job is_pending
    run_job-Visit (job j) e = rw e (reading _ (saving _ refl refl))
    run_job-Visit refused e = rw e (reading _ refuse-Visit)
    run_job-Visit lost_race e = rw e (reading _ (rollback-Visit e (lookup s.id t.saved) refl))
    run_job-Visit (escapes x) e = rw e (reading _ (escaping x (Escapes.from_dispatch e)))

    end_status-started : is_pending (end_status s) ≡ false
    unfolding end_status is_pending
    end_status-started = ground arith

    judged-started : (b : Bool) → is_pending (judged env sr b).status ≡ false
    unfolding judged is_pending
    judged-started b = ground arith

    condition-Visit :
        (c : Condition) → env.condition s t.runs ≡ c → Visit env g s t (run_condition env s sr t)
    unfolding run_condition judged is_pending
    condition-Visit (evaluates b) e =
        rw e (reading _ (simple (judged env sr b) refl (judged-started b)))
    condition-Visit expression_error e = rw e (reading _ (simple _ refl refl))
    condition-Visit (condition_escapes x) e =
        rw e (reading _ (escaping x (Escapes.from_condition e)))

    wait-started :
        ((run_wait env s sr).step_id ≡ sr.step_id) × (is_pending (run_wait env s sr).status ≡ false)
    unfolding run_wait is_pending
    wait-started = ground arith

    webhook-Visit : (d : Delivery) → env.webhook s ≡ d → Visit env g s t (run_webhook env s sr t)
    unfolding run_webhook is_pending
    webhook-Visit delivered e = rw (e, run_webhook) (simple _ refl refl)
    webhook-Visit undelivered e = rw (e, run_webhook) (simple _ refl refl)
    webhook-Visit (delivery_escapes x) e = rw (e, run_webhook) (escaping x (Escapes.from_webhook e))

    notification-Visit :
        (d : Delivery) → env.alert s ≡ d → Visit env g s t (run_notification env s sr t)
    unfolding run_notification is_pending
    notification-Visit delivered e = rw e (reading _ (saving _ refl refl))
    notification-Visit undelivered e = rw e (reading _ (saving _ refl refl))
    notification-Visit (delivery_escapes x) e = rw e (reading _ (escaping x (Escapes.from_alert e)))

    -- A job cannot be told from the other branches by what it may do.
    start_step-Visit : (k : NodeType) → Visit env g s t (start_step k env s sr t)
    unfolding start_step is_pending
    start_step-Visit NodeType.start = simple _ refl refl
    start_step-Visit NodeType.end_node = simple _ refl end_status-started
    start_step-Visit NodeType.approval =
        decided ready sr (record sr { status = StepStatus.waiting_approval }) _ found waits edges
          (record { same_step = refl; started = refl; not_blocked = λ x. cc; skips = λ x. cc }) refl
          (inl refl) refl (inr refl)
    start_step-Visit NodeType.condition = condition-Visit (env.condition s t.runs) refl
    start_step-Visit NodeType.wait = simple _ wait-started.0 wait-started.1
    start_step-Visit NodeType.notification = notification-Visit (env.alert s) refl
    start_step-Visit NodeType.webhook = webhook-Visit (env.webhook s) refl
    start_step-Visit _ = run_job-Visit (env.dispatch s) refl

  skip_status :
      (rd : Readiness)
      → readiness t.runs (incoming_edges g s.id) ≡ ok rd
      → (rd ≡ blocked → ⊥)
      → Visit env g s t (go (record t { runs = put (finish env sr StepStatus.skipped) t.runs }))
  unfolding is_pending
  skip_status rd e nb =
      decided rd sr (finish env sr StepStatus.skipped) _ found waits e
        (record { same_step = refl; started = refl; not_blocked = nb; skips = λ x. refl }) refl
        (inl refl) refl (inl refl)

  run_ready-Visit :
      (rd : Readiness)
      → readiness t.runs (incoming_edges g s.id) ≡ ok rd
      → Visit env g s t (run_ready env s sr t rd)
  unfolding run_ready
  run_ready-Visit blocked e = unchanged
  run_ready-Visit unmatched e = skip_status unmatched e (λ x. cc)
  run_ready-Visit ready e = elim (Bool-cases s.disabled) [
    | inl off ↦ simp off (skip_status ready e (λ x. cc))
    | inr on ↦ simp on (start_step-Visit e (normalize_type s.node_type))
  ]

  decide-Visit :
      (r : Result Readiness)
      → readiness t.runs (incoming_edges g s.id) ≡ r
      → Visit env g s t (visit env g s t)
  unfolding visit
  decide-Visit (raised x) e = rw (found, visit) (rw waits (rw e (stopped x (inr (inl e)))))
  decide-Visit (ok rd) e = rw (found, visit) (rw waits (rw e (run_ready-Visit rd e)))

-- Every round is one of the five.
pub visit-Visit : (env : Env) (g : Graph) (s : Step) (t : Tick) → Visit env g s t (visit env g s t)
visit-Visit env g s t = elim (Option-cases (lookup s.id t.runs)) [
  | inl missing ↦ unfold visit in rw (missing, visit) (stopped key_error (inl missing))
  | inr (sr, found) ↦ elim (Bool-cases (is_pending sr.status)) [
    | inl waits ↦
        decide-Visit env g s t sr found waits (readiness t.runs (incoming_edges g s.id)) refl
    | inr past ↦ unfold visit in rw (found, visit) (rw past unchanged)
  ]
]
