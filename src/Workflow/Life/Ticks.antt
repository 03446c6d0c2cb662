-- ===== src/Workflow/Life/Ticks.antt =====
-- The start of a run is sound, and a tick keeps it so.
use lokilinux.Prelude.{
  ℕ, String, true, false, ◌≡◌, sym, Option, some, List, [], ◌∷◌, arith, Bool-cases, inl, inr, Memᴰ,
  str_eq, Option-cases, refl,
}
use lokilinux.Workflow.Types.{
  Step, Graph, StepStatus, StepRun, RunStatus, Run, lookup, is_pending, is_active,
}
use lokilinux.Workflow.Sync.{Env}
use lokilinux.Workflow.Ready.Routing.{was_taken}
use lokilinux.Workflow.Advance.{Outcome, advance_run, is_running_run}
use lokilinux.Workflow.Gates.{is_over, is_waiting}
use lokilinux.Workflow.Advance.Routing.{advance_run-IsRouted}
use lokilinux.Workflow.Advance.Verdict.{
  Agrees, advance_run-Agrees, advance_run_raises, advance_run_idle,
}
use lokilinux.Workflow.Life.{start_rows, start, NoRace, IsSound}

start_rows-pending :
    (ss : List Step) (id : String) (q : StepRun)
    → lookup id (start_rows ss) ≡ some q
    → q.status ≡ StepStatus.pending
unfolding start_rows lookup
start_rows-pending [] id q h = cc
start_rows-pending (s ∷ ss) id q h = ground (arith, start_rows-pending ss id q)

pub start-IsSound :
    (g : Graph) (by : Option ℕ) (actor : Option String) (agents : List ℕ)
    → IsSound g (start by actor agents) (start_rows g.steps)
unfolding start is_pending was_taken is_waiting is_over
start-IsSound g by actor agents = record {
  routed = λ h. record {
    preds = λ id q there past e m t.
        let k : q.status ≡ StepStatus.pending = start_rows-pending g.steps id q there in cc k;
    route = λ id q there taken.
        let k : q.status ≡ StepStatus.pending = start_rows-pending g.steps id q there in cc k;
  };
  no_gate = λ h. cc;
}

Memᴰ-lookup : (id : String) (rs : List StepRun) (q : StepRun) → lookup id rs ≡ some q → Memᴰ q rs
unfolding lookup
Memᴰ-lookup id [] q h = cc
Memᴰ-lookup id (r ∷ rs) q h = elim (Bool-cases (str_eq r.step_id id)) [
  | inl here ↦ let e : r ≡ q = ground arith in Memᴰ.head (sym e)
  | inr later ↦ Memᴰ.tail (Memᴰ-lookup id rs q (rw later at h))
]

running-live : (s : RunStatus) → is_running_run s ≡ true → is_over s ≡ false
unfolding is_over is_running_run
running-live s k = ground arith

over-idle : (s : RunStatus) → is_over s ≡ true → is_running_run s ≡ false
unfolding is_over is_running_run
over-idle s h = ground arith

idle-waiting :
    (s : RunStatus) → is_running_run s ≡ false → is_over s ≡ false → s ≡ RunStatus.waiting_approval
unfolding is_over is_running_run
idle-waiting s h k = ground arith

pub inactive-ungated : (s : StepStatus) → is_active s ≡ false → is_waiting s ≡ false
unfolding is_active is_waiting
inactive-ungated s h = ground arith

-- Where the status and the rows agree, a run that is over has no row that waits.
Agrees-no_gate :
    (o : Outcome)
    → Agrees o
    → is_over o.run.status ≡ true
    → (id : String) (q : StepRun) → lookup id o.runs ≡ some q
    → is_waiting q.status ≡ false
unfolding is_over
Agrees-no_gate o a over id q there = by_status o.run.status refl over
  where
    m : Memᴰ q o.runs
    m = Memᴰ-lookup id o.runs q there

    by_status : (s : RunStatus) → o.run.status ≡ s → is_over s ≡ true → is_waiting q.status ≡ false
    by_status RunStatus.succeeded e h = inactive-ungated q.status (a.on_success e q m).0
    by_status RunStatus.failed e h = inactive-ungated q.status ((a.on_failure e).0 q m)
    by_status RunStatus.cancelled e h = absurd (a.not_cancelled e)
    by_status RunStatus.running e h = cc
    by_status RunStatus.waiting_approval e h = cc

tick-no_gate :
    (env : Env) (g : Graph) (run : Run) (rs : List StepRun)
    → is_running_run run.status ≡ true
    → let o = advance_run env (some g) run rs in
      is_over o.run.status ≡ true
      → (id : String) (q : StepRun) → lookup id o.runs ≡ some q
      → is_waiting q.status ≡ false
tick-no_gate env g run rs runs over id q there =
    elim (Option-cases (advance_run env (some g) run rs).exc) [
      | inl none_raised ↦
          Agrees-no_gate (advance_run env (some g) run rs)
            (advance_run-Agrees env g run rs runs none_raised) over id q there
      | inr (e, raises) ↦
          let same : (advance_run env (some g) run rs).run ≡ run =
            advance_run_raises env (some g) run rs e raises in
          let clash : is_over run.status ≡ true = rw same at over in cc (over-idle run.status clash)
    ]

pub tick-IsSound :
    (env : Env) (g : Graph) (run : Run) (rs : List StepRun)
    → NoRace env
    → IsSound g run rs
    → IsSound g (advance_run env (some g) run rs).run (advance_run env (some g) run rs).runs
tick-IsSound env g run rs safe h = elim (Bool-cases (is_running_run run.status)) [
  | inl runs ↦ record {
    routed = λ n. advance_run-IsRouted env g run rs safe (h.routed (running-live run.status runs));
    no_gate = tick-no_gate env g run rs runs;
  }
  | inr idle ↦ rw (advance_run_idle env (some g) run rs idle) h
]
