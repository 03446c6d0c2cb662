-- ===== src/Workflow/Advance/Verdict.antt =====
-- What the status of a run says of its steps after a tick.
use lokilinux.Prelude.{true, false, ◌≡◌, none, some, List, Memᴰ, any-false, any-true, arith, Option}
use lokilinux.Python.{Result, ok, raised, Exc}
use lokilinux.Workflow.Types.{StepRun, Graph, Run, RunStatus, is_active, is_failed}
use lokilinux.Workflow.Sync.{Env, sync_all}
use lokilinux.Workflow.Ready.{Tick, Progress, go, halt, visit_all}
use lokilinux.Workflow.Advance.{
  Outcome, settle, any_active, any_failed, conclude, advance_steps, advance_run, is_running_run,
}

-- The status of the run and the rows agree: a run that succeeded has only rows that ended, none of
-- them failed; a run that failed has only rows that ended, one of them failed; a run that goes on has
-- a row that is pending, running or waiting; and the run is not cancelled.
pub record Agrees (o : Outcome) : Type 0 where
  pub on_success :
      o.run.status ≡ RunStatus.succeeded
      → (q : StepRun) → Memᴰ q o.runs
      → (is_active q.status ≡ false) × (is_failed q.status ≡ false)
  pub on_failure :
      o.run.status ≡ RunStatus.failed
      → ((q : StepRun) → Memᴰ q o.runs → is_active q.status ≡ false)
        × ((q : StepRun) × Memᴰ q o.runs × (is_failed q.status ≡ true))
  pub on_running :
      o.run.status ≡ RunStatus.running → (q : StepRun) × Memᴰ q o.runs × (is_active q.status ≡ true)
  pub not_cancelled : o.run.status ≡ RunStatus.cancelled → ⊥

settle-Agrees :
    (env : Env) (run : Run) (t : Tick)
    → is_running_run run.status ≡ true
    → Agrees (record { run = settle env run t; runs = t.runs; exc = none })
unfolding settle any_active any_failed is_running_run
settle-Agrees env run t h = record {
  on_success = λ e q m. ground (
    arith,
    any-false (λ (r : StepRun). is_active r.status) t.runs q,
    any-false (λ (r : StepRun). is_failed r.status) t.runs q,
  );
  on_failure = λ e. (
    λ q m. ground (arith, any-false (λ (r : StepRun). is_active r.status) t.runs q),
    any-true (λ (r : StepRun). is_failed r.status) t.runs (ground arith),
  );
  on_running = λ e. any-true (λ (r : StepRun). is_active r.status) t.runs (ground arith);
  not_cancelled = λ e. ground arith;
}

module _ (env : Env) (g : Graph) (run : Run) (rs : List StepRun)
    (runs : is_running_run run.status ≡ true) where
  conclude-Agrees : (p : Progress) → (conclude env run p).exc ≡ none → Agrees (conclude env run p)
  unfolding conclude
  conclude-Agrees (go t) e = settle-Agrees env run t runs
  conclude-Agrees (halt x t) e = cc

  steps-Agrees :
      (r : Result (List StepRun))
      → (advance_steps env g run rs r).exc ≡ none
      → Agrees (advance_steps env g run rs r)
  unfolding advance_steps
  steps-Agrees (raised x) e = cc
  steps-Agrees (ok rs') e = conclude-Agrees (visit_all env g g.steps _) e

  -- After a tick that raises nothing, the status of the run and its step runs agree, in the sense of
  -- `Agrees`: the run has succeeded only if no row is pending, running or waiting and none failed,
  -- has failed only if all rows have ended and one failed, and is running only if one has not ended.
  pub advance_run-Agrees :
      (advance_run env (some g) run rs).exc ≡ none → Agrees (advance_run env (some g) run rs)
  unfolding advance_run
  advance_run-Agrees = simp runs (steps-Agrees (sync_all env g run.agent_ids rs))

-- A tick that raises leaves the run as it is.
pub advance_run_raises :
    (env : Env) (og : Option Graph) (run : Run) (rs : List StepRun) (e : Exc)
    → (advance_run env og run rs).exc ≡ some e
    → (advance_run env og run rs).run ≡ run
unfolding advance_run advance_steps conclude
advance_run_raises env og run rs e h = ground arith

-- A run that is not running is left alone.
pub advance_run_idle :
    (env : Env) (og : Option Graph) (run : Run) (rs : List StepRun)
    → is_running_run run.status ≡ false
    → advance_run env og run rs ≡ record { run = run; runs = rs; exc = none }
unfolding advance_run
advance_run_idle env og run rs h = simp h
