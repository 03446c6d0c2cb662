-- ===== src/Workflow/Advance.antt =====
-- services/workflow_engine.py: `advance_run`, one tick of a run, and section 3 of it.
pub mod Stability
pub mod Verdict
pub mod Routing
pub mod Totality
use lokilinux.Prelude.{Bool, true, false, Option, none, some, List, if◌then◌else◌, any}
use lokilinux.Python.{Exc, ok, raised, Result}
use lokilinux.Workflow.Types.{Graph, StepRun, RunStatus, Run, is_active, is_failed}
use lokilinux.Workflow.Sync.{Env, sync_all}
use lokilinux.Workflow.Ready.{Tick, go, halt, visit_all, Progress}

-- What a tick leaves in the database, and the exception that it raised, if any.
pub record Outcome : Type 0 where
  pub run : Run
  pub runs : List StepRun
  pub exc : Option Exc

unfoldable pub is_running_run : RunStatus → Bool
is_running_run RunStatus.running = true
is_running_run _ = false

unfoldable pub any_active : List StepRun → Bool
any_active rs = any (λ (r : StepRun). is_active r.status) rs

unfoldable pub any_failed : List StepRun → Bool
any_failed rs = any (λ (r : StepRun). is_failed r.status) rs

-- Section 3, behind the early return of a blocked approval.
unfoldable pub settle : Env → Run → Tick → Run
unfolding any_active any_failed
settle env run t =
    if t.approval_blocked
    then record run { status = RunStatus.waiting_approval }
    else if any_active t.runs
    then run
    else record run {
      status = if any_failed t.runs then RunStatus.failed else RunStatus.succeeded;
      completed_at = some env.now;
    }

-- How the loop of section 2 ends the tick. An exception loses what was not saved.
unfoldable pub conclude : Env → Run → Progress → Outcome
unfolding settle
conclude env run (go t) = record { run = settle env run t; runs = t.runs; exc = none }
conclude env run (halt e t) = record { run = run; runs = t.saved; exc = some e }

-- The session behind section 1: its changes are not committed yet.
abbrev pub synced : List StepRun → List StepRun → Tick
synced old rs = record { runs = rs; saved = old; approval_blocked = false; expired = false }

-- Sections 2 and 3, or the exception of section 1.
unfoldable pub advance_steps : Env → Graph → Run → List StepRun → Result (List StepRun) → Outcome
unfolding conclude
advance_steps env g run old (raised e) = record { run = run; runs = old; exc = some e }
advance_steps env g run old (ok rs) = conclude env run (visit_all env g g.steps (synced old rs))

-- A version row that is gone.
unfoldable pub orphaned : Env → Run → Run
orphaned env run = record run {
  status = RunStatus.failed;
  version_missing = true;
  completed_at = some env.now;
}

-- `advance_run`; `none` stands for a version row that is gone.
unfoldable pub advance_run : Env → Option Graph → Run → List StepRun → Outcome
unfolding advance_steps is_running_run orphaned
advance_run env og run rs =
    if is_running_run run.status
    then elim og [
      | none ↦ record { run = orphaned env run; runs = rs; exc = none }
      | some g ↦ advance_steps env g run rs (sync_all env g run.agent_ids rs)
    ]
    else record { run = run; runs = rs; exc = none }
