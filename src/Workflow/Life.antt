-- ===== src/Workflow/Life.antt =====
-- The life of a run: `start_run` creates its rows, and from then on ticks, approvals, rejections and
-- cancellations follow one another in any order.
pub mod Ticks
pub mod Approvals
pub mod Sound
use lokilinux.Prelude.{
  ℕ, String, true, false, ◌≡◌, ◌≢◌, sym, Option, none, some, List, [], ◌∷◌, arith, Bool-cases, inl,
  inr, Memᴰ, str_eq, Option-cases, refl, eq_iff, ◌∙◌,
}
use lokilinux.Http.{done}
use lokilinux.Workflow.Types.{
  Step, Graph, StepStatus, StepRun, RunStatus, Run, lookup, is_pending, is_active, is_done,
}
use lokilinux.Workflow.Sync.{Env, lost_race}
use lokilinux.Workflow.Ready.Routing.{IsRouted, was_taken, DoneStay, MayStart-stay, SourceDone-stay}
use lokilinux.Workflow.Advance.{Outcome, advance_run, is_running_run}
use lokilinux.Workflow.Gates.{
  Version, Actor, is_over, is_waiting, approve_step, reject_step, cancel_run, Cancelled,
  approved_rows, cancelled_run,
}
use lokilinux.Workflow.Advance.Routing.{advance_run-IsRouted}
use lokilinux.Workflow.Advance.Verdict.{
  Agrees, advance_run-Agrees, advance_run_raises, advance_run_idle,
}
use lokilinux.Workflow.Runs.{step_id-lookup, lookup-put_ne}
use lokilinux.Workflow.Gates.Approve.{IsCleared, approve_step-clears}
use lokilinux.Workflow.Gates.Reject.{IsEnded, reject_step-ends}
use lokilinux.Workflow.Gates.Cancel.{cancel_run-closes, IsClosed}

-- The rows that `start_run` adds.
unfoldable pub start_rows : List Step → List StepRun
start_rows [] = []
start_rows (s ∷ ss) =
    record {
      step_id = s.id;
      status = StepStatus.pending;
      job_id = none;
      started_at = none;
      completed_at = none;
      error = none;
      output = none;
    }
    ∷ start_rows ss

-- The run that `start_run` adds.
unfoldable pub start : Option ℕ → Option String → List ℕ → Run
start triggered_by triggered_by_actor agent_ids = record {
  status = RunStatus.running;
  version_missing = false;
  completed_at = none;
  triggered_by = triggered_by;
  triggered_by_actor = triggered_by_actor;
  agent_ids = agent_ids;
}

-- In no dispatch of a tick the race for a job is lost.
abbrev pub NoRace : Env → Type 0
NoRace env = (s : Step) → env.dispatch s ≢ lost_race

-- The runs and rows that a version's run can come to.
pub data Life (v : Version) : Run → List StepRun → Type 0 where
  started :
      (by : Option ℕ) (actor : Option String) (agents : List ℕ)
      → Life v (start by actor agents) (start_rows v.graph.steps)
  ticked :
      {run : Run} {rs : List StepRun} (env : Env)
      → NoRace env
      → Life v run rs
      → Life v
          (advance_run env (some v.graph) run rs).run
          (advance_run env (some v.graph) run rs).runs
  approved :
      {run : Run} {rs : List StepRun} (env : Env) (id : String) (a : Actor) (o : Outcome)
      → NoRace env
      → Life v run rs
      → approve_step env (some v) run rs id a ≡ done o
      → Life v o.run o.runs
  rejected :
      {run : Run} {rs : List StepRun} (now : ℕ) (id : String) (o : Outcome)
      → Life v run rs
      → reject_step now run rs id ≡ done o
      → Life v o.run o.runs
  cancelled :
      {run : Run} {rs : List StepRun} (env : Env) (c : Cancelled)
      → Life v run rs
      → cancel_run env run rs ≡ done c
      → Life v c.outcome.run c.outcome.runs

-- A run that is not over has routed rows; one that is over has no row that waits for approval.
pub record IsSound (g : Graph) (run : Run) (rs : List StepRun) : Type 0 where
  pub routed : is_over run.status ≡ false → IsRouted g rs
  pub no_gate :
      is_over run.status ≡ true
      → (id : String) (q : StepRun) → lookup id rs ≡ some q
      → is_waiting q.status ≡ false
