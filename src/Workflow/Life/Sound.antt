-- ===== src/Workflow/Life/Sound.antt =====
-- Every run that comes about is sound.
use lokilinux.Prelude.{ℕ, String, false, ◌≡◌, some, List, Bool-cases, inl, inr}
use lokilinux.Http.{done}
use lokilinux.Workflow.Types.{StepRun, RunStatus, Run, lookup}
use lokilinux.Workflow.Sync.{Env}
use lokilinux.Workflow.Advance.{Outcome}
use lokilinux.Workflow.Gates.{
  Version, Actor, is_over, is_waiting, approve_step, reject_step, cancel_run, Cancelled,
  approved_rows, cancelled_run,
}
use lokilinux.Workflow.Runs.{step_id-lookup}
use lokilinux.Workflow.Gates.Approve.{IsCleared, approve_step-clears}
use lokilinux.Workflow.Gates.Reject.{IsEnded, reject_step-ends}
use lokilinux.Workflow.Gates.Cancel.{cancel_run-closes, IsClosed}
use lokilinux.Workflow.Life.{NoRace, Life, started, ticked, approved, rejected, cancelled, IsSound}
use lokilinux.Workflow.Life.Ticks.{start-IsSound, tick-IsSound, inactive-ungated}
use lokilinux.Workflow.Life.Approvals.{approved-IsRouted}

module _ (v : Version) where
  approve-IsSound :
      (env : Env) (run : Run) (rs : List StepRun) (id : String) (a : Actor) (o : Outcome)
      → NoRace env
      → IsSound v.graph run rs
      → approve_step env (some v) run rs id a ≡ done o
      → IsSound v.graph o.run o.runs
  unfolding is_waiting is_over
  approve-IsSound env run rs id a o safe h e =
      rw (clear.advanced) (tick-IsSound env v.graph _ _ safe resumed)
    where
      clear : IsCleared env (some v) run rs id a o
      clear = approve_step-clears env (some v) run rs id a o e

      here : lookup clear.row.step_id rs ≡ some clear.row
      here = cc (step_id-lookup id rs clear.row clear.there, clear.there)

      open_run : is_over run.status ≡ false
      open_run = elim (Bool-cases (is_over run.status)) [
        | inl over ↦ cc (h.no_gate over id clear.row clear.there, clear.waited)
        | inr fine ↦ fine
      ]

      resumed :
          IsSound v.graph
            (record run { status = RunStatus.running })
            (approved_rows env.now clear.row rs)
      resumed = record {
        routed = λ k.
            approved-IsRouted v.graph env.now clear.row rs here clear.waited (h.routed open_run);
        no_gate = λ k. cc;
      }

  reject-IsSound :
      (run : Run) (rs : List StepRun) (now : ℕ) (id : String) (o : Outcome)
      → reject_step now run rs id ≡ done o
      → IsSound v.graph o.run o.runs
  unfolding is_over
  reject-IsSound run rs now id o e =
      let ended : IsEnded rs id o = reject_step-ends now run rs id o e in
      record {
        routed = λ k. cc (ended.failed);
        no_gate = λ k j q there. (ended.no_gate j q there).1;
      }

  closed-IsSound : (rs : List StepRun) (o : Outcome) → IsClosed rs o → IsSound v.graph o.run o.runs
  unfolding is_over
  closed-IsSound rs o closed = record {
    routed = λ k. cc (closed.cancelled);
    no_gate = λ k j q there. inactive-ungated q.status (closed.ended j q there);
  }

  cancel-IsSound :
      (env : Env) (run : Run) (rs : List StepRun) (c : Cancelled)
      → cancel_run env run rs ≡ done c
      → IsSound v.graph c.outcome.run c.outcome.runs
  cancel-IsSound env run rs c e =
      let (refused, passed, closed, jobs) = cancel_run-closes env run rs in
      elim (Bool-cases (is_over run.status)) [
        | inl over ↦ cc (refused over, e)
        | inr fine ↦
            let k : cancelled_run env run rs ≡ c = cc (passed fine, e) in
            rw (← k) (closed-IsSound rs (cancelled_run env run rs).outcome closed)
      ]

  -- Every run that comes about is sound: while it is not over, behind each row that is no longer
  -- pending all predecessors have ended, and each step that was neither skipped nor cancelled had no
  -- edge into it or one that let it start; and once it is over no row waits for an approval.
  pub Life-IsSound : {run : Run} {rs : List StepRun} → Life v run rs → IsSound v.graph run rs
  Life-IsSound (started by actor agents) = start-IsSound v.graph by actor agents
  Life-IsSound (ticked {run = run} {rs = rs} env safe l) =
      tick-IsSound env v.graph run rs safe (Life-IsSound l)
  Life-IsSound (approved {run = run} {rs = rs} env id a o safe l e) =
      approve-IsSound env run rs id a o safe (Life-IsSound l) e
  Life-IsSound (rejected {run = run} {rs = rs} now id o l e) = reject-IsSound run rs now id o e
  Life-IsSound (cancelled {run = run} {rs = rs} env c l e) = cancel-IsSound env run rs c e
