-- ===== src/Workflow/Advance/Stability.antt =====
-- A tick never reopens a step run: succeeded, failed, skipped and cancelled rows stay as they are.
use lokilinux.Prelude.{
  String, false, ◌≡◌, refl, Option, none, some, List, arith, Bool-cases, inl, inr,
}
use lokilinux.Python.{Result, ok, raised}
use lokilinux.Workflow.Types.{StepRun, Graph, Run, lookup, is_pending, is_active}
use lokilinux.Workflow.Sync.{Env, sync_all, is_running}
use lokilinux.Workflow.Sync.Laws.{sync_all-Synced, lookup-Synced, pending-Synced, Synced}
use lokilinux.Workflow.Ready.{Progress, go, halt, visit_all}
use lokilinux.Workflow.Ready.Stability.{visit_all_induction, visit-Has, Holds, IsFresh, Has}
use lokilinux.Workflow.Advance.{advance_steps, advance_run, conclude, synced, is_running_run}

final-idle :
    (q : StepRun)
    → is_active q.status ≡ false
    → (is_running q.status ≡ false) × (is_pending q.status ≡ false)
unfolding is_active is_running is_pending
final-idle q h = ground arith

module _ (env : Env) (g : Graph) (run : Run) (rs : List StepRun) (id : String) (q : StepRun)
    (there : lookup id rs ≡ some q) (final : is_active q.status ≡ false) where
  loop-Has :
      (rs' : List StepRun)
      → Synced rs rs'
      → Holds (λ t. IsFresh t × Has id q t) (visit_all env g g.steps (synced rs rs'))
  loop-Has rs' s =
      visit_all_induction (λ t. IsFresh t × Has id q t) env g
        (λ st t h. visit-Has id q (final-idle q final).1 env g st t h) g.steps _
        (
          λ j p h w. pending-Synced j p s h w,
          (lookup-Synced id q s there (final-idle q final).0, there),
        )

  conclude-keeps :
      (p : Progress)
      → Holds (λ t. IsFresh t × Has id q t) p
      → lookup id (conclude env run p).runs ≡ some q
  unfolding conclude
  conclude-keeps (go t) (fresh, has) = has.0
  conclude-keeps (halt e t) (fresh, has) = has.1

  steps-keep :
      (r : Result (List StepRun))
      → sync_all env g run.agent_ids rs ≡ r
      → lookup id (advance_steps env g run rs r).runs ≡ some q
  unfolding advance_steps
  steps-keep (raised e) h = there
  steps-keep (ok rs') h =
      conclude-keeps (visit_all env g g.steps _)
        (loop-Has rs' (sync_all-Synced env g run.agent_ids rs rs' h))

-- Whatever a tick does, a step run that was succeeded, failed, skipped or cancelled before it is the
-- same row after it: status, job, times, error and output. This holds also where the tick raises,
-- where the graph is gone, and where a lost race rolls the session back.
pub advance_run-keeps_final :
    (env : Env) (og : Option Graph) (run : Run) (rs : List StepRun) (id : String) (q : StepRun)
    → lookup id rs ≡ some q
    → is_active q.status ≡ false
    → lookup id (advance_run env og run rs).runs ≡ some q
unfolding advance_run
advance_run-keeps_final env none run rs id q there final = ground arith
advance_run-keeps_final env (some g) run rs id q there final =
    elim (Bool-cases (is_running_run run.status)) [
      | inl runs ↦
          simp runs
            (steps-keep env g run rs id q there final (sync_all env g run.agent_ids rs) refl)
      | inr idle ↦ simp idle there
    ]
