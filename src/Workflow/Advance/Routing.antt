-- ===== src/Workflow/Advance/Routing.antt =====
-- A tick keeps the rows of a run routed.
use lokilinux.Prelude.{true, false, ◌≡◌, ◌≢◌, refl, some, List, arith, Bool-cases, inl, inr}
use lokilinux.Python.{Result, ok, raised}
use lokilinux.Workflow.Types.{Step, StepRun, Graph, Run, is_pending, is_done}
use lokilinux.Workflow.Sync.{Env, sync_all, is_running, lost_race}
use lokilinux.Workflow.Sync.Laws.{Syncs, sync_all-Synced, lookup-Synced, from-Synced, Synced}
use lokilinux.Workflow.Ready.{Progress, go, halt, visit_all}
use lokilinux.Workflow.Ready.Stability.{visit_all_induction, Holds}
use lokilinux.Workflow.Ready.Routing.{
  IsRouted, Routed, MayStart-stay, SourceDone-stay, DoneStay, visit-Routed, was_taken,
}
use lokilinux.Workflow.Advance.{advance_steps, advance_run, conclude, is_running_run, synced}

module _ (g : Graph) {rs rs' : List StepRun} (s : Synced rs rs') where
  synced-DoneStay : DoneStay rs rs'
  unfolding is_done is_running
  synced-DoneStay id p found done = lookup-Synced id p s found (ground arith)

  -- What section 1 leaves not pending was not pending; what it leaves taken was taken.
  was_past : (p q : StepRun) → Syncs p q → is_pending q.status ≡ false → is_pending p.status ≡ false
  unfolding is_pending is_running
  was_past p q d h = elim (Bool-cases (is_running p.status)) [
    | inl run ↦ ground arith
    | inr idle ↦ ground (arith, d.idle idle)
  ]

  taken_before : (p q : StepRun) → Syncs p q → was_taken q.status ≡ true → was_taken p.status ≡ true
  unfolding was_taken is_running
  taken_before p q d h = elim (Bool-cases (is_running p.status)) [
    | inl run ↦ ground arith
    | inr idle ↦ ground (arith, d.idle idle)
  ]

  synced-IsRouted : IsRouted g rs → IsRouted g rs'
  synced-IsRouted h = record {
    preds = λ id q found past e m t.
        let (p, was, d) = from-Synced id q s found in
        SourceDone-stay rs rs' e synced-DoneStay (h.preds id p was (was_past p q d past) e m t);
    route = λ id q found taken.
        let (p, was, d) = from-Synced id q s found in
        MayStart-stay g id rs rs' synced-DoneStay (h.route id p was (taken_before p q d taken));
  }

module _ (env : Env) (g : Graph) (run : Run) (rs : List StepRun)
    (safe : (s : Step) → env.dispatch s ≢ lost_race) (h : IsRouted g rs) where
  conclude-IsRouted : (p : Progress) → Holds (Routed g) p → IsRouted g (conclude env run p).runs
  unfolding conclude
  conclude-IsRouted (go t) k = k.0
  conclude-IsRouted (halt e t) k = k.1

  steps-IsRouted :
      (r : Result (List StepRun))
      → sync_all env g run.agent_ids rs ≡ r
      → IsRouted g (advance_steps env g run rs r).runs
  unfolding advance_steps
  steps-IsRouted (raised e) k = h
  steps-IsRouted (ok rs') k = conclude-IsRouted (visit_all env g g.steps (synced rs rs')) (
      visit_all_induction (Routed g) env g (λ s t i. visit-Routed env g s t (safe s) i) g.steps _
        (synced-IsRouted g (sync_all-Synced env g run.agent_ids rs rs' k) h, h))

  -- Where no dispatch of the tick loses the race for a job, a tick keeps the rows routed: behind
  -- every row that is no longer pending all predecessors have ended as succeeded, failed or skipped,
  -- and behind every row that was neither skipped nor cancelled, either no edge comes in or the
  -- source of one edge ended in the way its label asks for. This holds also where the tick raises.
  pub advance_run-IsRouted : IsRouted g (advance_run env (some g) run rs).runs
  unfolding advance_run
  advance_run-IsRouted = elim (Bool-cases (is_running_run run.status)) [
    | inl runs ↦ simp runs (steps-IsRouted (sync_all env g run.agent_ids rs) refl)
    | inr idle ↦ simp idle h
  ]
