-- ===== src/Workflow/Ready/Routing.antt =====
-- The loop starts a step only where the edges into it allow it.
use lokilinux.Prelude.{
  String, Bool, true, false, ◌≡◌, ◌≢◌, sym, ◌∙◌, some, List, [], ◌⊎◌, inl, inr, Memᴰ, Bool-cases,
  arith, str_eq, eq_iff,
}
use lokilinux.Python.{ok}
use lokilinux.Workflow.Types.{
  Edge, Step, Graph, StepStatus, StepRun, lookup, put, is_done, is_pending,
}
use lokilinux.Workflow.Runs.{step_id-lookup, lookup-put_self, lookup-put_ne}
use lokilinux.Workflow.Sync.{Env, lost_race}
use lokilinux.Workflow.Ready.{
  Tick, Progress, visit, incoming_edges, Readiness, blocked, unmatched, readiness,
}
use lokilinux.Workflow.Ready.Visits.{
  Visit, unchanged, stopped, decided, rolled_back, lost, Decides, visit-Visit,
}
use lokilinux.Workflow.Ready.Stability.{Holds, put_keeps}
use lokilinux.Workflow.Ready.Edges.{
  SourceDone, Matches, mem-incoming_edges, of_mem-incoming_edges, readiness-Seen,
}

-- Neither skipped nor cancelled: the step was carried out, or is being.
unfoldable pub was_taken : StepStatus → Bool
was_taken StepStatus.skipped = false
was_taken StepStatus.cancelled = false
was_taken StepStatus.pending = false
was_taken _ = true

-- The edges into `id` let the step start: there is none, or one whose source ended as it asks.
abbrev pub MayStart : Graph → String → List StepRun → Type 0
MayStart g id rs =
    ((e : Edge) → Memᴰ e g.edges → e.target ≡ id → ⊥)
    ⊎ ((e : Edge) × Memᴰ e g.edges × (e.target ≡ id) × Matches rs e)

-- The rows of a run respect the edges: behind every row that is no longer pending all predecessors
-- have ended, and a step was taken only where an edge let it start.
pub record IsRouted (g : Graph) (rs : List StepRun) : Type 0 where
  pub preds :
      (id : String) (q : StepRun)
      → lookup id rs ≡ some q
      → is_pending q.status ≡ false
      → (e : Edge) → Memᴰ e g.edges
      → e.target ≡ id
      → SourceDone rs e
  pub route :
      (id : String) (q : StepRun)
      → lookup id rs ≡ some q
      → was_taken q.status ≡ true
      → MayStart g id rs

-- Rows that are done stay where the other list has them too.
abbrev pub DoneStay : List StepRun → List StepRun → Type 0
DoneStay rs rs' =
    (id : String) (p : StepRun)
    → lookup id rs ≡ some p
    → is_done p.status ≡ true
    → lookup id rs' ≡ some p

pub MayStart-stay :
    (g : Graph) (id : String) (rs rs' : List StepRun)
    → DoneStay rs rs'
    → MayStart g id rs
    → MayStart g id rs'
MayStart-stay g id rs rs' stay (inl h) = inl h
MayStart-stay g id rs rs' stay (inr (e, m, t, (p, found, done, label))) =
    inr (e, m, t, (p, stay e.source p found done, done, label))

pub SourceDone-stay :
    (rs rs' : List StepRun) (e : Edge) → DoneStay rs rs' → SourceDone rs e → SourceDone rs' e
SourceDone-stay rs rs' e stay (p, found, done) = (p, stay e.source p found done, done)

readiness-routes :
    (g : Graph) (id : String) (rs : List StepRun) (rd : Readiness)
    → readiness rs (incoming_edges g id) ≡ ok rd
    → rd ≢ blocked
    → ((e : Edge) → Memᴰ e g.edges → e.target ≡ id → SourceDone rs e)
      × (rd ≢ unmatched → MayStart g id rs)
readiness-routes g id rs rd h nb =
    let (all_done, matched) = readiness-Seen rs (incoming_edges g id) rd h nb in
    (λ e m t. all_done e (mem-incoming_edges g id e m t), λ nu. found (matched nu))
  where
    found :
        (incoming_edges g id ≡ []) ⊎ ((e : Edge) × Memᴰ e (incoming_edges g id) × Matches rs e)
        → MayStart g id rs
    found (inl e) = inl (λ x m t. none_in (rw e at (mem-incoming_edges g id x m t)))
      where
        none_in : {x : Edge} → Memᴰ x [] → ⊥
        none_in m = elim m [ ]
    found (inr (e, m, k)) = let (m', t) = of_mem-incoming_edges g id e m in inr (e, m', t, k)

-- A row that is decided on replaces a pending one, and the rows stay routed.
module _ (g : Graph) (rs : List StepRun) (sr r : StepRun) (rd : Readiness)
    (found : lookup sr.step_id rs ≡ some sr) (waits : is_pending sr.status ≡ true)
    (edges : readiness rs (incoming_edges g sr.step_id) ≡ ok rd) (d : Decides rd sr r) where
  put-DoneStay : DoneStay rs (put r rs)
  unfolding is_done is_pending
  put-DoneStay id p there done = put_keeps r sr p id rs found d.same_step waits there (ground arith)

  module _ (id : String) (q : StepRun) (there : lookup id (put r rs) ≡ some q) where
    -- Another row was there before.
    before : str_eq r.step_id id ≡ false → lookup id rs ≡ some q
    before other = sym (lookup-put_ne r id rs (λ e. cc ((eq_iff r.step_id id).1 e))) ∙ there

    -- The new row is `r`.
    is_new : r.step_id ≡ id → q ≡ r
    is_new e = cc (lookup-put_self r sr rs (let k : r.step_id ≡ sr.step_id = d.same_step in cc))

    preds-put :
        IsRouted g rs
        → is_pending q.status ≡ false
        → (e : Edge) → Memᴰ e g.edges
        → e.target ≡ id
        → SourceDone (put r rs) e
    preds-put h past e m t = elim (Bool-cases (str_eq r.step_id id)) [
      | inl same ↦
          let k : r.step_id ≡ id = (eq_iff r.step_id id).0 same in
          SourceDone-stay rs (put r rs) e put-DoneStay (
            (readiness-routes g sr.step_id rs rd edges d.not_blocked).0 e m
              (t ∙ sym k ∙ d.same_step))
      | inr other ↦
          SourceDone-stay rs (put r rs) e put-DoneStay (h.preds id q (before other) past e m t)
    ]

    route-put : IsRouted g rs → was_taken q.status ≡ true → MayStart g id (put r rs)
    unfolding was_taken
    route-put h taken = elim (Bool-cases (str_eq r.step_id id)) [
      | inl same ↦
          let k : r.step_id ≡ id = (eq_iff r.step_id id).0 same in
          let n : q ≡ r = is_new k in
          rw (sym k ∙ d.same_step) (
            MayStart-stay g sr.step_id rs (put r rs) put-DoneStay (
              (readiness-routes g sr.step_id rs rd edges d.not_blocked).1 (λ u. cc (n, d.skips u))))
      | inr other ↦
          MayStart-stay g id rs (put r rs) put-DoneStay (h.route id q (before other) taken)
    ]

  pub put-IsRouted : IsRouted g rs → IsRouted g (put r rs)
  put-IsRouted h = record {
    preds = λ id q there past. preds-put id q there h past;
    route = λ id q there taken. route-put id q there h taken;
  }

-- The session with both its lists of rows routed.
abbrev pub Routed : Graph → Tick → Type 0
Routed g t = IsRouted g t.runs × IsRouted g t.saved

-- One round keeps the rows routed, unless it loses the race for a job.
pub visit-Routed :
    (env : Env) (g : Graph) (s : Step) (t : Tick)
    → env.dispatch s ≢ lost_race
    → Routed g t
    → Holds (Routed g) (visit env g s t)
visit-Routed env g s t safe h = round (visit-Visit env g s t)
  where
    round : {p : Progress} → Visit env g s t p → Holds (Routed g) p
    round unchanged = h
    round (stopped e why) = h
    round (decided rd sr r t' found waits edges d runs saved kept flag) = (rw runs new, was saved)
      where
        same : sr.step_id ≡ s.id
        same = step_id-lookup s.id t.runs sr found

        new : IsRouted g (put r t.runs)
        new = put-IsRouted g t.runs sr r rd (cc same) waits (simp same edges) d h.0

        was : (t'.saved ≡ t.saved) ⊎ (t'.saved ≡ t.runs) → IsRouted g t'.saved
        was (inl e) = rw e h.1
        was (inr e) = rw e h.0
    round (rolled_back p sr r t' race found waits there same status runs saved flag) =
        absurd (safe race)
    round (lost e t' race gone runs saved) = absurd (safe race)
