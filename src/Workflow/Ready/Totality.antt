-- ===== src/Workflow/Ready/Totality.antt =====
-- The loop, where every step and every edge source has its row, raises nothing but the exception of
-- a read of the run that a lost race has expired.
use lokilinux.Prelude.{
  if◌then◌else◌, any, String, Bool, true, false, ◌≡◌, refl, ◌∙◌, none, some, List, [], ◌∷◌, ◌⊎◌,
  inl, inr, Memᴰ, Bool-cases, str_eq, eq_iff,
}
use lokilinux.Python.{Exc, missing_greenlet, ok, raised}
use lokilinux.Workflow.Types.{Edge, Step, Graph, StepRun, lookup, put, is_done}
use lokilinux.Workflow.Runs.{lookup-put_self, lookup-put_ne, step_id-lookup}
use lokilinux.Workflow.Sync.{Env, lost_race}
use lokilinux.Workflow.Ready.{
  edge_matches, ready, unmatched, blocked, Tick, Progress, go, halt, visit, visit_all,
  incoming_edges, preds_terminal, readiness, Readiness,
}
use lokilinux.Workflow.Ready.Visits.{
  Visit, unchanged, stopped, decided, rolled_back, lost, visit-Visit, Escapes,
}
use lokilinux.Workflow.Ready.Edges.{of_mem-incoming_edges}

-- There is a row of that id.
abbrev pub HasRow : List StepRun → String → Type 0
HasRow rs id = (r : StepRun) × (lookup id rs ≡ some r)

-- Every step of the graph and the source of every edge has its row.
pub record IsCovered (g : Graph) (rs : List StepRun) : Type 0 where
  pub steps : (s : Step) → Memᴰ s g.steps → HasRow rs s.id
  pub sources : (e : Edge) → Memᴰ e g.edges → HasRow rs e.source

-- No row is lost between two lists.
abbrev pub RowsStay : List StepRun → List StepRun → Type 0
RowsStay rs rs' = (id : String) → HasRow rs id → HasRow rs' id

pub IsCovered-stay :
    (g : Graph) (rs rs' : List StepRun) → RowsStay rs rs' → IsCovered g rs → IsCovered g rs'
IsCovered-stay g rs rs' stay c = record {
  steps = λ s m. stay s.id (c.steps s m);
  sources = λ e m. stay e.source (c.sources e m);
}

put-RowsStay :
    (r p : StepRun) (rs : List StepRun) → lookup r.step_id rs ≡ some p → RowsStay rs (put r rs)
put-RowsStay r p rs found id (q, there) = elim (Bool-cases (str_eq r.step_id id)) [
  | inl same ↦
      let e : r.step_id ≡ id = (eq_iff r.step_id id).0 same in
      (r, cc (lookup-put_self r p rs found))
  | inr other ↦ (q, lookup-put_ne r id rs (λ e. cc ((eq_iff r.step_id id).1 e)) ∙ there)
]

preds_terminal-ok :
    (rs : List StepRun) (es : List Edge)
    → ((e : Edge) → Memᴰ e es → HasRow rs e.source)
    → (b : Bool) × (preds_terminal rs es ≡ ok b)
unfolding preds_terminal
preds_terminal-ok rs [] h = (true, refl)
preds_terminal-ok rs (x ∷ xs) h =
    let (p, found) = h x (Memᴰ.head refl) in
    let (b, e) = preds_terminal-ok rs xs (λ y m. h y (Memᴰ.tail m)) in
    elim (Bool-cases (is_done p.status)) [
      | inl d ↦ (b, rw (found, preds_terminal) (rw d e))
      | inr d ↦ (false, rw (found, preds_terminal) (rw d))
    ]

readiness-ok :
    (rs : List StepRun) (es : List Edge)
    → ((e : Edge) → Memᴰ e es → HasRow rs e.source)
    → (rd : Readiness) × (readiness rs es ≡ ok rd)
unfolding readiness
readiness-ok rs [] h = (_, refl)
readiness-ok rs (x ∷ xs) h =
    let (b, e) = preds_terminal-ok rs (x ∷ xs) h in
    (if b then (if any (edge_matches rs) (x ∷ xs) then ready else unmatched) else blocked, rw e)

-- A step of the graph loses the race for its job.
abbrev pub Raced : Env → Graph → Type 0
Raced env g = (s : Step) × Memᴰ s g.steps × (env.dispatch s ≡ lost_race)

-- Both lists of rows are covered, and only a lost race has expired the run.
pub record IsWhole (env : Env) (g : Graph) (t : Tick) : Type 0 where
  pub in_session : IsCovered g t.runs
  pub in_database : IsCovered g t.saved
  pub raced : t.expired ≡ true → Raced env g

-- The loop goes through, or a read of the expired run ends it.
abbrev pub Goes : Env → Graph → Progress → Type 0
Goes env g (go t) = IsWhole env g t
Goes env g (halt e t) = (e ≡ missing_greenlet) × Raced env g × IsCovered g t.saved

visit-Goes :
    (env : Env) (g : Graph) (s : Step) (t : Tick)
    → Memᴰ s g.steps
    → ((rs : List StepRun) (e : Exc) → Escapes env s rs e → ⊥)
    → IsWhole env g t
    → Goes env g (visit env g s t)
visit-Goes env g s t m safe w = round (visit-Visit env g s t)
  where
    never : (e : Exc) → readiness t.runs (incoming_edges g s.id) ≡ raised e → ⊥
    never e h =
        let (rd, k) =
          readiness-ok t.runs (incoming_edges g s.id)
            (λ x n. w.in_session.sources x (of_mem-incoming_edges g s.id x n).0) in
        cc

    reason :
        (e : Exc)
        → (lookup s.id t.runs ≡ none)
          ⊎ (readiness t.runs (incoming_edges g s.id) ≡ raised e)
          ⊎ Escapes env s t.runs e
          ⊎ ((t.expired ≡ true) × (e ≡ missing_greenlet))
        → (e ≡ missing_greenlet) × Raced env g × IsCovered g t.saved
    reason e (inl missing) = let (r, there) = w.in_session.steps s m in cc
    reason e (inr (inl h)) = absurd (never e h)
    reason e (inr (inr (inl h))) = absurd (safe t.runs e h)
    reason e (inr (inr (inr (x, h)))) = (h, w.raced x, w.in_database)

    round : {p : Progress} → Visit env g s t p → Goes env g p
    round unchanged = w
    round (stopped e why) = reason e why
    round (decided rd sr r t' found waits edges d runs saved kept flag) = record {
      in_session = rw runs new;
      in_database = was saved;
      raced = λ x. w.raced (rw kept at x);
    }
      where
        same : sr.step_id ≡ s.id
        same = step_id-lookup s.id t.runs sr found

        there : lookup r.step_id t.runs ≡ some sr
        there = cc (same, d.same_step)

        new : IsCovered g (put r t.runs)
        new = IsCovered-stay g t.runs (put r t.runs) (put-RowsStay r sr t.runs there) w.in_session

        was : (t'.saved ≡ t.saved) ⊎ (t'.saved ≡ t.runs) → IsCovered g t'.saved
        was (inl e) = rw e w.in_database
        was (inr e) = rw e w.in_session
    round (rolled_back p sr r t' race found waits there same status runs saved flag) = record {
      in_session = rw runs (
          IsCovered-stay g t.saved (put r t.saved)
            (put-RowsStay r sr t.saved (cc (step_id-lookup s.id t.saved sr there))) w.in_database);
      in_database = rw saved w.in_database;
      raced = λ x. (s, m, race);
    }
    round (lost e t' race gone runs saved) = let (r, there) = w.in_database.steps s m in cc

pub visit_all-Goes :
    (env : Env) (g : Graph)
    → ((s : Step) (rs : List StepRun) (e : Exc) → Escapes env s rs e → ⊥)
    → (ss : List Step) → ((s : Step) → Memᴰ s ss → Memᴰ s g.steps)
    → (t : Tick) → IsWhole env g t
    → Goes env g (visit_all env g ss t)
unfolding visit_all
visit_all-Goes env g safe [] sub t c = c
visit_all-Goes env g safe (s ∷ ss) sub t c =
    then_goes (visit env g s t) (visit-Goes env g s t (sub s (Memᴰ.head refl)) (safe s) c)
      (λ u k. visit_all-Goes env g safe ss (λ x m. sub x (Memᴰ.tail m)) u k)
  where
    then_goes :
        (p : Progress)
        → Goes env g p
        → ((u : Tick) → IsWhole env g u → Goes env g (visit_all env g ss u))
        → Goes env g (elim p [ go t' ↦ visit_all env g ss t' | halt e t' ↦ halt e t' ])
    then_goes (go u) h k = k u h
    then_goes (halt e u) h k = h
