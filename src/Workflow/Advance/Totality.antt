-- ===== src/Workflow/Advance/Totality.antt =====
-- What a tick of a run with all its rows and with readable wait steps can raise.
use lokilinux.Prelude.{
  ℕ, String, Bool, true, false, ◌≡◌, refl, Option, none, some, List, [], ◌∷◌, arith, ◌⊎◌,
  Bool-cases, inl, inr, Memᴰ, if◌then◌else◌, str_eq,
}
use lokilinux.Prelude.Int.{ℤ, pos}
use lokilinux.Python.{Exc, missing_greenlet, Result, ok, ◌>>=◌, int, get, or_else, py_int}
use lokilinux.Workflow.Types.{Step, StepRun, Graph, Run}
use lokilinux.Workflow.Sync.{
  Env, sync_all, sync_step, sync_job, sync_wait, find_step, is_wait, wait_satisfied,
}
use lokilinux.Workflow.Sync.Laws.{rows-Synced, sync_all-Synced, Synced}
use lokilinux.Workflow.Ready.{Progress, go, halt, visit_all}
use lokilinux.Workflow.Ready.Totality.{
  IsCovered, IsCovered-stay, RowsStay, visit_all-Goes, Goes, Raced,
}
use lokilinux.Workflow.Ready.Visits.{Escapes}
use lokilinux.Workflow.Advance.{
  Outcome, advance_steps, advance_run, conclude, is_running_run, synced,
}

-- The numbers that the poll of a wait step reads are numbers.
pub record IsPollable (s : Step) : Type 0 where
  pub seconds : (z : ℤ) × (py_int (or_else (get s.config "seconds") (int (pos 0))) ≡ ok z)
  pub timeout :
      (z : ℤ) × (py_int (or_else (get s.config "timeout_seconds") (int (pos 1800))) ≡ ok z)
  pub beats : (z : ℤ) × (py_int (or_else (get s.config "min_heartbeats") (int (pos 1))) ≡ ok z)

abbrev IsOk {ℓ} : {A : Type ℓ} → Result A → Type ℓ
IsOk {A} r = (a : A) × (r ≡ ok a)

if-IsOk : {A : Type 0} (b : Bool) (x y : Result A) → IsOk x → IsOk y → IsOk (if b then x else y)
if-IsOk true x y p q = p
if-IsOk false x y p q = q

bind-IsOk :
    {A B : Type 0} (x : Result A) (f : A → Result B)
    → IsOk x
    → ((a : A) → IsOk (f a))
    → IsOk (x >>= f)
bind-IsOk x f (a, e) k = rw e (k a)

pure-ok : {A : Type 0} (a : A) → IsOk (ok a)
pure-ok a = (a, refl)

wait_satisfied-IsOk :
    (env : Env) (r : StepRun) (s : Step) (agents : List ℕ)
    → IsPollable s
    → IsOk (wait_satisfied env r s agents)
unfolding wait_satisfied
wait_satisfied-IsOk env r s agents p =
    if-IsOk _ _ _ (bind-IsOk _ _ p.seconds (λ z. pure-ok _))
      (bind-IsOk _ _ p.timeout (λ z. bind-IsOk _ _ p.beats (λ w. pure-ok _)))

find_step-mem : (id : String) (ss : List Step) (s : Step) → find_step id ss ≡ some s → Memᴰ s ss
unfolding find_step
find_step-mem id [] s h = cc
find_step-mem id (x ∷ xs) s h = elim (Bool-cases (str_eq x.id id)) [
  | inl here ↦ let e : x ≡ s = ground arith in Memᴰ.head (cc)
  | inr later ↦ Memᴰ.tail (find_step-mem id xs s (rw later at h))
]

module _ (env : Env) (g : Graph) (agents : List ℕ)
    (polls : (s : Step) → Memᴰ s g.steps → is_wait s.node_type ≡ true → IsPollable s) where
  poll-ok :
      (r : StepRun) (o : Option Step)
      → find_step r.step_id g.steps ≡ o
      → IsOk {A = StepRun} (elim o [
        | none ↦ ok r
        | some s ↦
            if is_wait s.node_type
            then (do x ← wait_satisfied env r s agents; ok (sync_wait env r x))
            else ok r
      ])
  poll-ok r none e = pure-ok r
  poll-ok r (some s) e = elim (Bool-cases (is_wait s.node_type)) [
    | inl w ↦ rw w (
        bind-IsOk _ _
          (wait_satisfied-IsOk env r s agents (polls s (find_step-mem r.step_id g.steps s e) w))
          (λ x. pure-ok _))
    | inr w ↦ rw w (pure-ok r)
  ]

  sync_step-IsOk : (r : StepRun) → IsOk (sync_step env g agents r)
  unfolding sync_step
  sync_step-IsOk r = if-IsOk _ _ _ (by_job r.job_id) (pure-ok r)
    where
      by_job :
          (o : Option ℕ)
          → IsOk {A = StepRun} (elim o [
            | some j ↦ ok (sync_job env j r)
            | none ↦ elim (find_step r.step_id g.steps) [
              | none ↦ ok r
              | some s ↦
                  if is_wait s.node_type
                  then (do x ← wait_satisfied env r s agents; ok (sync_wait env r x))
                  else ok r
            ]
          ])
      by_job (some j) = pure-ok _
      by_job none = poll-ok r (find_step r.step_id g.steps) refl

  sync_all-IsOk : (rs : List StepRun) → IsOk (sync_all env g agents rs)
  unfolding sync_all
  sync_all-IsOk [] = pure-ok []
  sync_all-IsOk (r ∷ rs) =
      bind-IsOk _ _ (sync_step-IsOk r) (λ r'. bind-IsOk _ _ (sync_all-IsOk rs) (λ rs'. pure-ok _))

synced-RowsStay : {rs rs' : List StepRun} → Synced rs rs' → RowsStay rs rs'
synced-RowsStay s id (r, found) = rows-Synced id r s found

module _ (env : Env) (g : Graph) (run : Run) (rs : List StepRun)
    (polls : (s : Step) → Memᴰ s g.steps → is_wait s.node_type ≡ true → IsPollable s)
    (safe : (s : Step) (qs : List StepRun) (e : Exc) → Escapes env s qs e → ⊥)
    (c : IsCovered g rs) where
  -- What a tick leaves: all rows, and no exception but that of a read of the expired run.
  pub record IsTotal (o : Outcome) : Type 0 where
    pub covered : IsCovered g o.runs
    pub raises : (o.exc ≡ none) ⊎ ((o.exc ≡ some missing_greenlet) × Raced env g)

  conclude-IsTotal : (p : Progress) → Goes env g p → IsTotal (conclude env run p)
  unfolding conclude
  conclude-IsTotal (go t) h = record { covered = h.in_session; raises = inl refl }
  conclude-IsTotal (halt e t) (x, r, k) = record { covered = k; raises = inr (cc, r) }

  -- Where the calls of a tick raise no exception but those that are caught, the wait steps have
  -- readable numbers, and every step and every edge source has a row: behind the tick every step and
  -- every edge source has a row again, and the tick has raised nothing, unless a step of the graph
  -- has lost the race for its job; then it may have raised MissingGreenlet, and nothing else.
  pub advance_run-IsTotal : IsTotal (advance_run env (some g) run rs)
  unfolding advance_run advance_steps
  advance_run-IsTotal =
      let (rs', e) = sync_all-IsOk env g run.agent_ids polls rs in
      let s : Synced rs rs' = sync_all-Synced env g run.agent_ids rs rs' e in
      elim (Bool-cases (is_running_run run.status)) [
        | inl runs ↦
            simp (runs, e)
              (conclude-IsTotal (visit_all env g g.steps (synced rs rs')) (
                visit_all-Goes env g safe g.steps (λ x m. m) (synced rs rs')
                  (record {
                    in_session = IsCovered-stay g rs rs' (synced-RowsStay s) c;
                    in_database = c;
                    raced = λ x. cc;
                  })))
        | inr idle ↦ simp idle (record { covered = c; raises = inl refl })
      ]
