-- ===== src/Workflow/Sync/Laws.antt =====
-- Section 1 of a tick touches the rows of running steps alone.
use lokilinux.Prelude.{
  String, Bool, true, false, ◌≡◌, refl, inl, inr, Option, none, some, List, [], ◌∷◌, ℕ, arith,
  eq_iff, Bool-cases, if◌then◌else◌, str_eq,
}
use lokilinux.Python.{◌>>=◌, Result, ok, raised}
use lokilinux.Workflow.Types.{StepRun, Graph, lookup, is_pending}
use lokilinux.Workflow.Sync.{
  Env, sync_job, sync_wait, sync_step, sync_all, is_running, wait_satisfied, find_step, is_wait,
  Step,
}

-- `r'` is what one round of section 1 may make of `r`.
pub record Syncs (r r' : StepRun) : Type 0 where
  pub same_step : r'.step_id ≡ r.step_id
  pub idle : is_running r.status ≡ false → r' ≡ r
  pub started : is_running r.status ≡ true → is_pending r'.status ≡ false

sync_job-Syncs :
    (env : Env) (j : ℕ) (r : StepRun) → is_running r.status ≡ true → Syncs r (sync_job env j r)
unfolding sync_job is_running is_pending
sync_job-Syncs env j r h = ground arith

sync_wait-Syncs :
    (env : Env) (r : StepRun) (d t : Bool)
    → is_running r.status ≡ true
    → Syncs r (sync_wait env r (d, t))
unfolding sync_wait is_running is_pending
sync_wait-Syncs env r d t h = ground arith

same-Syncs : (r : StepRun) → Syncs r r
unfolding is_running is_pending
same-Syncs r = ground arith

of_ok : (r a r' : StepRun) → Syncs r a → ok a ≡ ok r' → Syncs r r'
of_ok r a r' s h = let e : a ≡ r' = cc in rw (← e) s

module _ (env : Env) (r r' : StepRun) (runs : is_running r.status ≡ true) where
  poll-Syncs : (d : Result (Bool × Bool)) → (d >>= λ x. ok (sync_wait env r x)) ≡ ok r' → Syncs r r'
  poll-Syncs (ok (a, b)) h = of_ok r _ r' (sync_wait-Syncs env r a b runs) h
  poll-Syncs (raised e) h = cc

  waiting-Syncs :
      (g : Graph) (agents : List ℕ) (o : Option Step)
      → (elim o [
        | none ↦ ok r
        | some s ↦
            if is_wait s.node_type
            then (do x ← wait_satisfied env r s agents; ok (sync_wait env r x))
            else ok r
      ])
        ≡ ok r'
      → Syncs r r'
  waiting-Syncs g agents none h = of_ok r r r' (same-Syncs r) h
  waiting-Syncs g agents (some s) h = elim (Bool-cases (is_wait s.node_type)) [
    | inl w ↦ poll-Syncs (wait_satisfied env r s agents) (rw w at h)
    | inr w ↦ of_ok r r r' (same-Syncs r) (rw w at h)
  ]

  running-Syncs :
      (g : Graph) (agents : List ℕ) (o : Option ℕ)
      → r.job_id ≡ o
      → sync_step env g agents r ≡ ok r'
      → Syncs r r'
  unfolding sync_step
  running-Syncs g agents (some j) e h =
      of_ok r _ r' (sync_job-Syncs env j r runs) (simp (runs, e) at h)
  running-Syncs g agents none e h =
      waiting-Syncs g agents (find_step r.step_id g.steps) (simp (runs, e) at h)

pub sync_step-Syncs :
    (env : Env) (g : Graph) (agents : List ℕ) (r r' : StepRun)
    → sync_step env g agents r ≡ ok r'
    → Syncs r r'
unfolding sync_step
sync_step-Syncs env g agents r r' h = elim (Bool-cases (is_running r.status)) [
  | inl runs ↦ running-Syncs env r r' runs g agents r.job_id refl h
  | inr idle ↦ of_ok r r r' (same-Syncs r) (simp idle at h)
]

-- Section 1, row by row.
pub data Synced : List StepRun → List StepRun → Type 0 where
  nil : Synced [] []
  row :
      {r r' : StepRun} {rs rs' : List StepRun}
      → Syncs r r'
      → Synced rs rs'
      → Synced (r ∷ rs) (r' ∷ rs')

cons_ok :
    (r : StepRun) (rs out : List StepRun) (x : Result StepRun) (y : Result (List StepRun))
    → ((r' : StepRun) → x ≡ ok r' → Syncs r r')
    → ((rs' : List StepRun) → y ≡ ok rs' → Synced rs rs')
    → (x >>= λ r'. y >>= λ rs'. ok (r' ∷ rs')) ≡ ok out
    → Synced (r ∷ rs) out
cons_ok r rs out (raised e) y fx fy h = cc
cons_ok r rs out (ok r') (raised e) fx fy h = cc
cons_ok r rs out (ok r') (ok rs') fx fy h =
    let e : r' ∷ rs' ≡ out = cc in rw (← e) (row (fx r' refl) (fy rs' refl))

pub sync_all-Synced :
    (env : Env) (g : Graph) (agents : List ℕ) (rs out : List StepRun)
    → sync_all env g agents rs ≡ ok out
    → Synced rs out
unfolding sync_all
sync_all-Synced env g agents [] out h = let e : [] ≡ out = cc in rw (← e) nil
sync_all-Synced env g agents (r ∷ rs) out h =
    cons_ok r rs out (sync_step env g agents r) (sync_all env g agents rs)
      (λ r' e. sync_step-Syncs env g agents r r' e) (λ rs' e. sync_all-Synced env g agents rs rs' e)
      h

-- A row that is not running is as it was.
pub lookup-Synced :
    {rs out : List StepRun} (id : String) (q : StepRun)
    → Synced rs out
    → lookup id rs ≡ some q
    → is_running q.status ≡ false
    → lookup id out ≡ some q
unfolding lookup
lookup-Synced id q nil found idle = found
lookup-Synced id q (row {r = r} {r' = r'} s ss) found idle =
    ground
      (arith, s.idle, s.same_step, eq_iff r.step_id id, eq_iff r'.step_id id, lookup-Synced id q ss)

-- A row that is pending was so.
pub pending-Synced :
    {rs out : List StepRun} (id : String) (q : StepRun)
    → Synced rs out
    → lookup id out ≡ some q
    → is_pending q.status ≡ true
    → lookup id rs ≡ some q
unfolding lookup
pending-Synced id q nil found waits = found
pending-Synced id q (row {r = r} {r' = r'} s ss) found waits =
    elim (Bool-cases (is_running r.status)) [
      | inl runs ↦ ground (
        arith,
        s.started runs,
        s.same_step,
        eq_iff r.step_id id,
        eq_iff r'.step_id id,
        pending-Synced id q ss,
      )
      | inr idle ↦ ground (
        arith,
        s.idle idle,
        s.same_step,
        eq_iff r.step_id id,
        eq_iff r'.step_id id,
        pending-Synced id q ss,
      )
    ]

-- Every row of the result comes from a row of that id.
pub from-Synced :
    {rs out : List StepRun} (id : String) (q : StepRun)
    → Synced rs out
    → lookup id out ≡ some q
    → (p : StepRun) × (lookup id rs ≡ some p) × Syncs p q
unfolding lookup
from-Synced id q nil found = cc
from-Synced id q (row {r = r} {r' = r'} s ss) found = elim (Bool-cases (str_eq r'.step_id id)) [
  | inl here ↦
      let e : r' ≡ q = ground arith in
      (r, ground (arith, s.same_step, eq_iff r.step_id id, eq_iff r'.step_id id), rw (← e) s)
  | inr later ↦
      let (p, there, d) = from-Synced id q ss (rw later at found) in
      (p, ground (arith, s.same_step, eq_iff r.step_id id, eq_iff r'.step_id id), d)
]

-- No row is lost.
pub rows-Synced :
    {rs out : List StepRun} (id : String) (p : StepRun)
    → Synced rs out
    → lookup id rs ≡ some p
    → (q : StepRun) × (lookup id out ≡ some q)
unfolding lookup
rows-Synced id p nil found = cc
rows-Synced id p (row {r = r} {r' = r'} s ss) found = elim (Bool-cases (str_eq r.step_id id)) [
  | inl here ↦ (r', ground (arith, s.same_step, eq_iff r.step_id id, eq_iff r'.step_id id))
  | inr later ↦
      let (q, there) = rows-Synced id p ss (rw later at found) in
      (q, ground (arith, s.same_step, eq_iff r.step_id id, eq_iff r'.step_id id))
]
