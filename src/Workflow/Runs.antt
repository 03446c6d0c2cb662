-- ===== src/Workflow/Runs.antt =====
-- The step runs of a run, as a table by step id: the laws of `lookup` and `put`.
use lokilinux.Prelude.{String, ◌≡◌, ◌≢◌, refl, some, List, [], ◌∷◌, arith, eq_iff}
use lokilinux.Workflow.Types.{StepRun, lookup, put}

-- A row is found under its own id.
pub step_id-lookup :
    (id : String) (rs : List StepRun) (r : StepRun) → lookup id rs ≡ some r → r.step_id ≡ id
unfolding lookup
step_id-lookup id [] r h = cc
step_id-lookup id (q ∷ qs) r h = ground (arith, eq_iff q.step_id id, step_id-lookup id qs r)

pub lookup-put_self :
    (r p : StepRun) (rs : List StepRun)
    → lookup r.step_id rs ≡ some p
    → lookup r.step_id (put r rs) ≡ some r
unfolding lookup put
lookup-put_self r p [] h = cc
lookup-put_self r p (q ∷ qs) h =
    ground (arith, eq_iff q.step_id r.step_id, eq_iff r.step_id r.step_id, lookup-put_self r p qs)

pub lookup-put_ne :
    (r : StepRun) (id : String) (rs : List StepRun)
    → r.step_id ≢ id
    → lookup id (put r rs) ≡ lookup id rs
unfolding lookup put
lookup-put_ne r id [] h = refl
lookup-put_ne r id (q ∷ qs) h = ground (
  arith,
  eq_iff q.step_id r.step_id,
  eq_iff q.step_id id,
  eq_iff r.step_id id,
  lookup-put_ne r id qs,
)
