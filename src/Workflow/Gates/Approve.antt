-- ===== src/Workflow/Gates/Approve.antt =====
-- `approve_step`: who may clear a gate.
use lokilinux.Prelude.{
  ℕ, String, true, false, ◌||◌, ◌≡◌, ◌≢◌, Option, none, some, List, arith, eq_iff, Bool-cases,
  Option-cases, inl, inr,
}
use lokilinux.Http.{done}
use lokilinux.Workflow.Types.{StepRun, StepStatus, RunStatus, Run, lookup}
use lokilinux.Workflow.Sync.{Env}
use lokilinux.Workflow.Advance.{Outcome, advance_run}
use lokilinux.Workflow.Gates.{
  Version, Actor, is_waiting, is_trigger, is_publisher, approved_rows, graph_of, approve_step,
  same_id, same_uuid,
}

-- The raw id, where there is one, and the UUID, where there is one, are not those of the other.
pub record Differs (a : Actor) (id : Option String) (uuid : Option ℕ) : Type 0 where
  pub by_id : (s : String) → a.actor_id ≡ some s → id ≢ some s
  pub by_uuid : (n : ℕ) → a.actor ≡ some n → uuid ≢ some n

same_id_sound : (a b : Option String) → same_id a b ≡ false → (s : String) → a ≡ some s → b ≢ some s
same_id_sound none b h s e k = cc
same_id_sound (some t) none h s e k = cc
same_id_sound (some t) (some u) h s e k = ground (arith, eq_iff u t)

same_uuid_sound : (a b : Option ℕ) → same_uuid a b ≡ false → (n : ℕ) → a ≡ some n → b ≢ some n
same_uuid_sound none b h s e k = cc
same_uuid_sound (some t) none h s e k = cc
same_uuid_sound (some t) (some u) h s e k = ground arith

both-Differ :
    (a : Actor) (id : Option String) (uuid : Option ℕ)
    → (same_id a.actor_id id || same_uuid a.actor uuid) ≡ false
    → Differs a id uuid
both-Differ a id uuid h = record {
  by_id = same_id_sound a.actor_id id (ground arith);
  by_uuid = same_uuid_sound a.actor uuid (ground arith);
}

-- What holds where an approval goes through.
pub record IsCleared (env : Env) (version : Option Version) (run : Run) (rs : List StepRun)
    (step_id : String) (a : Actor) (o : Outcome) : Type 0 where
  pub row : StepRun
  pub there : lookup step_id rs ≡ some row
  pub waited : row.status ≡ StepStatus.waiting_approval
  pub not_trigger : Differs a run.triggered_by_actor run.triggered_by
  pub not_publisher :
      (v : Version) → version ≡ some v → Differs a v.published_by_actor v.published_by
  pub advanced :
      o
      ≡ advance_run env
          (graph_of version)
          (record run { status = RunStatus.running })
          (approved_rows env.now row rs)

waited_lem : (s : StepStatus) → is_waiting s ≡ true → s ≡ StepStatus.waiting_approval
unfolding is_waiting
waited_lem s h = ground arith

module _ (env : Env) (version : Option Version) (run : Run) (rs : List StepRun) (step_id : String)
    (a : Actor) where
  cleared :
      (o : Outcome) (sr : StepRun)
      → lookup step_id rs ≡ some sr
      → approve_step env version run rs step_id a ≡ done o
      → IsCleared env version run rs step_id a o
  unfolding approve_step is_trigger is_publisher
  cleared o sr there h = elim (Bool-cases (is_waiting sr.status)) [
    | inr no_gate ↦ cc (simp (there, no_gate) at h)
    | inl gate ↦ elim (Bool-cases (is_trigger a run)) [
      | inl t ↦ cc (simp (there, gate, t) at h)
      | inr t ↦ elim (Bool-cases (is_publisher a version)) [
        | inl p ↦ cc (simp (there, gate, t, p) at h)
        | inr p ↦ record {
          row = sr;
          there = there;
          waited = waited_lem sr.status gate;
          not_trigger = trigger_differs t;
          not_publisher = publisher_differs p;
          advanced = done_injective (simp (there, gate, t, p) at h);
        }
      ]
    ]
  ]
    where
      trigger_differs : is_trigger a run ≡ false → Differs a run.triggered_by_actor run.triggered_by
      trigger_differs t = both-Differ a run.triggered_by_actor run.triggered_by t

      publisher_differs :
          is_publisher a version ≡ false
          → (v : Version) → version ≡ some v
          → Differs a v.published_by_actor v.published_by
      publisher_differs p v e = both-Differ a v.published_by_actor v.published_by (rw e at p)

      done_injective : {x y : Outcome} → done x ≡ done y → y ≡ x
      done_injective e = cc

  -- An approval goes through only where the step has a row that waits for it, and only for somebody
  -- who neither started the run nor published its version, by raw id or by UUID. It then sets the
  -- row to SUCCEEDED and the run to RUNNING, and what it leaves is what a tick makes of these.
  pub approve_step-clears :
      (o : Outcome)
      → approve_step env version run rs step_id a ≡ done o
      → IsCleared env version run rs step_id a o
  unfolding approve_step
  approve_step-clears o h = elim (Option-cases (lookup step_id rs)) [
    | inl gone ↦ cc (simp gone at h)
    | inr (sr, there) ↦ cleared o sr there h
  ]
