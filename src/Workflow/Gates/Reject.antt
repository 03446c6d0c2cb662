-- ===== src/Workflow/Gates/Reject.antt =====
-- `reject_step` ends the run and leaves no gate and no pending row behind.
use lokilinux.Prelude.{
  str_eq-false_symm, if◌then◌else◌, ap, ℕ, String, true, false, ◌≡◌, refl, ◌∙◌, some, List, [], ◌∷◌,
  arith, eq_iff, str_eq, Bool-cases, Option-cases, inl, inr,
}
use lokilinux.Http.{done}
use lokilinux.Workflow.Types.{
  StepRun, StepStatus, StepError, RunStatus, Run, lookup, put, is_pending,
}
use lokilinux.Workflow.Runs.{step_id-lookup, lookup-put_self, lookup-put_ne}
use lokilinux.Workflow.Advance.{Outcome}
use lokilinux.Workflow.Gates.{
  is_waiting, skip_others, skip_row, rejected_row, rejection, reject_step,
}

-- The rows behind a rejection of `step_id`.
pub record IsEnded (rs : List StepRun) (step_id : String) (o : Outcome) : Type 0 where
  pub failed : o.run.status ≡ RunStatus.failed
  pub at_step :
      (q : StepRun)
      → lookup step_id o.runs ≡ some q
      → (q.status ≡ StepStatus.failed) × (q.error ≡ some StepError.rejected_by_approver)
  pub no_gate :
      (id : String) (q : StepRun)
      → lookup id o.runs ≡ some q
      → (is_pending q.status ≡ false) × (is_waiting q.status ≡ false)
  pub kept :
      (id : String) (q : StepRun)
      → lookup id rs ≡ some q
      → is_pending q.status ≡ false
      → is_waiting q.status ≡ false
      → lookup id o.runs ≡ some q

-- Neither pending nor waiting.
abbrev pub IsClear : StepRun → Type 0
IsClear q = (is_pending q.status ≡ false) × (is_waiting q.status ≡ false)

module _ (now : ℕ) (s : String) where
  step_id-skip_row : (r : StepRun) → (skip_row now s r).step_id ≡ r.step_id
  unfolding skip_row
  step_id-skip_row r = ground arith

  skip_row_other : (r : StepRun) → str_eq r.step_id s ≡ false → IsClear (skip_row now s r)
  unfolding skip_row is_pending is_waiting
  skip_row_other r h = ground arith

  skip_row_self : (r : StepRun) → r.step_id ≡ s → skip_row now s r ≡ r
  unfolding skip_row
  skip_row_self r h = ground (arith, eq_iff r.step_id s)

  skip_row_clear : (r : StepRun) → IsClear r → skip_row now s r ≡ r
  unfolding skip_row is_pending is_waiting
  skip_row_clear r h = ground arith

  -- Looking a row up and skipping it commute.
  lookup-skip_others :
      (id : String) (rs : List StepRun) (q : StepRun)
      → lookup id (skip_others now s rs) ≡ some q
      → (r : StepRun) × (lookup id rs ≡ some r) × (q ≡ skip_row now s r)
  unfolding skip_others lookup
  lookup-skip_others id [] q h = cc
  lookup-skip_others id (r ∷ rs) q h = elim (Bool-cases (str_eq r.step_id id)) [
    | inl here ↦ (r, rw here, first (rw (step_id-skip_row r) at h) here)
    | inr later ↦
        let (p, there, e) =
          lookup-skip_others id rs q (rw later at (rw (step_id-skip_row r) at h)) in
        (p, rw later there, e)
  ]
    where
      first :
          (if str_eq r.step_id id
              then some (skip_row now s r)
              else lookup id (skip_others now s rs))
            ≡ some q
          → str_eq r.step_id id ≡ true
          → q ≡ skip_row now s r
      first k here = ground arith

  skip_others-lookup :
      (id : String) (rs : List StepRun) (r : StepRun)
      → lookup id rs ≡ some r
      → lookup id (skip_others now s rs) ≡ some (skip_row now s r)
  unfolding skip_others lookup
  skip_others-lookup id [] r h = cc
  skip_others-lookup id (x ∷ rs) r h = elim (Bool-cases (str_eq x.step_id id)) [
    | inl here ↦
        let e : x ≡ r = ground arith in
        rw (step_id-skip_row x) (rw here (ap (λ y. some (skip_row now s y)) e))
    | inr later ↦ rw (step_id-skip_row x) (rw later (skip_others-lookup id rs r (rw later at h)))
  ]

waiting-pending : (st : StepStatus) → is_waiting st ≡ true → is_pending st ≡ false
unfolding is_waiting is_pending
waiting-pending st h = ground arith

module _ (now : ℕ) (run : Run) (rs : List StepRun) (step_id : String) where
  module _ (sr : StepRun) (there : lookup step_id rs ≡ some sr)
      (gate : is_waiting sr.status ≡ true) where
    same : (rejected_row now sr).step_id ≡ step_id
    unfolding rejected_row
    same = step_id-lookup step_id rs sr there

    new_row : lookup step_id (put (rejected_row now sr) rs) ≡ some (rejected_row now sr)
    new_row =
        let e : lookup (rejected_row now sr).step_id rs ≡ some sr = cc (same) in
        cc (same, lookup-put_self (rejected_row now sr) sr rs e)

    row_failed :
        ((rejected_row now sr).status ≡ StepStatus.failed)
        × ((rejected_row now sr).error ≡ some StepError.rejected_by_approver)
    unfolding rejected_row
    row_failed = (refl, refl)

    row-IsClear : IsClear (rejected_row now sr)
    unfolding rejected_row is_pending is_waiting
    row-IsClear = (refl, refl)

    -- The row of the step itself is not skipped.
    self :
        (q : StepRun)
        → lookup step_id (skip_others now step_id (put (rejected_row now sr) rs)) ≡ some q
        → q ≡ rejected_row now sr
    self q h =
        let k =
          skip_others-lookup now step_id step_id (put (rejected_row now sr) rs)
            (rejected_row now sr) new_row in
        cc (k, skip_row_self now step_id (rejected_row now sr) same)

    clear :
        (id : String) (q : StepRun)
        → lookup id (skip_others now step_id (put (rejected_row now sr) rs)) ≡ some q
        → IsClear q
    clear id q h = elim (Bool-cases (str_eq step_id id)) [
      | inl here ↦
          let e : q ≡ rejected_row now sr = self q (rw (← (eq_iff step_id id).0 here) at h) in
          rw e row-IsClear
      | inr later ↦
          let (r, there', e) =
            lookup-skip_others now step_id id (put (rejected_row now sr) rs) q h in
          let n : r.step_id ≡ id = step_id-lookup id (put (rejected_row now sr) rs) r there' in
          rw e (skip_row_other now step_id r (rw n (str_eq-false_symm step_id id later)))
    ]

    kept_row :
        (id : String) (q : StepRun)
        → lookup id rs ≡ some q
        → IsClear q
        → lookup id (skip_others now step_id (put (rejected_row now sr) rs)) ≡ some q
    kept_row id q h c =
        let k : lookup id (put (rejected_row now sr) rs) ≡ some q =
          lookup-put_ne (rejected_row now sr) id rs (λ e. differs e) ∙ h in
        cc (
          skip_others-lookup now step_id id (put (rejected_row now sr) rs) q k,
          skip_row_clear now step_id q c,
        )
      where
        differs : (rejected_row now sr).step_id ≡ id → ⊥
        differs e = cc (same, c.1)

    ended : IsEnded rs step_id (rejection now run rs step_id sr)
    unfolding rejection
    ended = record {
      failed = refl;
      at_step = λ q h. rw (self q h) row_failed;
      no_gate = clear;
      kept = λ id q h a b. kept_row id q h (a, b);
    }

  rejected :
      (o : Outcome) (sr : StepRun)
      → lookup step_id rs ≡ some sr
      → reject_step now run rs step_id ≡ done o
      → IsEnded rs step_id o
  unfolding reject_step
  rejected o sr there h = elim (Bool-cases (is_waiting sr.status)) [
    | inr no_gate ↦ cc (simp (there, no_gate) at h)
    | inl gate ↦
        let k : done (rejection now run rs step_id sr) ≡ done o = simp (there, gate) at h in
        let e : rejection now run rs step_id sr ≡ o = cc k in rw (← e) (ended sr there gate)
  ]

  -- A rejection that goes through was of a step that waits. The run has failed, the step has failed
  -- with the approver's message, no row is pending or waiting, and the rows that were neither are as
  -- they were, those of running steps included.
  pub reject_step-ends :
      (o : Outcome) → reject_step now run rs step_id ≡ done o → IsEnded rs step_id o
  unfolding reject_step
  reject_step-ends o h = elim (Option-cases (lookup step_id rs)) [
    | inl gone ↦ cc (simp gone at h)
    | inr (sr, there) ↦ rejected o sr there h
  ]
