-- ===== src/Workflow/Life/Approvals.antt =====
-- An approval leaves routed rows.
use lokilinux.Prelude.{
  ℕ, String, true, false, ◌≡◌, sym, some, List, arith, Bool-cases, inl, inr, str_eq, eq_iff, ◌∙◌,
}
use lokilinux.Workflow.Types.{Graph, StepStatus, StepRun, lookup, is_pending, is_done}
use lokilinux.Workflow.Ready.Routing.{IsRouted, was_taken, DoneStay, MayStart-stay, SourceDone-stay}
use lokilinux.Workflow.Gates.{approved_rows}
use lokilinux.Workflow.Runs.{lookup-put_ne}

-- An approved row was taken before; all else is as it was.
module _ (g : Graph) (now : ℕ) (sr : StepRun) (rs : List StepRun)
    (there : lookup sr.step_id rs ≡ some sr) (gate : sr.status ≡ StepStatus.waiting_approval)
    (h : IsRouted g rs) where
  abbrev approved_row : StepRun
  approved_row = record sr { status = StepStatus.succeeded; completed_at = some now }

  approved-DoneStay : DoneStay rs (approved_rows now sr rs)
  unfolding approved_rows is_done
  approved-DoneStay id p row ended = lookup-put_ne approved_row id rs differs ∙ row
    where
      differs : sr.step_id ≡ id → ⊥
      differs e = cc

  approved_before :
      (id : String) (q : StepRun)
      → lookup id (approved_rows now sr rs) ≡ some q
      → is_pending q.status ≡ false
      → (p : StepRun) × (lookup id rs ≡ some p)
        × (is_pending p.status ≡ false)
        × (was_taken q.status ≡ true → was_taken p.status ≡ true)
  unfolding approved_rows is_pending was_taken
  approved_before id q row past = elim (Bool-cases (str_eq sr.step_id id)) [
    | inl here ↦
        let e : sr.step_id ≡ id = (eq_iff sr.step_id id).0 here in (sr, rw (← e) there, cc, λ k. cc)
    | inr later ↦ (
      q,
      sym (lookup-put_ne approved_row id rs (λ e. cc ((eq_iff sr.step_id id).1 e))) ∙ row,
      past,
      λ k. k,
    )
  ]

  pub approved-IsRouted : IsRouted g (approved_rows now sr rs)
  unfolding was_taken is_pending
  approved-IsRouted = record {
    preds = λ id q found past e m t.
        let (p, was, past', taken) = approved_before id q found past in
        SourceDone-stay rs (approved_rows now sr rs) e approved-DoneStay
          (h.preds id p was past' e m t);
    route = λ id q found took.
        let (p, was, past', taken) = approved_before id q found (taken_past q.status took) in
        MayStart-stay g id rs (approved_rows now sr rs) approved-DoneStay
          (h.route id p was (taken took));
  }
    where
      taken_past : (s : StepStatus) → was_taken s ≡ true → is_pending s ≡ false
      taken_past s k = ground arith
