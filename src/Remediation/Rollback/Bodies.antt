-- ===== src/Remediation/Rollback/Bodies.antt =====
-- What an agent finds in the payload of a ROLLBACK job.
use lokilinux.Prelude.{
  keep-true, keep-false, ◌∙◌, sym, ap, ==_iff, subst, ◌++◌, ◌==◌, is_empty, arith, some, none, ℕ,
  suc, String, Bool, true, false, ◌≡◌, refl, List, [], ◌∷◌, map, keep, inl, inr, Bool-cases,
  Option-cases,
}
use lokilinux.Http.{done}
use lokilinux.Python.{Result-cases}
use lokilinux.Jobs.Types.{JobStatus}
use lokilinux.Remediation.Payload.{append_entry, entries_for, sort_by, descending, sorted_ids}
use lokilinux.Remediation.Payload.Grouping.{
  entries_for-append_entry, sort_by-Perm, sort_by-IsSorted, IsSorted,
}
use lokilinux.Http.{done_injective}
use mathlib.Core.List.{append-nil, append_assoc, Permᴰ}
use lokilinux.Remediation.Types.{Action, PlanEntry, PlanStatus, PlanJob, Operation, Desk, is_ended}
use lokilinux.Remediation.Service.{Env, Caller, link}
use lokilinux.Remediation.Rollback.{
  newest_apply, rollback_map, rolling_back, rollback, reversible, keys, Undo, undo_entry, undo_all,
  mem_num,
}

abbrev pub for_agent : ℕ → Undo → Bool
for_agent a u = u.agent_id == a

abbrev pub bodies : List PlanEntry → List String
bodies es = map (λ (e : PlanEntry). e.rendered_body) es

abbrev pub undo_bodies : ℕ → List Undo → List String
undo_bodies a us = map (λ (u : Undo). u.body) (keep (for_agent a) us)

bodies_snoc :
    (es : List PlanEntry) (e : PlanEntry)
    → bodies (es ++ (e ∷ [])) ≡ bodies es ++ (e.rendered_body ∷ [])
bodies_snoc [] e = refl
bodies_snoc (x ∷ es) e = ap (λ bs. x.rendered_body ∷ bs) (bodies_snoc es e)

module _ (a : ℕ) (completed : List ℕ) where
  -- One round of the loop: an entry more for an agent that has completed, nothing for another.
  undo_all_takes :
      (seq : ℕ) (u : Undo) (us : List Undo) (m : List (ℕ × List PlanEntry))
      → mem_num u.agent_id completed ≡ true
      → undo_all completed seq (u ∷ us) m
        ≡ undo_all completed (suc seq) us (append_entry u.agent_id (undo_entry seq u) m)
  unfolding undo_all
  undo_all_takes seq u us m h = rw (h, undo_all) refl

  undo_all_skips :
      (seq : ℕ) (u : Undo) (us : List Undo) (m : List (ℕ × List PlanEntry))
      → mem_num u.agent_id completed ≡ false
      → undo_all completed seq (u ∷ us) m ≡ undo_all completed seq us m
  unfolding undo_all
  undo_all_skips seq u us m h = rw (h, undo_all) refl

  -- Another agent's entry changes nothing for this one.
  undo_all_aside :
      (seq : ℕ) (u : Undo) (m : List (ℕ × List PlanEntry))
      → (u.agent_id == a) ≡ false
      → entries_for a (append_entry u.agent_id (undo_entry seq u) m) ≡ entries_for a m
  undo_all_aside seq u m h = entries_for-append_entry a u.agent_id (undo_entry seq u) m ∙ rw h refl

  -- An agent that has completed the APPLY job gets all its bodies.
  undo_all_lem :
      mem_num a completed ≡ true
      → (seq : ℕ) (us : List Undo) (m : List (ℕ × List PlanEntry))
      → bodies (entries_for a (undo_all completed seq us m))
        ≡ bodies (entries_for a m) ++ undo_bodies a us
  unfolding undo_all
  undo_all_lem c seq [] m = sym (append-nil (bodies (entries_for a m)))
  undo_all_lem c seq (u ∷ us) m =
      let view : List (ℕ × List PlanEntry) → List String = λ n. bodies (entries_for a n) in
      let next = append_entry u.agent_id (undo_entry seq u) m in
      let ih = undo_all_lem c (suc seq) us next in
      let front : List String → List String = λ bs. bs ++ undo_bodies a us in
      let behind : List Undo → List String = λ vs. view m ++ map (λ (v : Undo). v.body) vs in
      elim (Bool-cases (u.agent_id == a)) [
        | inl h ↦
            let here : mem_num u.agent_id completed ≡ true =
              subst (λ n. mem_num n completed ≡ true) (sym ((==_iff u.agent_id a).0 h)) c in
            let s : entries_for a next ≡ entries_for a m ++ (undo_entry seq u ∷ []) =
              entries_for-append_entry a u.agent_id (undo_entry seq u) m ∙ rw h refl in
            ap view (undo_all_takes seq u us m here)
            ∙ ih
            ∙ ap front (ap bodies s ∙ bodies_snoc (entries_for a m) (undo_entry seq u))
            ∙ append_assoc (view m) (u.body ∷ []) (undo_bodies a us)
            ∙ ap behind (sym (keep-true (for_agent a) u us h))
        | inr h ↦ elim (Bool-cases (mem_num u.agent_id completed)) [
          | inl here ↦
              ap view (undo_all_takes seq u us m here)
              ∙ ih
              ∙ ap front (ap bodies (undo_all_aside seq u m h))
              ∙ ap behind (sym (keep-false (for_agent a) u us h))
          | inr gone ↦
              ap view (undo_all_skips seq u us m gone)
              ∙ undo_all_lem c seq us m
              ∙ ap behind (sym (keep-false (for_agent a) u us h))
        ]
      ]

  -- Another gets none.
  undo_all_none :
      mem_num a completed ≡ false
      → (seq : ℕ) (us : List Undo) (m : List (ℕ × List PlanEntry))
      → entries_for a (undo_all completed seq us m) ≡ entries_for a m
  unfolding undo_all
  undo_all_none c seq [] m = refl
  undo_all_none c seq (u ∷ us) m = elim (Bool-cases (mem_num u.agent_id completed)) [
    | inr gone ↦ ap (entries_for a) (undo_all_skips seq u us m gone) ∙ undo_all_none c seq us m
    | inl here ↦
        let next = append_entry u.agent_id (undo_entry seq u) m in
        let h : (u.agent_id == a) ≡ false = elim (Bool-cases (u.agent_id == a)) [
          | inr h ↦ h
          | inl h ↦
              let w = subst (λ n. mem_num n completed ≡ true) ((==_iff u.agent_id a).0 h) here in cc
        ] in
        ap (entries_for a) (undo_all_takes seq u us m here)
        ∙ undo_all_none c (suc seq) us next
        ∙ undo_all_aside seq u m h
  ]

-- The new desk `e` of a rollback: the plan is executed again, by a ROLLBACK job that is now the
-- newest, in which every agent of the newest APPLY job `j` that completed it finds the rollback
-- bodies of its own actions, each once, by descending sequence, and every other agent nothing.
pub record IsRolledBack (d e : Desk) : Type 0 where
  pub ended : is_ended d.plan.status ≡ true
  pub applied : PlanJob
  pub is_newest : newest_apply d.jobs ≡ some applied
  pub undoing : PlanJob
  pub newest : e.jobs ≡ undoing ∷ d.jobs
  pub operation : undoing.operation ≡ Operation.rollback
  pub executing : e.plan.status ≡ PlanStatus.executing
  pub order : List Action
  pub same : Permᴰ order d.actions
  pub descends : IsSorted descending order
  pub completed :
      (a : ℕ)
      → mem_num a applied.done_on ≡ true
      → bodies (entries_for a undoing.actions) ≡ undo_bodies a (reversible order)
  pub others : (a : ℕ) → mem_num a applied.done_on ≡ false → entries_for a undoing.actions ≡ []

module _ (d : Desk) (j : PlanJob) (id : ℕ) where
  rolling_back-IsRolledBack :
      is_ended d.plan.status ≡ true
      → newest_apply d.jobs ≡ some j
      → IsRolledBack d (rolling_back id (rollback_map j.done_on d.actions) d)
  unfolding rolling_back link rollback_map entries_for
  rolling_back-IsRolledBack n f = record {
    ended = n;
    applied = j;
    is_newest = f;
    undoing = record {
      id = id;
      operation = Operation.rollback;
      targets = sorted_ids (keys (rollback_map j.done_on d.actions));
      actions = rollback_map j.done_on d.actions;
      status = JobStatus.queued;
      completed_at = none;
      done_on = [];
    };
    newest = refl;
    operation = refl;
    executing = refl;
    order = sort_by descending d.actions;
    same = sort_by-Perm descending d.actions;
    descends =
        sort_by-IsSorted descending (λ x y z h k. ground arith) (λ x y h. ground arith) d.actions;
    completed = λ a c. undo_all_lem a j.done_on c 0 (reversible (sort_by descending d.actions)) [];
    others = λ a c. undo_all_none a j.done_on c 0 (reversible (sort_by descending d.actions)) [];
  }

module _ (env : Env) (c : Caller) (d e : Desk) where
  undone-IsRolledBack :
      (j : PlanJob)
      → is_ended d.plan.status ≡ true
      → newest_apply d.jobs ≡ some j
      → rollback env c d ≡ done e
      → IsRolledBack d e
  unfolding rollback
  undone-IsRolledBack j n f h = elim (Bool-cases (is_empty (rollback_map j.done_on d.actions))) [
    | inl x ↦ cc (simp (n, f, x) at h)
    | inr x ↦
        elim (Result-cases (
          env.create_job c.role (sorted_ids (keys (rollback_map j.done_on d.actions)))
            Operation.rollback (rollback_map j.done_on d.actions))) [
              | inr (y, o) ↦ cc (simp (n, f, x, o) at h)
              | inl (id, o) ↦
                  subst (IsRolledBack d) (done_injective _ e (simp (n, f, x, o) at h))
                    (rolling_back-IsRolledBack d j id n f)
            ]
  ]

  -- A rollback that goes through is of a plan that is COMPLETED or FAILED and has an APPLY job. It
  -- makes a ROLLBACK job, in which each agent that completed the newest APPLY job gets the rollback
  -- bodies of its own actions by descending sequence, and any other agent nothing.
  pub rollback-IsRolledBack : rollback env c d ≡ done e → IsRolledBack d e
  unfolding rollback
  rollback-IsRolledBack h = elim (Bool-cases (is_ended d.plan.status)) [
    | inr n ↦ cc (simp n at h)
    | inl n ↦ elim (Option-cases (newest_apply d.jobs)) [
      | inl f ↦ cc (simp (n, f) at h)
      | inr (j, f) ↦ undone-IsRolledBack j n f h
    ]
  ]
