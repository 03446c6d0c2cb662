-- ===== src/Workflow/Ready/Stability.antt =====
-- A tick leaves alone every step run that is no longer pending.
use lokilinux.Prelude.{
  String, true, false, ◌≡◌, refl, sym, ◌∙◌, ◌⊎◌, inl, inr, some, List, [], ◌∷◌, str_eq, eq_iff,
  Bool-cases,
}
use lokilinux.Workflow.Types.{Step, Graph, StepRun, lookup, put, is_pending}
use lokilinux.Workflow.Runs.{step_id-lookup, lookup-put_self, lookup-put_ne}
use lokilinux.Workflow.Sync.{Env}
use lokilinux.Workflow.Ready.{Tick, Progress, go, halt, visit, visit_all}
use lokilinux.Workflow.Ready.Visits.{
  Visit, unchanged, stopped, decided, rolled_back, lost, visit-Visit,
}

-- A property of the session, wherever the loop stands or stops.
abbrev pub Holds {ℓ} : (Tick → Type ℓ) → Progress → Type ℓ
Holds P (go t) = P t
Holds P (halt e t) = P t

Holds-then {ℓ} :
    (P : Tick → Type ℓ) (p : Progress) (f : Tick → Progress)
    → Holds P p
    → ((t : Tick) → P t → Holds P (f t))
    → Holds P (elim p [ go t' ↦ f t' | halt e t' ↦ halt e t' ])
Holds-then P (go t) f h k = k t h
Holds-then P (halt e t) f h k = h

-- The loop keeps what each of its rounds keeps.
pub visit_all_induction {ℓ} :
    (P : Tick → Type ℓ) (env : Env) (g : Graph)
    → ((s : Step) (t : Tick) → P t → Holds P (visit env g s t))
    → (ss : List Step) (t : Tick) → P t
    → Holds P (visit_all env g ss t)
unfolding visit_all
visit_all_induction P env g keep [] t h = h
visit_all_induction P env g keep (s ∷ ss) t h =
    Holds-then P (visit env g s t) (λ u. visit_all env g ss u) (keep s t h)
      (λ u k. visit_all_induction P env g keep ss u k)

-- A row that replaces a pending one leaves the rows that are not pending.
pub put_keeps :
    (r p q : StepRun) (id : String) (rs : List StepRun)
    → lookup p.step_id rs ≡ some p
    → r.step_id ≡ p.step_id
    → is_pending p.status ≡ true
    → lookup id rs ≡ some q
    → is_pending q.status ≡ false
    → lookup id (put r rs) ≡ some q
put_keeps r p q id rs found same waits h past = lookup-put_ne r id rs (λ e. clash e) ∙ h
  where
    clash : r.step_id ≡ id → ⊥
    clash e = cc

-- Every pending row is as it was when the session was last saved.
abbrev pub IsFresh : Tick → Type 0
IsFresh t =
    (id : String) (p : StepRun)
    → lookup id t.runs ≡ some p
    → is_pending p.status ≡ true
    → lookup id t.saved ≡ some p

-- The row of `id` is `q`, in the session and in the database.
abbrev pub Has : String → StepRun → Tick → Type 0
Has id q t = (lookup id t.runs ≡ some q) × (lookup id t.saved ≡ some q)

-- A row that is pending after `put` was there, under another id than the new row's.
pending-put :
    (r p : StepRun) (id : String) (rs : List StepRun)
    → (q : StepRun) → lookup r.step_id rs ≡ some q
    → is_pending r.status ≡ false
    → lookup id (put r rs) ≡ some p
    → is_pending p.status ≡ true
    → lookup id rs ≡ some p
pending-put r p id rs q there past h waits = elim (Bool-cases (str_eq r.step_id id)) [
  | inl same ↦ absurd (clash ((eq_iff r.step_id id).0 same))
  | inr other ↦ sym (lookup-put_ne r id rs (λ e. differs e other)) ∙ h
]
  where
    clash : r.step_id ≡ id → ⊥
    clash e = cc (lookup-put_self r q rs there)

    differs : r.step_id ≡ id → str_eq r.step_id id ≡ false → ⊥
    differs e f = cc ((eq_iff r.step_id id).1 e)

module _ (id : String) (q : StepRun) (past : is_pending q.status ≡ false) (env : Env) (g : Graph)
    (s : Step) (t : Tick) where
  Visit-keeps :
      {p : Progress}
      → Visit env g s t p
      → IsFresh t × Has id q t
      → Holds (λ u. IsFresh u × Has id q u) p
  unfolding is_pending
  Visit-keeps unchanged h = h
  Visit-keeps (stopped e why) h = h
  Visit-keeps (decided rd sr r t' found waits edges d runs saved kept flag) (fresh, has) =
      (fresh', (keeps, saved_keeps saved))
    where
      same : sr.step_id ≡ s.id
      same = step_id-lookup s.id t.runs sr found

      found' : lookup sr.step_id t.runs ≡ some sr
      found' = cc same

      there : lookup r.step_id t.runs ≡ some sr
      there = cc (same, d.same_step)

      keeps : lookup id t'.runs ≡ some q
      keeps = rw runs (put_keeps r sr q id t.runs found' d.same_step waits has.0 past)

      saved_keeps : (t'.saved ≡ t.saved) ⊎ (t'.saved ≡ t.runs) → lookup id t'.saved ≡ some q
      saved_keeps (inl e) = rw e has.1
      saved_keeps (inr e) = rw e has.0

      fresh_in :
          (t'.saved ≡ t.saved) ⊎ (t'.saved ≡ t.runs)
          → (j : String) (p : StepRun) → lookup j t.runs ≡ some p
          → is_pending p.status ≡ true
          → lookup j t'.saved ≡ some p
      fresh_in (inl e) j p h w = rw e (fresh j p h w)
      fresh_in (inr e) j p h w = rw e h

      fresh' : IsFresh t'
      fresh' j p h w =
          fresh_in saved j p (pending-put r p j t.runs sr there d.started (rw runs at h) w) w
  Visit-keeps (rolled_back p sr r t' race found waits there same status runs saved flag)
        (fresh, has) =
      (fresh', (keeps, rw saved has.1))
    where
      id-p : p.step_id ≡ s.id
      id-p = step_id-lookup s.id t.runs p found

      id-sr : sr.step_id ≡ s.id
      id-sr = step_id-lookup s.id t.saved sr there

      was : lookup s.id t.saved ≡ some p
      was = fresh s.id p found waits

      there' : lookup sr.step_id t.saved ≡ some sr
      there' = cc id-sr

      at_r : lookup r.step_id t.saved ≡ some sr
      at_r = cc (id-sr, same)

      waits' : is_pending sr.status ≡ true
      waits' = cc was

      started : is_pending r.status ≡ false
      started = rw status refl

      keeps : lookup id t'.runs ≡ some q
      keeps = rw runs (put_keeps r sr q id t.saved there' same waits' has.1 past)

      fresh' : IsFresh t'
      fresh' j k h w = rw saved (pending-put r k j t.saved sr at_r started (rw runs at h) w)
  Visit-keeps (lost e t' race gone runs saved) (fresh, has) =
      (λ j k h w. rw saved (rw runs at h), (rw runs has.1, rw saved has.1))

  -- One round leaves a row that is not pending as it is, and keeps the pending rows fresh.
  pub visit-Has : IsFresh t × Has id q t → Holds (λ u. IsFresh u × Has id q u) (visit env g s t)
  visit-Has = Visit-keeps (visit-Visit env g s t)
