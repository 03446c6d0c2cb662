-- ===== src/Workflow/Compiler/Structure.antt =====
-- The structural checks decide well-formedness, which is what a tick of a new run needs.
use lokilinux.Prelude.{
  ℕ, suc, String, true, false, ◌≡◌, ◌↔◌, refl, sym, ap, subst, List, [], ◌∷◌, ◌++◌, Memᴰ, arith,
  eq_iff, str_eq, mem_str, Bool-cases, inl, inr,
}
use lokilinux.Workflow.Types.{StepRun, Step, Edge, lookup}
use lokilinux.Workflow.Ready.Totality.{IsCovered, HasRow}
use lokilinux.Workflow.Life.{start_rows}
use lokilinux.Workflow.Compiler.{
  Spec, step_ids, duplicate_issues, edge_issues, dangling_issues, structure_issues, build_graph,
}

-- No text twice.
abbrev pub Distinct : List String → Type 0
Distinct [] = Unit
Distinct (x ∷ xs) = (mem_str x xs ≡ false) × Distinct xs

-- Both ends of an edge are steps.
abbrev pub Joins : List String → Edge → Type 0
Joins ids e = (mem_str e.source ids ≡ true) × (mem_str e.target ids ≡ true)

-- The step ids are distinct and every edge joins two steps.
pub record IsWellFormed (spec : Spec) : Type 0 where
  pub distinct : Distinct (step_ids spec.steps)
  pub joined : (e : Edge) → Memᴰ e spec.edges → Joins (step_ids spec.steps) e

-- No member of the one list is in the other.
abbrev Apart : List String → List String → Type 0
Apart seen [] = Unit
Apart seen (x ∷ xs) = (mem_str x seen ≡ false) × Apart seen xs

Apart-cons :
    (x : String) (seen xs : List String)
    → Apart (x ∷ seen) xs
    → Apart seen xs × (mem_str x xs ≡ false)
Apart-cons x seen [] a = (tt, refl)
Apart-cons x seen (y ∷ ys) (h, a) =
    let (b, k) = Apart-cons x seen ys a in
    ((ground arith, b), ground (arith, k, eq_iff x y, eq_iff y x))

cons-Apart :
    (x : String) (seen xs : List String)
    → Apart seen xs
    → mem_str x xs ≡ false
    → Apart (x ∷ seen) xs
cons-Apart x seen [] a h = tt
cons-Apart x seen (y ∷ ys) (k, a) h =
    (ground (arith, k, eq_iff x y, eq_iff y x), cons-Apart x seen ys a (ground arith))

Apart-nil : (xs : List String) → Apart [] xs
Apart-nil [] = tt
Apart-nil (x ∷ xs) = (refl, Apart-nil xs)

duplicate_issues-nil :
    (seen : List String) (i : ℕ) (ids : List String)
    → duplicate_issues seen i ids ≡ []
    → Distinct ids × Apart seen ids
unfolding duplicate_issues
duplicate_issues-nil seen i [] h = (tt, tt)
duplicate_issues-nil seen i (x ∷ xs) h = elim (Bool-cases (mem_str x seen)) [
  | inl e ↦ cc (rw e at h)
  | inr e ↦
      let (d, a) = duplicate_issues-nil (x ∷ seen) (suc i) xs (rw e at h) in
      let (b, k) = Apart-cons x seen xs a in ((k, d), (e, b))
]

nil-duplicate_issues :
    (seen : List String) (i : ℕ) (ids : List String)
    → Distinct ids
    → Apart seen ids
    → duplicate_issues seen i ids ≡ []
unfolding duplicate_issues
nil-duplicate_issues seen i [] d a = refl
nil-duplicate_issues seen i (x ∷ xs) (k, d) (e, a) =
    rw e (nil-duplicate_issues (x ∷ seen) (suc i) xs d (cons-Apart x seen xs a k))

append_nil : {A : Type 0} (xs ys : List A) → xs ++ ys ≡ [] → (xs ≡ []) × (ys ≡ [])
append_nil [] ys h = (refl, h)
append_nil (x ∷ xs) ys h = cc

edge_issues-Joins : (ids : List String) (i : ℕ) (e : Edge) → edge_issues ids i e ≡ [] → Joins ids e
unfolding edge_issues
edge_issues-Joins ids i e h = elim (Bool-cases (mem_str e.source ids)) [
  | inr s ↦ cc (rw s at h)
  | inl s ↦ elim (Bool-cases (mem_str e.target ids)) [
    | inr t ↦ cc (rw (s, t) at h)
    | inl t ↦ (s, t)
  ]
]

Joins-edge_issues : (ids : List String) (i : ℕ) (e : Edge) → Joins ids e → edge_issues ids i e ≡ []
unfolding edge_issues
Joins-edge_issues ids i e (s, t) = simp (s, t) refl

dangling_issues-Joins :
    (ids : List String) (i : ℕ) (es : List Edge)
    → dangling_issues ids i es ≡ []
    → (e : Edge) → Memᴰ e es
    → Joins ids e
unfolding dangling_issues
dangling_issues-Joins ids i [] h e m = elim m [ ]
dangling_issues-Joins ids i (x ∷ es) h e (Memᴰ.head k) = subst (Joins ids) (sym k) (
    edge_issues-Joins ids i x
      (append_nil (edge_issues ids i x) (dangling_issues ids (suc i) es) h).0)
dangling_issues-Joins ids i (x ∷ es) h e (Memᴰ.tail m) =
    dangling_issues-Joins ids (suc i) es
      (append_nil (edge_issues ids i x) (dangling_issues ids (suc i) es) h).1 e m

Joins-dangling_issues :
    (ids : List String) (i : ℕ) (es : List Edge)
    → ((e : Edge) → Memᴰ e es → Joins ids e)
    → dangling_issues ids i es ≡ []
unfolding dangling_issues
Joins-dangling_issues ids i [] h = refl
Joins-dangling_issues ids i (x ∷ es) h =
    rw (Joins-edge_issues ids i x (h x (Memᴰ.head refl)))
      (Joins-dangling_issues ids (suc i) es (λ e m. h e (Memᴰ.tail m)))

-- The first checks of the compiler find nothing exactly where the step ids are distinct and every
-- edge joins two steps.
pub structure_issues-IsWellFormed : (spec : Spec) → (structure_issues spec ≡ []) ↔ IsWellFormed spec
unfolding structure_issues
structure_issues-IsWellFormed spec = (well_formed, no_issue)
  where
    ids : List String
    ids = step_ids spec.steps

    well_formed : structure_issues spec ≡ [] → IsWellFormed spec
    well_formed h =
        let (d, e) =
          append_nil (duplicate_issues [] 0 (step_ids spec.steps))
            (dangling_issues (step_ids spec.steps) 0 spec.edges) h in
        record {
          distinct = (duplicate_issues-nil [] 0 (step_ids spec.steps) d).0;
          joined = dangling_issues-Joins (step_ids spec.steps) 0 spec.edges e;
        }

    no_issue : IsWellFormed spec → structure_issues spec ≡ []
    no_issue w =
        rw
          (nil-duplicate_issues [] 0 (step_ids spec.steps) w.distinct
            (Apart-nil (step_ids spec.steps)))
          (Joins-dangling_issues (step_ids spec.steps) 0 spec.edges w.joined)

HasRow-first :
    (r : StepRun) (rs : List StepRun) (id : String)
    → str_eq r.step_id id ≡ true
    → HasRow (r ∷ rs) id
unfolding lookup
HasRow-first r rs id e = (r, rw e refl)

mem-HasRow :
    (ss : List Step) (id : String) → mem_str id (step_ids ss) ≡ true → HasRow (start_rows ss) id
unfolding step_ids start_rows lookup
mem-HasRow [] id h = cc
mem-HasRow (s ∷ ss) id h = elim (Bool-cases (str_eq s.id id)) [
  | inl e ↦ HasRow-first _ (start_rows ss) id e
  | inr e ↦ let (r, there) = mem-HasRow ss id (ground arith) in (r, rw e there)
]

step_ids-Mem : (ss : List Step) (s : Step) → Memᴰ s ss → mem_str s.id (step_ids ss) ≡ true
unfolding step_ids
step_ids-Mem [] s m = elim m [ ]
step_ids-Mem (x ∷ ss) s (Memᴰ.head e) =
    let f : s.id ≡ x.id = ap (λ (y : Step). y.id) e in ground (arith, f, eq_iff x.id s.id)
step_ids-Mem (x ∷ ss) s (Memᴰ.tail m) = ground (arith, step_ids-Mem ss s m)

-- The graph of a document in which the first checks find nothing is covered by the rows of a new
-- run: every step and every edge source has its row, so that no lookup of a tick misses.
pub build_graph-IsCovered :
    (spec : Spec)
    → structure_issues spec ≡ []
    → IsCovered (build_graph spec) (start_rows (build_graph spec).steps)
unfolding build_graph
build_graph-IsCovered spec h =
    let w : IsWellFormed spec = (structure_issues-IsWellFormed spec).0 h in
    record {
      steps = λ s m. mem-HasRow spec.steps s.id (step_ids-Mem spec.steps s m);
      sources = λ e m. mem-HasRow spec.steps e.source (w.joined e m).0;
    }
