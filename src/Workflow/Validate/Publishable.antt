-- ===== src/Workflow/Validate/Publishable.antt =====
-- What the engine may rely on in a document in which the compiler finds no error.
use lokilinux.Prelude.{
  ◌∙◌, is_empty, any, any-true, not, ◌&&◌, false, subst, sym, String, Bool, true, ◌≡◌, refl, List,
  [], ◌∷◌, ◌++◌, Memᴰ, arith, Bool-cases, inl, inr, map, ap,
}
use lokilinux.Workflow.Validate.{
  structural, late_problems, after_search, validate_graph, step_issues, condition_issues,
  branch_issues, config_issues, at_step, is_branch, is_condition, leaves_on_failure, type_issues,
  wait_issues,
}
use lokilinux.Workflow.Compiler.{structure_issues, entry_ids, build_graph, Spec}
use lokilinux.Workflow.Compiler.Structure.{structure_issues-IsWellFormed, IsWellFormed}
use lokilinux.Workflow.Cycles.{Search, found, clear, exhausted, find_cycle, adjacent}
use lokilinux.Workflow.Cycles.Decides.{Decision, find_cycle-Decision}
use lokilinux.Python.{Value, str, get, truthy, or_else, is_text}
use lokilinux.Workflow.Types.{NodeType, Step, Edge, StepRun, StepStatus, normalize_type}
use lokilinux.Workflow.Sync.{Env, is_wait}
use lokilinux.Workflow.Ready.{run_wait}
use lokilinux.Workflow.Cycles.Steps.{Reach}

pub record IsPublishable (is_refused : Value → Bool) (spec : Spec) : Type 0 where
  pub well_formed : IsWellFormed spec
  pub acyclic : (a : String) → Reach (adjacent spec.edges) a a → ⊥
  pub entered : is_empty (build_graph spec).entry_ids ≡ false
  pub conditions :
      (s : Step)
      → Memᴰ s spec.steps
      → is_condition s.node_type ≡ true
      → (truthy (get s.config "expression") ≡ true)
        × (is_refused (get s.config "expression") ≡ false)
  pub branches :
      (s : Step)
      → Memᴰ s spec.steps
      → is_branch s.on_failure ≡ true
      → (e : Edge) × Memᴰ e spec.edges × (leaves_on_failure s.id e ≡ true)
  pub waits :
      (env : Env) (s : Step) (sr : StepRun)
      → Memᴰ s spec.steps
      → is_wait s.node_type ≡ true
      → (run_wait env s sr).status ≡ StepStatus.running

append_nil : {A : Type 0} (xs ys : List A) → xs ++ ys ≡ [] → (xs ≡ []) × (ys ≡ [])
append_nil [] ys h = (refl, h)
append_nil (x ∷ xs) ys h = cc

map_nil : {A B : Type 0} (f : A → B) (xs : List A) → map f xs ≡ [] → xs ≡ []
map_nil f [] h = refl
map_nil f (x ∷ xs) h = cc

is_empty-nil : {A : Type 0} (xs : List A) → is_empty xs ≡ true → xs ≡ []
is_empty-nil [] h = refl
is_empty-nil (x ∷ xs) h = cc

wait_issues-nil :
    (env : Env) (s : Step) (sr : StepRun)
    → wait_issues s ≡ []
    → (run_wait env s sr).status ≡ StepStatus.running
unfolding wait_issues run_wait
wait_issues-nil env s sr h =
    elim (Bool-cases (is_text (or_else (get s.config "mode") (str "agent")) "condition")) [
      | inl e ↦ cc (rw e at h)
      | inr e ↦ simp e refl
    ]

type_issues-wait :
    (s : Step)
    → is_wait s.node_type ≡ true
    → type_issues (normalize_type s.node_type) s ≡ wait_issues s
unfolding type_issues is_wait
type_issues-wait s h = by_type (normalize_type s.node_type) h
  where
    by_type :
        (t : NodeType)
        → (elim t [ NodeType.wait ↦ true | _ ↦ false ]) ≡ true
        → type_issues t s ≡ wait_issues s
    by_type t k = ground arith

config_issues-wait :
    (ss : List Step) (s : Step)
    → config_issues ss ≡ []
    → Memᴰ s ss
    → is_wait s.node_type ≡ true
    → wait_issues s ≡ []
unfolding config_issues
config_issues-wait [] s h m w = elim m [ ]
config_issues-wait (x ∷ ss) s h (Memᴰ.head e) w =
    let k = (append_nil (type_issues (normalize_type x.node_type) x) (config_issues ss) h).0 in
    let k' : type_issues (normalize_type s.node_type) s ≡ [] =
      subst (λ (y : Step). type_issues (normalize_type y.node_type) y ≡ []) (sym e) k in
    sym (type_issues-wait s w) ∙ k'
config_issues-wait (x ∷ ss) s h (Memᴰ.tail m) w =
    config_issues-wait ss s
      (append_nil (type_issues (normalize_type x.node_type) x) (config_issues ss) h).1 m w

-- A branch step without a failure edge is an issue.
branch_head :
    (es : List Edge) (x : Step) (ss : List Step)
    → branch_issues es (x ∷ ss) ≡ []
    → (is_branch x.on_failure ≡ true → any (leaves_on_failure x.id) es ≡ true)
      × (branch_issues es ss ≡ [])
unfolding branch_issues
branch_head es x ss h =
    elim (Bool-cases (is_branch x.on_failure && not (any (leaves_on_failure x.id) es))) [
      | inl e ↦ cc (rw e at h)
      | inr e ↦ ((λ b. ground (arith, e, b)), rw e at h)
    ]

branch_issues-nil :
    (es : List Edge) (ss : List Step) (s : Step)
    → branch_issues es ss ≡ []
    → Memᴰ s ss
    → is_branch s.on_failure ≡ true
    → any (leaves_on_failure s.id) es ≡ true
branch_issues-nil es [] s h m b = elim m [ ]
branch_issues-nil es (x ∷ ss) s h (Memᴰ.head e) b =
    subst (λ (y : Step). any (leaves_on_failure y.id) es ≡ true) (sym e)
      ((branch_head es x ss h).0 (subst (λ (y : Step). is_branch y.on_failure ≡ true) e b))
branch_issues-nil es (x ∷ ss) s h (Memᴰ.tail m) b =
    branch_issues-nil es ss s (branch_head es x ss h).1 m b

module _ (is_refused : Value → Bool) where
  abbrev HasExpression : Step → Type 0
  HasExpression s =
      is_condition s.node_type ≡ true
      → (truthy (get s.config "expression") ≡ true)
        × (is_refused (get s.config "expression") ≡ false)

  condition_head :
      (x : Step) (ss : List Step)
      → condition_issues is_refused (x ∷ ss) ≡ []
      → HasExpression x × (condition_issues is_refused ss ≡ [])
  unfolding condition_issues
  condition_head x ss h = elim (Bool-cases (is_condition x.node_type)) [
    | inr c ↦ ((λ k. cc (c, k)), rw c at h)
    | inl c ↦ elim (Bool-cases (truthy (get x.config "expression"))) [
      | inr t ↦ cc (rw (c, t) at h)
      | inl t ↦ elim (Bool-cases (is_refused (get x.config "expression"))) [
        | inl r ↦ cc (rw (c, t, r) at h)
        | inr r ↦ ((λ k. (t, r)), rw (c, t, r) at h)
      ]
    ]
  ]

  condition_issues-nil :
      (ss : List Step) (s : Step)
      → condition_issues is_refused ss ≡ []
      → Memᴰ s ss
      → HasExpression s
  condition_issues-nil [] s h m = elim m [ ]
  condition_issues-nil (x ∷ ss) s h (Memᴰ.head e) =
      subst HasExpression (sym e) (condition_head x ss h).0
  condition_issues-nil (x ∷ ss) s h (Memᴰ.tail m) =
      condition_issues-nil ss s (condition_head x ss h).1 m

  module _ (spec : Spec) where
    late_problems-nil :
        late_problems is_refused spec ≡ []
        → (is_empty (entry_ids spec.edges spec.steps) ≡ false) × (step_issues is_refused spec ≡ [])
    unfolding late_problems
    late_problems-nil h = elim (Bool-cases (is_empty (entry_ids spec.edges spec.steps))) [
      | inl e ↦ cc (rw e at h)
      | inr e ↦ (e, map_nil at_step (step_issues is_refused spec) (rw e at h))
    ]

    acyclic_after :
        (s : Search)
        → Decision spec s
        → after_search is_refused spec s ≡ []
        → ((a : String) → Reach (adjacent spec.edges) a a → ⊥)
          × (late_problems is_refused spec ≡ [])
    unfolding after_search
    acyclic_after (found s) d h = cc h
    acyclic_after (clear c) d h = (d, h)
    acyclic_after exhausted d h = absurd d

    entered_lem :
        is_empty (entry_ids spec.edges spec.steps) ≡ false
        → is_empty (build_graph spec).entry_ids ≡ false
    unfolding build_graph
    entered_lem h = h

    from_late :
        structure_issues spec ≡ []
        → after_search is_refused spec (find_cycle spec) ≡ []
        → IsPublishable is_refused spec
    unfolding step_issues
    from_late h k =
        let (acyclic, late) = acyclic_after (find_cycle spec) (find_cycle-Decision spec h) k in
        let (entered, issues) = late_problems-nil late in
        let (first, configs) =
          append_nil (condition_issues is_refused spec.steps ++ branch_issues spec.edges spec.steps)
            (config_issues spec.steps) issues in
        let (c, b) =
          append_nil (condition_issues is_refused spec.steps) (branch_issues spec.edges spec.steps)
            first in
        record {
          well_formed = (structure_issues-IsWellFormed spec).0 h;
          acyclic = acyclic;
          entered = entered_lem entered;
          conditions = λ s m. condition_issues-nil spec.steps s c m;
          branches = λ s m on.
              any-true (leaves_on_failure s.id) spec.edges
                (branch_issues-nil spec.edges spec.steps s b m on);
          waits = λ env s sr m w.
              wait_issues-nil env s sr (config_issues-wait spec.steps s configs m w);
        }

    -- A document in which `validate_graph` finds no error has distinct step ids, edges between its
    -- steps, no cycle and an entry point; its condition steps have an expression that is not
    -- refused, its branch steps an edge for a failure, and no wait step fails when a tick starts it.
    pub validate_graph-IsPublishable :
        validate_graph is_refused spec ≡ [] → IsPublishable is_refused spec
    unfolding validate_graph
    validate_graph-IsPublishable h = elim (Bool-cases (is_empty (structure_issues spec))) [
      | inl e ↦ from_late (is_empty-nil (structure_issues spec) e) (rw e at h)
      | inr e ↦
          let k : structure_issues spec ≡ [] =
            map_nil structural (structure_issues spec) (rw e at h) in
          cc (e, ap is_empty k)
    ]
