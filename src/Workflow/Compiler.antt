-- ===== src/Workflow/Compiler.antt =====
-- services/workflow_compiler.py: the first checks of `validate_graph`, on step ids and edges, and
-- `build_graph`.
pub mod Structure
pub mod Entries
use lokilinux.Prelude.{
  ℕ, suc, zero, ◌+◌, String, Bool, true, false, Option, none, some, List, [], ◌∷◌, ◌++◌, map,
  if◌then◌else◌, mem_str, str_eq, ◌==◌,
}
use lokilinux.Workflow.Types.{Step, Edge, Graph}

-- `WorkflowSpec`, as the compiler reads it.
pub record Spec : Type 0 where
  pub steps : List Step
  pub edges : List Edge

-- `ValidationIssue` of these checks, with the index of the step or edge and the id.
pub data Issue : Type 0 where
  duplicate_step_id dangling_source dangling_target : ℕ → String → Issue

unfoldable pub step_ids : List Step → List String
step_ids ss = map (λ (s : Step). s.id) ss

-- The loop over `enumerate(step_ids)`, with the set `seen`.
unfoldable pub duplicate_issues : List String → ℕ → List String → List Issue
duplicate_issues seen i [] = []
duplicate_issues seen i (id ∷ ids) =
    let rest = duplicate_issues (id ∷ seen) (suc i) ids in
    if mem_str id seen then duplicate_step_id i id ∷ rest else rest

-- The body of the loop over `enumerate(edges)`, and the loop.
unfoldable pub edge_issues : List String → ℕ → Edge → List Issue
edge_issues ids i e =
    (if mem_str e.source ids then [] else dangling_source i e.source ∷ [])
    ++ (if mem_str e.target ids then [] else dangling_target i e.target ∷ [])

unfoldable pub dangling_issues : List String → ℕ → List Edge → List Issue
unfolding edge_issues
dangling_issues ids i [] = []
dangling_issues ids i (e ∷ es) = edge_issues ids i e ++ dangling_issues ids (suc i) es

-- The errors at the first `if errors: return errors, warnings`.
unfoldable pub structure_issues : Spec → List Issue
unfolding step_ids duplicate_issues dangling_issues
structure_issues spec =
    duplicate_issues [] 0 (step_ids spec.steps)
    ++ dangling_issues (step_ids spec.steps) 0 spec.edges

-- `incoming[id]` of `build_graph`
unfoldable pub incoming : String → List Edge → ℕ
incoming id [] = 0
incoming id (e ∷ es) = let rest = incoming id es in if str_eq e.target id then 1 + rest else rest

-- `entry_ids`
unfoldable pub entry_ids : List Edge → List Step → List String
unfolding incoming
entry_ids es [] = []
entry_ids es (s ∷ ss) =
    let rest = entry_ids es ss in if incoming s.id es == 0 then s.id ∷ rest else rest

-- `build_graph`
unfoldable pub build_graph : Spec → Graph
unfolding entry_ids
build_graph spec = record {
  steps = spec.steps;
  edges = spec.edges;
  entry_ids = entry_ids spec.edges spec.steps;
}
