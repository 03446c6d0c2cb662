-- ===== src/Workflow/Cycles.antt =====
-- services/workflow_compiler.py: the cycle search of `validate_graph`.
pub mod Steps
pub mod Rounds
pub mod Depth
pub mod Decides
use lokilinux.Prelude.{
  length, ℕ, zero, suc, String, Bool, Option, none, some, List, [], ◌∷◌, map, keep, if◌then◌else◌,
  str_eq,
}
use lokilinux.Workflow.Types.{Edge, Step}
use lokilinux.Workflow.Compiler.{Spec, step_ids}

pub data Color : Type 0 where
  white gray black : Color

-- The dict `color`: the latest entry of a step is its colour; all are white at first.
abbrev pub Colors : Type 0
Colors = List (String × Color)

unfoldable pub color : String → Colors → Color
color id [] = white
color id ((j, k) ∷ cs) = let rest = color id cs in if str_eq j id then k else rest

-- How a search ends: with `cycle_step`, with the colours as they stand, or without fuel.
pub data Search : Type 0 where
  found : String → Search
  clear : Colors → Search
  exhausted : Search

-- `adjacency[id]`, without the labels.
unfoldable pub adjacent : List Edge → String → List String
adjacent es id = map (λ (e : Edge). e.target) (keep (λ (e : Edge). str_eq e.source id) es)

-- `if _dfs(...): return True`, and what comes after it otherwise.
abbrev pub follow : Search → (Colors → Search) → Search
follow (found s) rest = found s
follow exhausted rest = exhausted
follow (clear c) rest = rest c

-- The loop of `_dfs` over the targets, with `_dfs` itself as `visit`.
unfoldable pub scan : (String → Colors → Search) → List String → Colors → Search
scan visit [] c = clear c
scan visit (t ∷ ts) c = elim (color t c) [
  | gray ↦ found t
  | black ↦ scan visit ts c
  | white ↦ follow (visit t c) (λ c'. scan visit ts c')
]

-- `_dfs`, on fuel for its depth; a step without a cycle behind it turns black.
unfoldable pub dfs : (String → List String) → ℕ → String → Colors → Search
unfolding scan
dfs next zero id c = exhausted
dfs next (suc n) id c =
    follow (scan (dfs next n) (next id) ((id, gray) ∷ c)) (λ c'. clear ((id, black) ∷ c'))

-- The loop `for sid in valid_ids`; the set's order is that of `ids`.
unfoldable pub search : (String → List String) → ℕ → List String → Colors → Search
unfolding dfs
search next n [] c = clear c
search next n (id ∷ ids) c = elim (color id c) [
  | white ↦ follow (dfs next n id c) (λ c'. search next n ids c')
  | _ ↦ search next n ids c
]

-- The cycle search of a document, with fuel for every step.
unfoldable pub find_cycle : Spec → Search
unfolding search adjacent step_ids
find_cycle spec =
    search (adjacent spec.edges) (length (step_ids spec.steps)) (step_ids spec.steps) []
