-- ===== src/Workflow/Validate.antt =====
-- services/workflow_compiler.py: the checks of each step's configuration, and `validate_graph`.
pub mod Publishable
use lokilinux.Prelude.{
  String, Bool, true, false, not, ◌&&◌, Option, none, some, List, [], ◌∷◌, ◌++◌, if◌then◌else◌, any,
  is_empty, str_eq, map,
}
use lokilinux.Python.{Value, str, get, truthy, or_else, is_text}
use lokilinux.Workflow.Types.{NodeType, EdgeOn, OnFailure, Step, Edge, normalize_type}
use lokilinux.Workflow.Compiler.{Spec, Issue, structure_issues, entry_ids}
use lokilinux.Workflow.Cycles.{Search, found, clear, exhausted, find_cycle}

pub data Code : Type 0 where
  invalid_action missing_required_field unsupported_action invalid_check_type : Code
  unsupported_mode invalid_mode condition_missing_expression : Code
  condition_invalid_expression branch_without_failure_edge : Code

-- A `ValidationIssue` at a key of a step's configuration, or at its `on_failure`.
pub record StepIssue : Type 0 where
  pub code : Code
  pub key : String
  pub step_id : String

abbrev cfg_error : Step → String → Code → List StepIssue
cfg_error s key code = record { code = code; key = key; step_id = s.id } ∷ []

-- `v in (...)` for a tuple of texts
abbrev pub in_texts : Value → List String → Bool
in_texts v ts = any (is_text v) ts

-- `_require_field`
unfoldable pub require_field : Step → String → List StepIssue
require_field s key =
    if truthy (get s.config key) then [] else cfg_error s key Code.missing_required_field

abbrev service_actions : List String
service_actions = "start" ∷ "stop" ∷ "restart" ∷ "reload" ∷ "enable" ∷ "disable" ∷ []

abbrev system_actions : List String
system_actions = "reboot" ∷ "shutdown" ∷ "hostname" ∷ "timezone" ∷ "sysctl" ∷ []

abbrev file_actions : List String
file_actions = "create" ∷ "template" ∷ "delete" ∷ "copy" ∷ "chmod" ∷ "chown" ∷ []

abbrev check_types : List String
check_types =
    "command" ∷ "service" ∷ "port" ∷ "package" ∷ "file" ∷ "process" ∷ "os" ∷ "disk" ∷ "network" ∷ []

unfoldable pub service_issues : Step → List StepIssue
unfolding require_field
service_issues s =
    (if in_texts (get s.config "action") service_actions
      then []
      else cfg_error s "action" Code.invalid_action)
    ++ require_field s "name"

unfoldable pub system_issues : Step → List StepIssue
unfolding require_field
system_issues s =
    let action = get s.config "action" in
    if not (in_texts action system_actions)
    then cfg_error s "action" Code.invalid_action
    else if in_texts action ("hostname" ∷ "timezone" ∷ [])
    then require_field s "value"
    else if is_text action "sysctl"
    then require_field s "key" ++ require_field s "value"
    else []

unfoldable pub file_issues : Step → List StepIssue
unfolding require_field
file_issues s =
    (if in_texts (get s.config "action") file_actions
      then []
      else cfg_error s "action" Code.invalid_action)
    ++ require_field s "path"
    ++ (if is_text (get s.config "action") "copy" then require_field s "source" else [])

unfoldable pub package_issues : Step → List StepIssue
package_issues s =
    let action = or_else (get s.config "action") (str "install") in
    if is_text action "downgrade"
    then cfg_error s "action" Code.unsupported_action
    else if not (in_texts action ("install" ∷ "update" ∷ "remove" ∷ []))
    then cfg_error s "action" Code.invalid_action
    else if is_text action "remove" && not (truthy (get s.config "packages"))
    then cfg_error s "packages" Code.missing_required_field
    else []

-- The key that a check of a type needs.
unfoldable pub check_key : Value → String
check_key v =
    if is_text v "command"
    then "command"
    else if is_text v "process"
    then "name"
    else if is_text v "service"
    then "service"
    else if is_text v "port"
    then "port"
    else if is_text v "package"
    then "name"
    else if is_text v "file"
    then "path"
    else if is_text v "os"
    then "distro"
    else if is_text v "disk"
    then "min_free_gb"
    else "host"

unfoldable pub check_issues : Step → List StepIssue
unfolding require_field check_key
check_issues s =
    let check_type = or_else (get s.config "type") (str "command") in
    if not (in_texts check_type check_types)
    then cfg_error s "type" Code.invalid_check_type
    else require_field s (check_key check_type)

unfoldable pub wait_issues : Step → List StepIssue
wait_issues s =
    let mode = or_else (get s.config "mode") (str "agent") in
    if is_text mode "condition"
    then cfg_error s "mode" Code.unsupported_mode
    else if not (in_texts mode ("agent" ∷ "duration" ∷ []))
    then cfg_error s "mode" Code.invalid_mode
    else []

-- One round of `_validate_step_configs`, by the normalised type.
unfoldable pub type_issues : NodeType → Step → List StepIssue
unfolding service_issues system_issues file_issues package_issues check_issues wait_issues
type_issues NodeType.service s = service_issues s
type_issues NodeType.system s = system_issues s
type_issues NodeType.file s = file_issues s
type_issues NodeType.package_node s = package_issues s
type_issues NodeType.check s = check_issues s
type_issues NodeType.wait s = wait_issues s
type_issues _ s = []

unfoldable pub config_issues : List Step → List StepIssue
unfolding type_issues normalize_type
config_issues [] = []
config_issues (s ∷ ss) = type_issues (normalize_type s.node_type) s ++ config_issues ss

abbrev pub is_condition : NodeType → Bool
is_condition NodeType.condition = true
is_condition _ = false

abbrev pub is_branch : Option OnFailure → Bool
is_branch (some OnFailure.branch) = true
is_branch _ = false

abbrev is_on_failure : EdgeOn → Bool
is_on_failure EdgeOn.failure = true
is_on_failure _ = false

-- An entry ("failure" among the labels) of `adjacency[id]`.
abbrev pub leaves_on_failure : String → Edge → Bool
leaves_on_failure id e = str_eq e.source id && is_on_failure e.on

-- The loop over the steps with `on_failure: branch`.
unfoldable pub branch_issues : List Edge → List Step → List StepIssue
branch_issues es [] = []
branch_issues es (s ∷ ss) =
    (if is_branch s.on_failure && not (any (leaves_on_failure s.id) es)
      then cfg_error s "on_failure" Code.branch_without_failure_edge
      else [])
    ++ branch_issues es ss

-- `ValidationIssue` of the errors of `validate_graph`.
pub data Problem : Type 0 where
  structural : Issue → Problem
  cycle_detected : String → Problem
  no_entry_point : Problem
  at_step : StepIssue → Problem

-- `str(expression)` is refused by `validate_expression`.
module _ (is_refused : Value → Bool) where
  -- The loop over the condition steps.
  unfoldable pub condition_issues : List Step → List StepIssue
  condition_issues [] = []
  condition_issues (s ∷ ss) =
      (if not (is_condition s.node_type)
        then []
        else if not (truthy (get s.config "expression"))
        then cfg_error s "expression" Code.condition_missing_expression
        else if is_refused (get s.config "expression")
        then cfg_error s "expression" Code.condition_invalid_expression
        else [])
      ++ condition_issues ss

  unfoldable pub step_issues : Spec → List StepIssue
  unfolding condition_issues branch_issues config_issues
  step_issues spec =
      condition_issues spec.steps ++ branch_issues spec.edges spec.steps ++ config_issues spec.steps

  -- What follows the cycle search.
  unfoldable pub late_problems : Spec → List Problem
  unfolding step_issues
  late_problems spec =
      if is_empty (entry_ids spec.edges spec.steps)
      then no_entry_point ∷ []
      else map at_step (step_issues spec)

  unfoldable pub after_search : Spec → Search → List Problem
  unfolding late_problems
  after_search spec (found s) = cycle_detected s ∷ []
  after_search spec (clear c) = late_problems spec
  after_search spec exhausted = late_problems spec

  -- The errors of `validate_graph`.
  unfoldable pub validate_graph : Spec → List Problem
  unfolding after_search
  validate_graph spec =
      if is_empty (structure_issues spec)
      then after_search spec (find_cycle spec)
      else map structural (structure_issues spec)
