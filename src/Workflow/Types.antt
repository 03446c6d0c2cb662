-- ===== src/Workflow/Types.antt =====
-- schemas/workflow.py and models/workflow.py: steps, edges, graphs, runs and step runs.
use lokilinux.Prelude.{
  ℕ, String, Bool, true, false, Option, none, some, List, [], ◌∷◌, if◌then◌else◌, str_eq,
}
use lokilinux.Python.{Fields}
use lokilinux.Jobs.Types.{JobStatus}

-- `WorkflowNodeType`; `package` and `end` carry a suffix.
pub data NodeType : Type 0 where
  start end_node command ansible package_node service file system : NodeType
  condition approval wait check notification webhook : NodeType
  validation wait_for_agent : NodeType

-- `WorkflowEdge.on`
pub data EdgeOn : Type 0 where
  success failure always : EdgeOn

-- `WorkflowStep.on_failure`
pub data OnFailure : Type 0 where
  stop continue branch : OnFailure

pub record StepRetry : Type 0 where
  pub attempts : ℕ
  pub delay : ℕ

pub record Step : Type 0 where
  pub id : String
  pub node_type : NodeType
  pub name : String
  pub config : Fields
  pub disabled : Bool
  pub timeout : Option ℕ
  pub retry : Option StepRetry
  pub on_failure : Option OnFailure

-- `from_`, `to` and `on`
pub record Edge : Type 0 where
  pub source : String
  pub target : String
  pub on : EdgeOn

-- `CompiledGraph`, without the targets, strategy, defaults, variables and layout, which are passed
-- through unread by what is modelled here.
pub record Graph : Type 0 where
  pub steps : List Step
  pub edges : List Edge
  pub entry_ids : List String

pub data StepStatus : Type 0 where
  pending running waiting_approval succeeded failed skipped cancelled : StepStatus

-- What `WorkflowStepRun.error` says.
pub data StepError : Type 0 where
  job_ended : JobStatus → StepError
  heartbeat_timeout condition_false condition_error wait_condition_unsupported : StepError
  alert_exists webhook_failed dispatch_refused rejected_by_approver : StepError

-- What `WorkflowStepRun.output` holds.
pub data StepOutput : Type 0 where
  job_output : ℕ → JobStatus → StepOutput
  condition_output : Bool → StepOutput

pub record StepRun : Type 0 where
  pub step_id : String
  pub status : StepStatus
  pub job_id : Option ℕ
  pub started_at : Option ℕ
  pub completed_at : Option ℕ
  pub error : Option StepError
  pub output : Option StepOutput

pub data RunStatus : Type 0 where
  running waiting_approval succeeded failed cancelled : RunStatus

pub record Run : Type 0 where
  pub status : RunStatus
  pub version_missing : Bool  -- `run.error`, which only a missing version sets
  pub completed_at : Option ℕ
  pub triggered_by : Option ℕ
  pub triggered_by_actor : Option String
  pub agent_ids : List ℕ

-- `step_runs[step_id]`
unfoldable pub lookup : String → List StepRun → Option StepRun
lookup id [] = none
lookup id (r ∷ rs) = if str_eq r.step_id id then some r else lookup id rs

-- The row of `r` is `r` from now on; the rows have different step ids.
unfoldable pub put : StepRun → List StepRun → List StepRun
put r [] = []
put r (q ∷ qs) = if str_eq q.step_id r.step_id then r ∷ qs else q ∷ put r qs

-- `status in ("SUCCEEDED", "FAILED", "SKIPPED")`
unfoldable pub is_done : StepStatus → Bool
is_done StepStatus.succeeded = true
is_done StepStatus.failed = true
is_done StepStatus.skipped = true
is_done _ = false

-- `status in ("PENDING", "RUNNING", "WAITING_APPROVAL")`
unfoldable pub is_active : StepStatus → Bool
is_active StepStatus.pending = true
is_active StepStatus.running = true
is_active StepStatus.waiting_approval = true
is_active _ = false

unfoldable pub is_failed : StepStatus → Bool
is_failed StepStatus.failed = true
is_failed _ = false

unfoldable pub is_pending : StepStatus → Bool
is_pending StepStatus.pending = true
is_pending _ = false

-- `_normalize_type`: the two legacy aliases
unfoldable pub normalize_type : NodeType → NodeType
normalize_type NodeType.validation = NodeType.check
normalize_type NodeType.wait_for_agent = NodeType.wait
normalize_type t = t
