-- ===== src/Workflow/Gates.antt =====
-- services/workflow_engine.py: what people do to a run: `approve_step`, `reject_step`, `cancel_run`.
pub mod Cancel
pub mod Approve
pub mod Reject
use lokilinux.Prelude.{
  ℕ, String, Bool, true, false, not, ◌&&◌, ◌||◌, Option, none, some, List, [], ◌∷◌, if◌then◌else◌,
  str_eq, is_str, is_num,
}
use lokilinux.Http.{Http, done, require, found, ◌>>=◌, ◌>>◌}
use lokilinux.Jobs.Types.{JobStatus, is_cancellable_job}
use lokilinux.Workflow.Types.{
  Graph, StepStatus, StepError, StepRun, RunStatus, Run, lookup, put, is_pending, is_active,
}
use lokilinux.Workflow.Sync.{Env, is_running}
use lokilinux.Workflow.Advance.{Outcome, advance_run}

pub data VersionStatus : Type 0 where
  draft published archived : VersionStatus

-- `WorkflowVersion`, as the gates and `start_run` read it.
pub record Version : Type 0 where
  pub graph : Graph
  pub status : VersionStatus
  pub published_by : Option ℕ
  pub published_by_actor : Option String

-- Who acts: `actor`, the id as a UUID where it is one, and `actor_id`, the raw id.
pub record Actor : Type 0 where
  pub actor : Option ℕ
  pub actor_id : Option String

-- `a is not None and b == a`
abbrev pub same_id : Option String → Option String → Bool
same_id none b = false
same_id (some s) b = is_str b s

abbrev pub same_uuid : Option ℕ → Option ℕ → Bool
same_uuid none b = false
same_uuid (some n) b = is_num b n

unfoldable pub is_waiting : StepStatus → Bool
is_waiting StepStatus.waiting_approval = true
is_waiting _ = false

-- The actor started the run.
unfoldable pub is_trigger : Actor → Run → Bool
is_trigger a run = same_id a.actor_id run.triggered_by_actor || same_uuid a.actor run.triggered_by

-- The actor published the version that the run executes; a version that is gone has no publisher.
unfoldable pub is_publisher : Actor → Option Version → Bool
is_publisher a none = false
is_publisher a (some v) =
    same_id a.actor_id v.published_by_actor || same_uuid a.actor v.published_by

-- The rows and the run behind the checks of `approve_step`, before it advances the run.
unfoldable pub approved_rows : ℕ → StepRun → List StepRun → List StepRun
approved_rows now sr rs =
    put (record sr { status = StepStatus.succeeded; completed_at = some now }) rs

abbrev pub graph_of : Option Version → Option Graph
graph_of none = none
graph_of (some v) = some v.graph

-- `approve_step`, for a run that was found.
unfoldable pub approve_step :
    Env → Option Version → Run → List StepRun → String → Actor → Http Outcome
unfolding is_waiting is_trigger is_publisher approved_rows
approve_step env version run rs step_id a = do
  sr ← found (lookup step_id rs) 404
  require (is_waiting sr.status) 409
  require (not (is_trigger a run)) 403
  require (not (is_publisher a version)) 403
  done (
      advance_run env (graph_of version) (record run { status = RunStatus.running })
        (approved_rows env.now sr rs))

-- The loop of `reject_step` over the other rows: its body, and the loop.
unfoldable pub skip_row : ℕ → String → StepRun → StepRun
unfolding is_pending is_waiting
skip_row now step_id r =
    if not (str_eq r.step_id step_id) && (is_pending r.status || is_waiting r.status)
    then record r { status = StepStatus.skipped; completed_at = some now }
    else r

unfoldable pub skip_others : ℕ → String → List StepRun → List StepRun
unfolding skip_row
skip_others now step_id [] = []
skip_others now step_id (r ∷ rs) = skip_row now step_id r ∷ skip_others now step_id rs

-- The step of a rejection, and what the rejection leaves: the run ends.
unfoldable pub rejected_row : ℕ → StepRun → StepRun
rejected_row now sr = record sr {
  status = StepStatus.failed;
  error = some StepError.rejected_by_approver;
  completed_at = some now;
}

unfoldable pub rejection : ℕ → Run → List StepRun → String → StepRun → Outcome
unfolding rejected_row skip_others
rejection now run rs step_id sr = record {
  run = record run { status = RunStatus.failed; completed_at = some now };
  runs = skip_others now step_id (put (rejected_row now sr) rs);
  exc = none;
}

-- `reject_step`
unfoldable pub reject_step : ℕ → Run → List StepRun → String → Http Outcome
unfolding is_waiting rejection
reject_step now run rs step_id = do
  sr ← found (lookup step_id rs) 404
  require (is_waiting sr.status) 409
  done (rejection now run rs step_id sr)

-- `run.status in ("SUCCEEDED", "FAILED", "CANCELLED")`
unfoldable pub is_over : RunStatus → Bool
is_over RunStatus.running = false
is_over RunStatus.waiting_approval = false
is_over _ = true

-- The loop of `cancel_run`: the rows.
unfoldable pub cancel_rows : ℕ → List StepRun → List StepRun
unfolding is_active
cancel_rows now [] = []
cancel_rows now (r ∷ rs) =
    (if is_active r.status
      then record r { status = StepStatus.cancelled; completed_at = some now }
      else r)
    ∷ cancel_rows now rs

-- The job of a row that runs, if the job has not been picked up.
unfoldable pub job_to_cancel : (ℕ → Option JobStatus) → StepRun → Option ℕ
unfolding is_running is_cancellable_job
job_to_cancel jobs r =
    if is_running r.status
    then elim r.job_id [
      | none ↦ none
      | some j ↦ elim (jobs j) [
        | none ↦ none
        | some js ↦ if is_cancellable_job js then some j else none
      ]
    ]
    else none

-- The same loop: the jobs that are set to CANCELLED.
unfoldable pub jobs_to_cancel : (ℕ → Option JobStatus) → List StepRun → List ℕ
unfolding job_to_cancel
jobs_to_cancel jobs [] = []
jobs_to_cancel jobs (r ∷ rs) =
    let rest = jobs_to_cancel jobs rs in
    elim (job_to_cancel jobs r) [ none ↦ rest | some j ↦ j ∷ rest ]

pub record Cancelled : Type 0 where
  pub outcome : Outcome
  pub jobs : List ℕ

-- What `cancel_run` leaves.
unfoldable pub cancelled_run : Env → Run → List StepRun → Cancelled
unfolding cancel_rows jobs_to_cancel
cancelled_run env run rs = record {
  outcome = record {
    run = record run { status = RunStatus.cancelled; completed_at = some env.now };
    runs = cancel_rows env.now rs;
    exc = none;
  };
  jobs = jobs_to_cancel env.job_status rs;
}

-- `cancel_run`
unfoldable pub cancel_run : Env → Run → List StepRun → Http Cancelled
unfolding is_over cancelled_run
cancel_run env run rs = do require (not (is_over run.status)) 409; done (cancelled_run env run rs)
