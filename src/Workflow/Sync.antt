-- ===== src/Workflow/Sync.antt =====
-- services/workflow_engine.py: the environment of a tick of `advance_run`, and its section 1.
-- What the tick reads and asks of the rest of the backend during this one tick is its `Env`. A step
-- is dispatched at most once in a tick, so an answer for each step covers calls that change state.
pub mod Laws
use lokilinux.Prelude.{
  ℕ, ◌+◌, ◌*◌, String, Bool, true, false, Option, none, some, List, [], ◌∷◌, if◌then◌else◌, leb,
  ltb, str_eq, is_empty,
}
use lokilinux.Prelude.Int.{ℤ, pos, pos_part, neg_part}
use lokilinux.Python.{str, int, get, or_else, is_text, py_int, Exc, Result, ok, ◌>>=◌}
use lokilinux.Jobs.Types.{JobStatus, is_terminal_job, is_completed}
use lokilinux.Workflow.Types.{
  NodeType, Step, Graph, StepStatus, StepError, job_output, StepRun, normalize_type,
}

-- How `_dispatch_step` ends. `refused` is a WorkflowRunError or ValueError with nothing rolled back,
-- `lost_race` the ValueError after `create_job` has rolled the session back, `escapes` any other
-- exception, which leaves `advance_run`.
pub data Dispatch : Type 0 where
  job : ℕ → Dispatch
  refused lost_race : Dispatch
  escapes : Exc → Dispatch

-- How the context of a condition and `evaluate_condition` end: an `ExpressionError` is caught, any
-- other exception leaves `advance_run`.
pub data Condition : Type 0 where
  evaluates : Bool → Condition
  expression_error : Condition
  condition_escapes : Exc → Condition

-- How `_dispatch_notification` and `_dispatch_webhook` end: `undelivered` is their WorkflowRunError
-- (an alert is there already, a url is refused, a request fails), `delivery_escapes` any other
-- exception, such as the TypeError of headers that are no texts, which leaves `advance_run`.
pub data Delivery : Type 0 where
  delivered undelivered : Delivery
  delivery_escapes : Exc → Delivery

pub record Env : Type 0 where
  pub now : ℕ  -- in microseconds
  pub job_status : ℕ → Option JobStatus
  pub heartbeats : List (Option ℕ)  -- `last_heartbeat` of the run's target agents
  pub condition : Step → List StepRun → Condition
  pub alert : Step → Delivery
  pub webhook : Step → Delivery
  pub dispatch : Step → Dispatch

abbrev pub second : ℕ
second = 1000000

-- `_HEARTBEAT_INTERVAL_SECONDS`
abbrev pub heartbeat_interval : ℕ
heartbeat_interval = 60

-- `(b - a).total_seconds() >= z`
unfoldable pub elapsed_ge : ℕ → ℕ → ℤ → Bool
elapsed_ge a b z = leb (a + pos_part z * second) (b + neg_part z * second)

-- `(b - a).total_seconds() > z`
unfoldable pub elapsed_gt : ℕ → ℕ → ℤ → Bool
elapsed_gt a b z = ltb (a + pos_part z * second) (b + neg_part z * second)

-- The test `sr.started_at and ...`, false where there is no start.
unfoldable pub since : Option ℕ → (ℕ → Bool) → Bool
since none p = false
since (some t) p = p t

-- n * 60, for the heartbeat counts of a configuration
unfoldable pub intervals : ℤ → ℤ
intervals (ℤ.pos n) = ℤ.pos (n * heartbeat_interval)
intervals (ℤ.negsuc n) = ℤ.negsuc (n * heartbeat_interval + 59)

-- The loop over the agents' heartbeats: is every one fresh, and late enough after the start?
unfoldable pub heartbeats_ok : ℕ → Option ℕ → ℤ → List (Option ℕ) → Bool
unfolding elapsed_ge elapsed_gt since
heartbeats_ok now started required [] = true
heartbeats_ok now started required (none ∷ hs) = false
heartbeats_ok now started required (some h ∷ hs) =
    let rest = heartbeats_ok now started required hs in
    if since started (λ t. if elapsed_ge t h required then false else true)
    then false
    else if elapsed_gt h now (pos (heartbeat_interval * 2))
    then false
    else rest

-- `_wait_for_agent_satisfied` with the mode "duration": `seconds` have passed since the start.
unfoldable pub duration_satisfied : Env → StepRun → ℤ → Bool
unfolding elapsed_ge
duration_satisfied env sr seconds = elim sr.started_at [
  | none ↦ elapsed_ge env.now env.now seconds
  | some t ↦ elapsed_ge t env.now seconds
]

-- The same with any other mode: (done, timed_out).
unfoldable pub agents_satisfied : Env → StepRun → List ℕ → ℤ → ℤ → Bool × Bool
unfolding elapsed_gt since heartbeats_ok intervals
agents_satisfied env sr agents timeout beats =
    if since sr.started_at (λ t. elapsed_gt t env.now timeout)
    then (false, true)
    else if is_empty agents
    then (true, false)
    else (heartbeats_ok env.now sr.started_at (intervals beats) env.heartbeats, false)

-- `_wait_for_agent_satisfied`: (done, timed_out)
unfoldable pub wait_satisfied : Env → StepRun → Step → List ℕ → Result (Bool × Bool)
unfolding duration_satisfied agents_satisfied
wait_satisfied env sr step agents =
    if is_text (or_else (get step.config "mode") (str "agent")) "duration"
    then (do
      seconds ← py_int (or_else (get step.config "seconds") (int (pos 0)))
      ok (duration_satisfied env sr seconds, false))
    else (do
      timeout ← py_int (or_else (get step.config "timeout_seconds") (int (pos 1800)))
      beats ← py_int (or_else (get step.config "min_heartbeats") (int (pos 1)))
      ok (agents_satisfied env sr agents timeout beats))

-- ── 1) Steps that run ──────────────────────────────────────────────────────

-- The first half of section 1: the job of a running step.
unfoldable pub sync_job : Env → ℕ → StepRun → StepRun
sync_job env j sr = elim (env.job_status j) [
  | none ↦ sr
  | some js ↦
      if is_terminal_job js
      then record sr {
        status = if is_completed js then StepStatus.succeeded else StepStatus.failed;
        completed_at = some env.now;
        output = some (job_output j js);
        error = if is_completed js then sr.error else some (StepError.job_ended js);
      }
      else sr
]

-- The second half: the answer of the poll of a wait step.
unfoldable pub sync_wait : Env → StepRun → Bool × Bool → StepRun
sync_wait env sr (done, timed_out) =
    if done
    then record sr { status = StepStatus.succeeded; completed_at = some env.now }
    else if timed_out
    then record sr {
      status = StepStatus.failed;
      completed_at = some env.now;
      error = some StepError.heartbeat_timeout;
    }
    else sr

unfoldable pub find_step : String → List Step → Option Step
find_step id [] = none
find_step id (s ∷ ss) = if str_eq s.id id then some s else find_step id ss

unfoldable pub is_wait : NodeType → Bool
unfolding normalize_type
is_wait t = elim (normalize_type t) [ NodeType.wait ↦ true | _ ↦ false ]

unfoldable pub is_running : StepStatus → Bool
is_running StepStatus.running = true
is_running _ = false

-- The body of the loop of section 1.
unfoldable pub sync_step : Env → Graph → List ℕ → StepRun → Result StepRun
unfolding sync_job sync_wait find_step is_wait is_running
sync_step env g agents sr =
    if is_running sr.status
    then elim sr.job_id [
      | some j ↦ ok (sync_job env j sr)
      | none ↦ elim (find_step sr.step_id g.steps) [
        | none ↦ ok sr
        | some s ↦
            if is_wait s.node_type
            then (do r ← wait_satisfied env sr s agents; ok (sync_wait env sr r))
            else ok sr
      ]
    ]
    else ok sr

-- Section 1. An exception leaves `advance_run` with nothing committed.
unfoldable pub sync_all : Env → Graph → List ℕ → List StepRun → Result (List StepRun)
sync_all env g agents [] = ok []
sync_all env g agents (r ∷ rs) = do
  r' ← sync_step env g agents r
  rs' ← sync_all env g agents rs
  ok (r' ∷ rs')
