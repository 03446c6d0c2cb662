-- ===== src/Workflow/Ready.antt =====
-- services/workflow_engine.py: section 2 of `advance_run`, the loop over the pending steps.
pub mod Visits
pub mod Stability
pub mod Edges
pub mod Routing
pub mod Totality
use lokilinux.Prelude.{
  ℕ, String, Bool, true, false, ◌&&◌, ◌||◌, Option, none, some, List, [], ◌∷◌, if◌then◌else◌, any,
  keep, str_eq,
}
use lokilinux.Python.{
  str, get, or_else, is_text, Exc, key_error, missing_greenlet, Result, ok, raised, ◌>>=◌,
}
use lokilinux.Workflow.Types.{
  NodeType, EdgeOn, Step, Edge, Graph, StepStatus, StepError, StepOutput, condition_output, StepRun,
  lookup, put, is_done, is_failed, is_pending, normalize_type,
}
use lokilinux.Workflow.Sync.{
  Dispatch, job, refused, lost_race, escapes, Condition, evaluates, expression_error, Env,
  condition_escapes, Delivery, delivered, undelivered, delivery_escapes,
}

-- The session during the loop: the step runs as they stand, those of the last commit, and the local
-- variable `approval_blocked`. `expired`: a rollback has expired the run object, so that a read of
-- its columns raises MissingGreenlet.
pub record Tick : Type 0 where
  pub runs : List StepRun
  pub saved : List StepRun
  pub approval_blocked : Bool
  pub expired : Bool

pub data Progress : Type 0 where
  go : Tick → Progress
  halt : Exc → Tick → Progress

-- `_incoming_edges`
unfoldable pub incoming_edges : Graph → String → List Edge
incoming_edges g id = keep (λ e. str_eq e.target id) g.edges

-- `preds_terminal`: `all` stops at the first step run that is not done.
unfoldable pub preds_terminal : List StepRun → List Edge → Result Bool
preds_terminal runs [] = ok true
preds_terminal runs (e ∷ es) = elim (lookup e.source runs) [
  | none ↦ raised key_error
  | some sr ↦ if is_done sr.status then preds_terminal runs es else ok false
]

abbrev pub is_succeeded : StepStatus → Bool
is_succeeded StepStatus.succeeded = true
is_succeeded _ = false

-- One edge of `matched`. It is read after `preds_terminal`, so the step run is there.
unfoldable pub edge_matches : List StepRun → Edge → Bool
edge_matches runs e = elim e.on [
  | EdgeOn.always ↦ true
  | EdgeOn.success ↦ elim (lookup e.source runs) [ none ↦ false | some sr ↦ is_succeeded sr.status ]
  | EdgeOn.failure ↦ elim (lookup e.source runs) [ none ↦ false | some sr ↦ is_failed sr.status ]
]

pub data Readiness : Type 0 where
  blocked ready unmatched : Readiness

-- The three ways in which the edges of a pending step decide.
unfoldable pub readiness : List StepRun → List Edge → Result Readiness
unfolding preds_terminal edge_matches
readiness runs [] = ok ready
readiness runs (e ∷ es) = do
  terminal ← preds_terminal runs (e ∷ es)
  ok (if terminal then (if any (edge_matches runs) (e ∷ es) then ready else unmatched) else blocked)

abbrev set_run : Tick → StepRun → Tick
set_run t sr = record t { runs = put sr t.runs }

-- `sr` with a status and the completion time.
abbrev finish : Env → StepRun → StepStatus → StepRun
finish env sr s = record sr { status = s; completed_at = some env.now }

-- `sr` failed with an error.
abbrev fail : Env → StepRun → StepError → StepRun
fail env sr e = record sr {
  status = StepStatus.failed;
  completed_at = some env.now;
  error = some e;
}

-- The END branch.
unfoldable pub end_status : Step → StepStatus
end_status s =
    if is_text (or_else (get s.config "outcome") (str "success")) "failure"
    then StepStatus.failed
    else StepStatus.succeeded

-- `sr` with the result of its condition.
unfoldable pub judged : Env → StepRun → Bool → StepRun
judged env sr b = record sr {
  status = if b then StepStatus.succeeded else StepStatus.failed;
  completed_at = some env.now;
  error = if b then sr.error else some StepError.condition_false;
  output = some (condition_output b);
}

-- A read of the run, which an expired object does not allow.
abbrev reading_run : Tick → Progress → Progress
reading_run t p = if t.expired then halt missing_greenlet t else p

-- The CONDITION branch, whose context reads the run.
unfoldable pub run_condition : Env → Step → StepRun → Tick → Progress
unfolding judged
run_condition env s sr t = reading_run t (elim (env.condition s t.runs) [
  | evaluates b ↦ go (set_run t (judged env sr b))
  | expression_error ↦ go (set_run t (fail env sr StepError.condition_error))
  | condition_escapes e ↦ halt e t
])

-- The WAIT branch: nothing is dispatched, the step is polled by section 1.
unfoldable pub run_wait : Env → Step → StepRun → StepRun
run_wait env s sr =
    if is_text (or_else (get s.config "mode") (str "agent")) "condition"
    then fail env sr StepError.wait_condition_unsupported
    else record sr { status = StepStatus.running; started_at = some env.now }

-- The NOTIFICATION branch, which reads the run's id. `create_alert` commits the session before it
-- answers, and raises nothing after that.
unfoldable pub run_notification : Env → Step → StepRun → Tick → Progress
run_notification env s sr t = reading_run t (elim (env.alert s) [
  | delivered ↦ go (set_run (record t { saved = t.runs }) (finish env sr StepStatus.succeeded))
  | undelivered ↦ go (set_run (record t { saved = t.runs }) (fail env sr StepError.alert_exists))
  | delivery_escapes e ↦ halt e t
])

-- The WEBHOOK branch.
unfoldable pub run_webhook : Env → Step → StepRun → Tick → Progress
run_webhook env s sr t = elim (env.webhook s) [
  | delivered ↦ go (set_run t (finish env sr StepStatus.succeeded))
  | undelivered ↦ go (set_run t (fail env sr StepError.webhook_failed))
  | delivery_escapes e ↦ halt e t
]

-- The step run of `id` in a reloaded session, failed with the dispatch's message.
unfoldable pub refuse : Env → String → Tick → Progress
refuse env id t = elim (lookup id t.runs) [
  | none ↦ halt key_error t
  | some sr ↦ go (set_run t (fail env sr StepError.dispatch_refused))
]

-- The last branch: a job, whose dispatch reads the run's id. `create_job` commits the session when it succeeds; when it loses the race
-- for the dedup key it rolls back to the last commit, which expires the run.
unfoldable pub run_job : Env → Step → StepRun → Tick → Progress
unfolding refuse
run_job env s sr t = reading_run t (elim (env.dispatch s) [
  | job j ↦ go (
      set_run (record t { saved = t.runs })
        (record sr { job_id = some j; status = StepStatus.running; started_at = some env.now }))
  | refused ↦ refuse env s.id t
  | lost_race ↦ refuse env s.id (record t { runs = t.saved; expired = true })
  | escapes e ↦ halt e t
])

-- A step that is ready and not disabled, by its normalised type.
unfoldable pub start_step : NodeType → Env → Step → StepRun → Tick → Progress
unfolding end_status run_condition run_wait run_notification run_webhook run_job
start_step NodeType.start env s sr t = go (set_run t (finish env sr StepStatus.succeeded))
start_step NodeType.end_node env s sr t = go (set_run t (finish env sr (end_status s)))
start_step NodeType.approval env s sr t =
    go (record (set_run t (record sr { status = StepStatus.waiting_approval })) {
      approval_blocked = true;
    })
start_step NodeType.condition env s sr t = run_condition env s sr t
start_step NodeType.wait env s sr t = go (set_run t (run_wait env s sr))
start_step NodeType.notification env s sr t = run_notification env s sr t
start_step NodeType.webhook env s sr t = run_webhook env s sr t
start_step _ env s sr t = run_job env s sr t

unfoldable pub run_ready : Env → Step → StepRun → Tick → Readiness → Progress
unfolding start_step normalize_type
run_ready env s sr t blocked = go t
run_ready env s sr t unmatched = go (set_run t (finish env sr StepStatus.skipped))
run_ready env s sr t ready =
    if s.disabled
    then go (set_run t (finish env sr StepStatus.skipped))
    else start_step (normalize_type s.node_type) env s sr t

-- The body of the loop.
unfoldable pub visit : Env → Graph → Step → Tick → Progress
unfolding run_ready readiness incoming_edges
visit env g s t = elim (lookup s.id t.runs) [
  | none ↦ halt key_error t
  | some sr ↦
      if is_pending sr.status
      then elim (readiness t.runs (incoming_edges g s.id)) [
        | raised e ↦ halt e t
        | ok r ↦ run_ready env s sr t r
      ]
      else go t
]

-- The loop over `graph.steps`.
unfoldable pub visit_all : Env → Graph → List Step → Tick → Progress
visit_all env g [] t = go t
visit_all env g (s ∷ ss) t = elim (visit env g s t) [
  | go t' ↦ visit_all env g ss t'
  | halt e t' ↦ halt e t'
]
