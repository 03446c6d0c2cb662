-- ===== src/Workflow/Start.antt =====
-- services/workflow_engine.py: `start_run` up to its first tick.
mod Tests
use lokilinux.Prelude.{
  ℕ, String, Bool, true, false, not, ◌≡◌, Option, some, none, List, is_empty, [], ◌∷◌, ◌≢◌, ◌⊎◌,
}
use lokilinux.Http.{Http, done, http_error, require, found, ◌>>=◌, ◌>>◌}
use lokilinux.Workflow.Types.{Graph, StepRun, Run, Step, StepStatus, RunStatus}
use lokilinux.Workflow.Gates.{Version, VersionStatus}
use lokilinux.Workflow.Life.{start, start_rows}

-- `Workflow`, as `start_run` reads it: its current version, if it has one, and that version's row,
-- if it is there.
abbrev pub Published : Type 0
Published = Option (Option Version)

unfoldable pub is_released : VersionStatus → Bool
is_released VersionStatus.published = true
is_released _ = false

-- What `start_run` adds: the run and its rows.
pub record Started : Type 0 where
  pub version : Version
  pub run : Run
  pub rows : List StepRun

unfoldable pub fresh : Version → Option ℕ → Option String → List ℕ → Started
fresh v triggered_by triggered_by_actor agents = record {
  version = v;
  run = start triggered_by triggered_by_actor agents;
  rows = start_rows v.graph.steps;
}

-- `inputs_ok` is `validate_step_inputs`, `resolve` is `resolve_targets`; `none` is a workflow that
-- is not there.
module _ (inputs_ok : Graph → Bool) (resolve : Graph → List ℕ) where
  unfoldable pub start_run : Option Published → Option ℕ → Option String → Http Started
  unfolding is_released fresh
  start_run workflow by actor = do
    w ← found workflow 404
    row ← found w 409
    v ← found row 409
    require (is_released v.status) 409
    require (inputs_ok v.graph) 422
    require (not (is_empty (resolve v.graph))) 422
    done (fresh v by actor (resolve v.graph))

  -- A row that nothing has touched.
  pub record IsFresh (s : Step) (r : StepRun) : Type 0 where
    pub of_step : r.step_id ≡ s.id
    pub waits : r.status ≡ StepStatus.pending
    pub no_job : r.job_id ≡ none
    pub no_start : r.started_at ≡ none
    pub no_end : r.completed_at ≡ none

  -- One fresh row for each step, in their order.
  pub data AreFresh : List Step → List StepRun → Type 0 where
    no_steps : AreFresh [] []
    and_then :
        (s : Step) (ss : List Step) (r : StepRun) (rs : List StepRun)
        → IsFresh s r
        → AreFresh ss rs
        → AreFresh (s ∷ ss) (r ∷ rs)

  module _ (workflow : Option Published) (by : Option ℕ) (actor : Option String) where
    -- A run at its start: of the published version to which the workflow points, with the caller
    -- as its trigger, on the agents of the version's targets, running, with fresh rows.
    pub record IsStarted (s : Started) : Type 0 where
      pub current : workflow ≡ some (some (some s.version))
      pub released : s.version.status ≡ VersionStatus.published
      pub safe_inputs : inputs_ok s.version.graph ≡ true
      pub targets : s.run.agent_ids ≡ resolve s.version.graph
      pub has_targets : is_empty s.run.agent_ids ≡ false
      pub trigger : (s.run.triggered_by ≡ by) × (s.run.triggered_by_actor ≡ actor)
      pub goes : (s.run.status ≡ RunStatus.running) × (s.run.completed_at ≡ none)
      pub fresh_rows : AreFresh s.version.graph.steps s.rows

    -- What `start_run` answers, and why.
    pub data IsAnswer : Http Started → Type 0 where
      starts : (s : Started) → IsStarted s → IsAnswer (done s)
      missing : (c : ℕ) → c ≡ 404 → workflow ≡ none → IsAnswer (http_error c)
      unpublished :
          (c : ℕ)
          → c ≡ 409
          → (workflow ≡ none → ⊥)
          → ((v : Version) → workflow ≡ some (some (some v)) → v.status ≢ VersionStatus.published)
          → IsAnswer (http_error c)
      unusable :
          (c : ℕ) (v : Version)
          → c ≡ 422
          → workflow ≡ some (some (some v))
          → v.status ≡ VersionStatus.published
          → (inputs_ok v.graph ≡ false) ⊎ (is_empty (resolve v.graph) ≡ true)
          → IsAnswer (http_error c)
