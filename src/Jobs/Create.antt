-- ===== src/Jobs/Create.antt =====
-- services/job_service.py: `_target_agent_uuids` and `JobService.create_job`.
-- The dedup key is a SHA-256 of canonical JSON: the hash is a parameter.
pub mod Guards
use lokilinux.Prelude.{
  ℕ, String, Bool, true, false, not, ◌&&◌, ◌||◌, Option, none, some, List, [], ◌∷◌, ◌++◌,
  if◌then◌else◌, any, map, length, is_empty, str_eq,
}
use lokilinux.Python.{Fields, Exc, value_error, Result, ok, raised, ◌>>=◌}
use lokilinux.Jobs.Types.{JobStatus, ResultStatus, JobType, Job, JobResult}
use lokilinux.Jobs.Access.{Role, assert_can_create, assert_no_smuggled_command}
use lokilinux.Jobs.Store.{Store}

-- `target_servers`: a dict, with an "agent_ids" entry or a checkbox for each agent, a list, or neither.
pub data Targets : Type 0 where
  dict : List ℕ → List (ℕ × Bool) → Targets
  list : List ℕ → Targets
  nothing : Targets

unfoldable pub checked : List (ℕ × Bool) → List ℕ
checked [] = []
checked ((a, b) ∷ rest) = let more = checked rest in if b then a ∷ more else more

-- `_target_agent_uuids`; an absent "agent_ids" entry is the empty list.
unfoldable pub target_agents : Targets → List ℕ
unfolding checked
target_agents (Targets.dict ids boxes) = if is_empty ids then checked boxes else ids
target_agents (Targets.list ids) = ids
target_agents Targets.nothing = []

-- `job_type in _FORCE_APPROVAL_JOB_TYPES`
unfoldable pub forces_approval : JobType → Bool
forces_approval JobType.custom_command = true
forces_approval JobType.ansible_playbook = true
forces_approval _ = false

-- The statuses that block a duplicate.
unfoldable pub is_active_job : JobStatus → Bool
is_active_job JobStatus.queued = true
is_active_job JobStatus.scheduled = true
is_active_job JobStatus.pending = true
is_active_job JobStatus.running = true
is_active_job _ = false

-- The arguments of `create_job`; `None` parameters are the empty dict.
pub record JobRequest : Type 0 where
  pub job_type : JobType
  pub targets : Targets
  pub parameters : Fields
  pub scheduled_time : Option ℕ
  pub created_by : Option ℕ
  pub created_by_actor : Option String
  pub requires_approval : Bool
  pub skip_approval_gate : Bool
  pub actor_role : Role

-- The rows of `db.add_all`.
unfoldable pub fan_out : ℕ → List ℕ → List JobResult
fan_out id [] = []
fan_out id (a ∷ more) =
    record {
      job_id = id;
      agent_id = a;
      status = ResultStatus.pending;
      exit_code = none;
      stdout = [];
      stderr = [];
      duration_seconds = none;
      started_at = none;
      completed_at = none;
      held_until = none;
    }
    ∷ fan_out id more

-- `len(agent_uuids) or None`
unfoldable pub total : List ℕ → Option ℕ
total [] = none
total (a ∷ more) = some (length (a ∷ more))

unfoldable pub new_job : ℕ → String → JobRequest → Job
unfolding target_agents forces_approval total
new_job id key r = record {
  id = id;
  job_type = r.job_type;
  parameters = r.parameters;
  targets = target_agents r.targets;
  status = JobStatus.queued;
  total_servers = total (target_agents r.targets);
  scheduled_time = r.scheduled_time;
  started_at = none;
  completed_at = none;
  requires_approval =
      (forces_approval r.job_type && not r.skip_approval_gate) || r.requires_approval;
  approved_by = none;
  approved_at = none;
  dedup_key = key;
  created_by = r.created_by;
  created_by_actor = r.created_by_actor;
}

-- The query for an active job with the key.
unfoldable pub has_duplicate : String → List Job → Bool
unfolding is_active_job
has_duplicate key js = any (λ (j : Job). str_eq j.dedup_key key && is_active_job j.status) js

abbrev pub insert_job : Store → Job → Store
insert_job st j = record {
  jobs = st.jobs ++ j ∷ [];
  results = st.results ++ fan_out j.id j.targets;
}

abbrev refuse_if : Bool → Exc → Result (Unit {0})
refuse_if b e = if b then raised e else ok tt

module _ (compute_dedup_key : JobType → Targets → Fields → String) where
  -- `create_job`; `id` is the id that the database gives to the new row.
  unfoldable pub create_job : ℕ → JobRequest → Store → Result (Job × Store)
  unfolding new_job has_duplicate fan_out
  create_job id r st = do
    a ← assert_no_smuggled_command r.job_type r.parameters
    b ← assert_can_create r.actor_role r.job_type r.parameters
    c ←
        refuse_if (has_duplicate (compute_dedup_key r.job_type r.targets r.parameters) st.jobs)
          value_error
    ok (
      new_job id (compute_dedup_key r.job_type r.targets r.parameters) r,
      insert_job st (new_job id (compute_dedup_key r.job_type r.targets r.parameters) r),
    )
