-- ===== src/Jobs/Status.antt =====
-- services/job_service.py: `recompute_job_status`, without what it passes on to plugins and plans.
pub mod Aggregate
use lokilinux.Prelude.{
  ℕ, Bool, true, false, Option, none, some, List, [], ◌∷◌, if◌then◌else◌, any, all, map, is_some,
}
use lokilinux.Jobs.Types.{JobStatus, ResultStatus, Job, JobResult}
use lokilinux.Jobs.Store.{Store, find_job, put_job, results_of}

-- `s in _TERMINAL_RESULT_STATUSES`
unfoldable pub is_terminal : ResultStatus → Bool
is_terminal ResultStatus.pending = false
is_terminal ResultStatus.running = false
is_terminal _ = true

abbrev pub is_failed_result : ResultStatus → Bool
is_failed_result ResultStatus.failed = true
is_failed_result _ = false

abbrev pub is_timeout_result : ResultStatus → Bool
is_timeout_result ResultStatus.timeout = true
is_timeout_result _ = false

abbrev pub is_cancelled_result : ResultStatus → Bool
is_cancelled_result ResultStatus.cancelled = true
is_cancelled_result _ = false

-- `next((JobStatus[s] for s in _FAILURE_PRIORITY if s in statuses), JobStatus.COMPLETED)`
unfoldable pub outcome : List ResultStatus → JobStatus
outcome ss =
    if any is_failed_result ss
    then JobStatus.failed
    else if any is_timeout_result ss
    then JobStatus.timeout
    else if any is_cancelled_result ss
    then JobStatus.cancelled
    else JobStatus.completed

abbrev first_time : Option ℕ → ℕ → Option ℕ
first_time none now = some now
first_time (some t) now = some t

abbrev pub is_cancelled_job : JobStatus → Bool
is_cancelled_job JobStatus.cancelled = true
is_cancelled_job _ = false

-- The job behind its result rows' statuses, of which there is at least one.
unfoldable pub settle_job : ℕ → List ResultStatus → Job → Job
unfolding is_terminal outcome
settle_job now ss j =
    if all is_terminal ss
    then record j { status = outcome ss; completed_at = first_time j.completed_at now }
    else if any is_terminal ss
    then record j { status = JobStatus.running; started_at = first_time j.started_at now }
    else j

-- The two early returns: no rows, and a job that was cancelled.
unfoldable pub recompute_job : ℕ → List ResultStatus → Job → Job
unfolding settle_job
recompute_job now [] j = j
recompute_job now (s ∷ ss) j = if is_cancelled_job j.status then j else settle_job now (s ∷ ss) j

unfoldable pub statuses : ℕ → List JobResult → List ResultStatus
statuses id rs = map (λ (r : JobResult). r.status) (results_of id rs)

-- `recompute_job_status`
unfoldable pub recompute_job_status : ℕ → ℕ → Store → Store
unfolding recompute_job statuses
recompute_job_status now id st = elim (find_job id st.jobs) [
  | none ↦ st
  | some j ↦ record st { jobs = put_job (recompute_job now (statuses id st.results) j) st.jobs }
]
