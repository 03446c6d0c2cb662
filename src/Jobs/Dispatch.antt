-- ===== src/Jobs/Dispatch.antt =====
-- The way of a job to an agent and back: `get_pending_jobs`, `mark_dispatched` and `mark_held` of
-- services/agent_service.py, `complete_job` of services/job_service.py, `cancel_job` of
-- api/v1/routers/jobs.py.
pub mod Handing
pub mod Claims
pub mod Cancel
use lokilinux.Prelude.{
  zero, suc, ℕ, ◌+◌, ◌/◌, Bool, true, false, not, ◌&&◌, ◌||◌, Option, none, some, List, [], ◌∷◌,
  if◌then◌else◌, any, keep, map, leb, ◌==◌, is_some, is_empty,
}
use lokilinux.Prelude.Int.{ℤ, pos}
use lokilinux.Python.{Result, ok, raised, value_error, multiple_results}
use lokilinux.Http.{Http, done, require, found, ◌>>=◌, ◌>>◌}
use lokilinux.Jobs.Types.{JobStatus, ResultStatus, Job, JobResult, is_cancellable_job}
use lokilinux.Jobs.Store.{Store, find_job, put_job, rows_for, put_result, is_row}
use lokilinux.Jobs.Status.{recompute_job_status}

abbrev pub is_pending_result : ResultStatus → Bool
is_pending_result ResultStatus.pending = true
is_pending_result _ = false

abbrev pub mem : ℕ → List ℕ → Bool
mem n [] = false
mem n (m ∷ ms) = m == n || mem n ms

-- `held_until IS NULL OR held_until <= now`
abbrev pub hold_over : Option ℕ → ℕ → Bool
hold_over none now = true
hold_over (some t) now = leb t now

-- A row of `job_results` that the query accepts, apart from the job's side.
unfoldable pub row_matches : ℕ → ℕ → List ℕ → JobResult → Bool
row_matches now agent excluded r =
    r.agent_id == agent
    && is_pending_result r.status
    && hold_over r.held_until now
    && not (mem r.job_id excluded)

-- The job's side of the query.
unfoldable pub job_matches : Job → Bool
job_matches j = not j.requires_approval || is_some j.approved_at

-- The query without its limit: the join of `jobs` and `job_results`, in the order of the results.
unfoldable pub pending_for : ℕ → ℕ → List ℕ → List Job → List JobResult → List Job
unfolding row_matches job_matches
pending_for now agent excluded js [] = []
pending_for now agent excluded js (r ∷ rs) =
    let rest = pending_for now agent excluded js rs in
    if row_matches now agent excluded r
    then elim (find_job r.job_id js) [
      | none ↦ rest
      | some j ↦ if job_matches j then j ∷ rest else rest
    ]
    else rest

-- `get_pending_jobs`, up to the limit, which cuts the list off.
unfoldable pub get_pending_jobs : ℕ → ℕ → List ℕ → Store → List Job
unfolding pending_for
get_pending_jobs now agent excluded st = pending_for now agent excluded st.jobs st.results

-- The rows that `mark_dispatched` claims.
unfoldable pub claims_row : ℕ → List ℕ → JobResult → Bool
claims_row agent ids r = mem r.job_id ids && r.agent_id == agent && is_pending_result r.status

-- The update of `job_results`.
unfoldable pub claim_rows : ℕ → ℕ → List ℕ → List JobResult → List JobResult
unfolding claims_row
claim_rows now agent ids [] = []
claim_rows now agent ids (r ∷ rs) =
    (if claims_row agent ids r
      then record r { status = ResultStatus.running; started_at = some now; held_until = none }
      else r)
    ∷ claim_rows now agent ids rs

-- Its `RETURNING` list.
unfoldable pub claimed : ℕ → List ℕ → List JobResult → List ℕ
unfolding claims_row
claimed agent ids rs = map (λ (r : JobResult). r.job_id) (keep (claims_row agent ids) rs)

-- The update of `jobs`.
unfoldable pub start_jobs : ℕ → List ℕ → List Job → List Job
unfolding is_cancellable_job
start_jobs now ids [] = []
start_jobs now ids (j ∷ js) =
    (if mem j.id ids && is_cancellable_job j.status
      then record j { status = JobStatus.running; started_at = some now }
      else j)
    ∷ start_jobs now ids js

-- `mark_dispatched`: the jobs that go out, and the tables behind.
unfoldable pub mark_dispatched : ℕ → ℕ → List Job → Store → List Job × Store
unfolding claim_rows claimed start_jobs
mark_dispatched now agent js st =
    let ids = map (λ (j : Job). j.id) js in
    let taken = claimed agent ids st.results in
    (
      keep (λ (j : Job). mem j.id taken) js,
      record { jobs = start_jobs now taken st.jobs; results = claim_rows now agent ids st.results },
    )

-- `HELD_JOB_SECONDS`, in the unit of the clock (microseconds)
abbrev pub hold_time : ℕ
hold_time = 60000000

-- `mark_held`
unfoldable pub hold_rows : ℕ → ℕ → List ℕ → List JobResult → List JobResult
hold_rows now agent ids [] = []
hold_rows now agent ids (r ∷ rs) =
    (if mem r.job_id ids && r.agent_id == agent
      then record r { held_until = some (now + hold_time) }
      else r)
    ∷ hold_rows now agent ids rs

abbrev take : ℕ → List ℕ → List ℕ
take zero xs = []
take (suc n) [] = []
take (suc n) (x ∷ xs) = x ∷ take n xs

abbrev is_zero : ℤ → Bool
is_zero (ℤ.pos n) = n == 0
is_zero (ℤ.negsuc n) = false

-- What an agent reports through `complete_job`; the texts are their characters.
pub record Report : Type 0 where
  pub exit_code : ℤ
  pub stdout : List ℕ
  pub stderr : List ℕ
  pub duration_ms : ℕ

unfoldable pub completed_row : ℕ → Report → JobResult → JobResult
completed_row now p r = record r {
  status = if is_zero p.exit_code then ResultStatus.completed else ResultStatus.failed;
  exit_code = some p.exit_code;
  stdout = take 50000 p.stdout;
  stderr = take 10000 p.stderr;
  duration_seconds = some (p.duration_ms / 1000);
  completed_at = some now;
}

-- The tables behind a report on the row `r`.
unfoldable pub completion : ℕ → ℕ → Report → JobResult → Store → Store
unfolding completed_row
completion now job p r st =
    recompute_job_status now job
      (record st { results = put_result (completed_row now p r) st.results })

-- `complete_job`: `scalar_one_or_none` raises where more than one row answers.
unfoldable pub complete_job : ℕ → ℕ → ℕ → Report → Store → Result Store
unfolding completion
complete_job now job agent p st = elim (rows_for job agent st.results) [
  | [] ↦ raised value_error
  | r ∷ rs ↦ if is_empty rs then ok (completion now job p r st) else raised multiple_results
]

-- `cancel_job`, without its call for remediation plans.
unfoldable pub cancel_job : ℕ → Store → Http Store
unfolding is_cancellable_job
cancel_job id st = do
  j ← found (find_job id st.jobs) 404
  require (is_cancellable_job j.status) 409
  done (record st { jobs = put_job (record j { status = JobStatus.cancelled }) st.jobs })
