-- ===== src/Jobs/Store.antt =====
-- The tables `jobs` and `job_results`.
use lokilinux.Prelude.{ℕ, Bool, ◌&&◌, Option, none, some, List, [], ◌∷◌, if◌then◌else◌, ◌==◌, keep}
use lokilinux.Jobs.Types.{Job, JobResult}

pub record Store : Type 0 where
  pub jobs : List Job
  pub results : List JobResult

-- `db.get(Job, job_id)`
unfoldable pub find_job : ℕ → List Job → Option Job
find_job id [] = none
find_job id (j ∷ js) = if j.id == id then some j else find_job id js

-- The row of `j` is `j` from now on.
unfoldable pub put_job : Job → List Job → List Job
put_job j [] = []
put_job j (k ∷ ks) = if k.id == j.id then j ∷ ks else k ∷ put_job j ks

-- The result rows of one job.
unfoldable pub results_of : ℕ → List JobResult → List JobResult
results_of id rs = keep (λ (r : JobResult). r.job_id == id) rs

abbrev pub is_row : ℕ → ℕ → JobResult → Bool
is_row job_id agent_id r = r.job_id == job_id && r.agent_id == agent_id

-- The rows of one job and one agent.
unfoldable pub rows_for : ℕ → ℕ → List JobResult → List JobResult
rows_for j a rs = keep (is_row j a) rs

unfoldable pub put_result : JobResult → List JobResult → List JobResult
put_result r [] = []
put_result r (q ∷ qs) = if is_row r.job_id r.agent_id q then r ∷ qs else q ∷ put_result r qs
