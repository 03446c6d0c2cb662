-- ===== src/Workflow/Gates/Cancel.antt =====
-- `cancel_run` ends a run for good.
use lokilinux.Prelude.{
  ℕ, String, true, false, ◌≡◌, refl, Option, none, some, List, [], ◌∷◌, arith, eq_iff, Memᴰ, ◌↔◌,
  Option-cases, inl, inr,
}
use lokilinux.Http.{done, http_error}
use lokilinux.Jobs.Types.{JobStatus, is_cancellable_job}
use lokilinux.Workflow.Types.{Graph, StepRun, RunStatus, Run, lookup, is_active}
use lokilinux.Workflow.Sync.{Env, is_running}
use lokilinux.Workflow.Advance.{Outcome, advance_run, is_running_run}
use lokilinux.Workflow.Gates.{
  cancelled_run, cancel_run, is_over, cancel_rows, jobs_to_cancel, job_to_cancel,
}

pub lookup-cancel_rows :
    (now : ℕ) (id : String) (rs : List StepRun) (q : StepRun)
    → lookup id (cancel_rows now rs) ≡ some q
    → is_active q.status ≡ false
unfolding cancel_rows lookup is_active
lookup-cancel_rows now id [] q h = cc
lookup-cancel_rows now id (r ∷ rs) q h =
    ground (arith, eq_iff r.step_id id, lookup-cancel_rows now id rs q)

cancel_rows_keeps :
    (now : ℕ) (id : String) (rs : List StepRun) (q : StepRun)
    → lookup id rs ≡ some q
    → is_active q.status ≡ false
    → lookup id (cancel_rows now rs) ≡ some q
unfolding cancel_rows lookup
cancel_rows_keeps now id [] q h f = cc
cancel_rows_keeps now id (r ∷ rs) q h f =
    ground (arith, eq_iff r.step_id id, cancel_rows_keeps now id rs q)

-- What a cancelled run is like: no row is pending, running or waiting, rows that had ended are as they
-- were, and no later tick changes the run or its rows, whatever it finds.
pub record IsClosed (rs : List StepRun) (o : Outcome) : Type 0 where
  pub cancelled : o.run.status ≡ RunStatus.cancelled
  pub ended : (id : String) (q : StepRun) → lookup id o.runs ≡ some q → is_active q.status ≡ false
  pub kept :
      (id : String) (q : StepRun)
      → lookup id rs ≡ some q
      → is_active q.status ≡ false
      → lookup id o.runs ≡ some q
  pub still :
      (env : Env) (og : Option Graph)
      → advance_run env og o.run o.runs ≡ record { run = o.run; runs = o.runs; exc = none }

-- `j` is the job of a row that runs, and no agent has picked it up.
pub data Waits (jobs : ℕ → Option JobStatus) (rs : List StepRun) (j : ℕ) : Type 0 where
  waits :
      (r : StepRun) (js : JobStatus)
      → Memᴰ r rs
      → is_running r.status ≡ true
      → r.job_id ≡ some j
      → jobs j ≡ some js
      → is_cancellable_job js ≡ true
      → Waits jobs rs j

job_to_cancel-Waits :
    (jobs : ℕ → Option JobStatus) (rs : List StepRun) (r : StepRun) (j : ℕ)
    → Memᴰ r rs
    → job_to_cancel jobs r ≡ some j
    → Waits jobs rs j
unfolding job_to_cancel
job_to_cancel-Waits jobs rs r j m h = elim (Option-cases (jobs j)) [
  | inl gone ↦ absurd (ground arith)
  | inr (js, there) ↦ waits r js m (ground arith) (ground arith) there (ground arith)
]

Waits-cons :
    (jobs : ℕ → Option JobStatus) (rs : List StepRun) (r : StepRun) (j : ℕ)
    → Waits jobs rs j
    → Waits jobs (r ∷ rs) j
Waits-cons jobs rs r j (waits q js m a b c d) = waits q js (Memᴰ.tail m) a b c d

Waits-jobs :
    (jobs : ℕ → Option JobStatus) (rs : List StepRun) (j : ℕ)
    → Memᴰ j (jobs_to_cancel jobs rs)
    → Waits jobs rs j
unfolding jobs_to_cancel
Waits-jobs jobs [] j m = elim m [ ]
Waits-jobs jobs (r ∷ rs) j m =
    from (job_to_cancel jobs r) refl m (λ n. Waits-cons jobs rs r j (Waits-jobs jobs rs j n))
  where
    from :
        (o : Option ℕ)
        → job_to_cancel jobs r ≡ o
        → Memᴰ j (elim o [ none ↦ jobs_to_cancel jobs rs | some k ↦ k ∷ jobs_to_cancel jobs rs ])
        → (Memᴰ j (jobs_to_cancel jobs rs) → Waits jobs (r ∷ rs) j)
        → Waits jobs (r ∷ rs) j
    from none e n f = f n
    from (some k) e (Memᴰ.head q) f = job_to_cancel-Waits jobs (r ∷ rs) r j (Memᴰ.head refl) (cc)
    from (some k) e (Memᴰ.tail n) f = f n

jobs-Waits :
    (jobs : ℕ → Option JobStatus) (rs : List StepRun) (j : ℕ) (r : StepRun)
    → Memᴰ r rs
    → job_to_cancel jobs r ≡ some j
    → Memᴰ j (jobs_to_cancel jobs rs)
unfolding jobs_to_cancel
jobs-Waits jobs [] j r m e = elim m [ ]
jobs-Waits jobs (x ∷ rs) j r (Memᴰ.head q) e =
    let k : job_to_cancel jobs x ≡ some j = cc in rw (k, jobs_to_cancel) (Memᴰ.head refl)
jobs-Waits jobs (x ∷ rs) j r (Memᴰ.tail m) e =
    later (job_to_cancel jobs x) (jobs-Waits jobs rs j r m e)
  where
    later :
        (o : Option ℕ)
        → Memᴰ j (jobs_to_cancel jobs rs)
        → Memᴰ j (elim o [ none ↦ jobs_to_cancel jobs rs | some k ↦ k ∷ jobs_to_cancel jobs rs ])
    later none n = n
    later (some k) n = Memᴰ.tail n

of_Waits :
    (jobs : ℕ → Option JobStatus) (rs : List StepRun) (j : ℕ)
    → Waits jobs rs j
    → Memᴰ j (jobs_to_cancel jobs rs)
unfolding job_to_cancel
of_Waits jobs rs j (waits r js m running at_job there free) =
    jobs-Waits jobs rs j r m (simp (running, at_job, there, free))

-- A run that is over cannot be cancelled: the answer is 409. Any other run is closed by it, for good,
-- and the jobs that are cancelled with it are exactly those of its running rows that no agent has
-- picked up.
pub cancel_run-closes :
    (env : Env) (run : Run) (rs : List StepRun)
    → (is_over run.status ≡ true → cancel_run env run rs ≡ http_error 409)
      × (is_over run.status ≡ false → cancel_run env run rs ≡ done (cancelled_run env run rs))
      × IsClosed rs (cancelled_run env run rs).outcome
      × ((j : ℕ) → Memᴰ j (cancelled_run env run rs).jobs ↔ Waits env.job_status rs j)
unfolding cancel_run cancelled_run advance_run is_running_run
cancel_run-closes env run rs = (
  λ h. rw h,
  λ h. rw h,
  record {
    cancelled = refl;
    ended = λ id q e. lookup-cancel_rows env.now id rs q e;
    kept = λ id q e f. cancel_rows_keeps env.now id rs q e f;
    still = λ env' og. refl;
  },
  λ j. (Waits-jobs env.job_status rs j, of_Waits env.job_status rs j),
)
