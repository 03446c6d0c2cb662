-- ===== src/Jobs/Dispatch/Handing.antt =====
-- Which jobs an agent gets, and that it gets none twice.
use lokilinux.Prelude.{
  ◌==◌, ℕ, true, false, ◌≡◌, refl, some, List, [], ◌∷◌, Memᴰ, arith, is_some, Bool-cases,
  Option-cases, inl, inr,
}
use lokilinux.Jobs.Types.{Job, JobResult, ResultStatus}
use lokilinux.Jobs.Store.{Store, find_job}
use lokilinux.Jobs.Dispatch.{
  mem, hold_over, row_matches, job_matches, pending_for, get_pending_jobs,
}

-- What lets a job out: a pending row of the agent's that is not held back, and the approval.
pub record IsDue (now agent : ℕ) (excluded : List ℕ) (js : List Job) (rs : List JobResult) (j : Job)
    : Type 0 where
  pub row : JobResult
  pub row_there : Memᴰ row rs
  pub job_there : find_job row.job_id js ≡ some j
  pub of_agent : row.agent_id ≡ agent
  pub pending : row.status ≡ ResultStatus.pending
  pub not_held : hold_over row.held_until now ≡ true
  pub not_excluded : mem row.job_id excluded ≡ false
  pub approved : j.requires_approval ≡ true → is_some j.approved_at ≡ true

module _ (now agent : ℕ) (excluded : List ℕ) (js : List Job) where
  further :
      {r : JobResult} {rs : List JobResult} {j : Job}
      → IsDue now agent excluded js rs j
      → IsDue now agent excluded js (r ∷ rs) j
  further d = record {
    row = d.row;
    row_there = Memᴰ.tail d.row_there;
    job_there = d.job_there;
    of_agent = d.of_agent;
    pending = d.pending;
    not_held = d.not_held;
    not_excluded = d.not_excluded;
    approved = d.approved;
  }

  IsDue-here :
      (r : JobResult) (rs : List JobResult) (k j : Job)
      → row_matches now agent excluded r ≡ true
      → find_job r.job_id js ≡ some k
      → job_matches k ≡ true
      → j ≡ k
      → IsDue now agent excluded js (r ∷ rs) j
  unfolding row_matches job_matches
  IsDue-here r rs k j m f a e = record {
    row = r;
    row_there = Memᴰ.head refl;
    job_there = cc (f, e);
    of_agent = ground arith;
    pending = ground arith;
    not_held = ground arith;
    not_excluded = ground arith;
    approved = λ w. rw e (ground (arith, a, rw e at w));
  }

  among :
      (r : JobResult) (rs : List JobResult) (k j : Job)
      → row_matches now agent excluded r ≡ true
      → find_job r.job_id js ≡ some k
      → job_matches k ≡ true
      → (Memᴰ j (pending_for now agent excluded js rs) → IsDue now agent excluded js rs j)
      → Memᴰ j (k ∷ pending_for now agent excluded js rs)
      → IsDue now agent excluded js (r ∷ rs) j
  among r rs k j m f a ih (Memᴰ.head e) = IsDue-here r rs k j m f a e
  among r rs k j m f a ih (Memᴰ.tail t) = further (ih t)

  pending_for-IsDue :
      (rs : List JobResult) (j : Job)
      → Memᴰ j (pending_for now agent excluded js rs)
      → IsDue now agent excluded js rs j
  unfolding pending_for
  pending_for-IsDue [] j m = elim m [ ]
  pending_for-IsDue (r ∷ rs) j m = elim (Bool-cases (row_matches now agent excluded r)) [
    | inr e ↦ further (pending_for-IsDue rs j (rw e at m))
    | inl e ↦ elim (Option-cases (find_job r.job_id js)) [
      | inl f ↦ further (pending_for-IsDue rs j (rw (e, f) at m))
      | inr (k, f) ↦ elim (Bool-cases (job_matches k)) [
        | inr a ↦ further (pending_for-IsDue rs j (rw (e, f, a) at m))
        | inl a ↦ among r rs k j e f a (λ t. pending_for-IsDue rs j t) (rw (e, f, a) at m)
      ]
    ]
  ]

-- An agent gets a job only where the job has a row for that agent that is pending, whose hold, if
-- any, is over and that is not excluded, and where the job does not require an approval or has one.
pub get_pending_jobs-IsDue :
    (now agent : ℕ) (excluded : List ℕ) (st : Store) (j : Job)
    → Memᴰ j (get_pending_jobs now agent excluded st)
    → IsDue now agent excluded st.jobs st.results j
unfolding get_pending_jobs
get_pending_jobs-IsDue now agent excluded st j m =
    pending_for-IsDue now agent excluded st.jobs st.results j m

-- `find_job` finds a job by its id.
pub id-find_job : (id : ℕ) (js : List Job) (j : Job) → find_job id js ≡ some j → j.id ≡ id
unfolding find_job
id-find_job id [] j h = cc
id-find_job id (x ∷ xs) j h = elim (Bool-cases (x.id == id)) [
  | inl here ↦ ground (arith, here, h)
  | inr there ↦ id-find_job id xs j (rw there at h)
]
