-- ===== src/Jobs/Dispatch/Cancel.antt =====
-- What a cancellation means to the agents: the query for their jobs does not read `Job.status`.
use lokilinux.Jobs.Dispatch.Handing.{id-find_job}
use lokilinux.Prelude.{
  sym, ◌∙◌, ℕ, true, false, ◌≡◌, refl, Option, some, none, List, [], ◌∷◌, arith, ◌==◌, Bool-cases,
  Option-cases, inl, inr, if◌then◌else◌, map,
}
use lokilinux.Http.{done}
use lokilinux.Jobs.Types.{is_cancellable_job, Job, JobResult, JobStatus}
use lokilinux.Jobs.Store.{Store, find_job, put_job}
use lokilinux.Jobs.Dispatch.{cancel_job, get_pending_jobs, row_matches, job_matches, pending_for}

-- Two answers of `find_job` that the query treats alike.
abbrev Alike : Option Job → Option Job → Type 0
Alike none none = Unit
Alike (some j) (some k) = (j.id ≡ k.id) × (job_matches j ≡ job_matches k)
Alike _ _ = ⊥

Alike-refl : (o : Option Job) → Alike o o
Alike-refl none = tt
Alike-refl (some j) = (refl, refl)

abbrev ids : List Job → List ℕ
ids js = map (λ (j : Job). j.id) js

module _ (now agent : ℕ) (excluded : List ℕ) where
  asked_of : Option Job → List ℕ → List ℕ
  asked_of none rest = rest
  asked_of (some j) rest = if job_matches j then j.id ∷ rest else rest

  asked-Alike : (o p : Option Job) (rest : List ℕ) → Alike o p → asked_of o rest ≡ asked_of p rest
  unfolding asked_of
  asked-Alike none none rest a = refl
  asked-Alike none (some k) rest a = elim a [ ]
  asked-Alike (some j) none rest a = elim a [ ]
  asked-Alike (some j) (some k) rest a = let (e, f) = a in simp (e, f) refl

  -- The ids of the answer, row by row.
  ids-pending_for :
      (js : List Job) (r : JobResult) (rs : List JobResult)
      → ids (pending_for now agent excluded js (r ∷ rs)) ≡ (
          if row_matches now agent excluded r
          then asked_of (find_job r.job_id js) (ids (pending_for now agent excluded js rs))
          else ids (pending_for now agent excluded js rs))
  unfolding pending_for asked_of
  ids-pending_for js r rs = elim (Bool-cases (row_matches now agent excluded r)) [
    | inr e ↦ simp e refl
    | inl e ↦ elim (Option-cases (find_job r.job_id js)) [
      | inl f ↦ simp (e, f) refl
      | inr (k, f) ↦ elim (Bool-cases (job_matches k)) [
        | inl a ↦ simp (e, f, a) refl
        | inr a ↦ simp (e, f, a) refl
      ]
    ]
  ]

  none_asked :
      (js ks : List Job)
      → ids (pending_for now agent excluded js []) ≡ ids (pending_for now agent excluded ks [])
  unfolding pending_for
  none_asked js ks = refl

  pending_for-Alike :
      (js ks : List Job)
      → ((id : ℕ) → Alike (find_job id js) (find_job id ks))
      → (rs : List JobResult)
      → ids (pending_for now agent excluded js rs) ≡ ids (pending_for now agent excluded ks rs)
  pending_for-Alike js ks h [] = none_asked js ks
  pending_for-Alike js ks h (r ∷ rs) =
      rw
        (
          ids-pending_for js r rs,
          ids-pending_for ks r rs,
          pending_for-Alike js ks h rs,
          asked-Alike (find_job r.job_id js) (find_job r.job_id ks)
              (ids (pending_for now agent excluded ks rs)) (h r.job_id),
        )
        refl

cancelled-matches :
    (j : Job) → job_matches (record j { status = JobStatus.cancelled }) ≡ job_matches j
unfolding job_matches
cancelled-matches j = refl

find_job-put_job :
    (j k : Job) (js : List Job) (id : ℕ)
    → find_job k.id js ≡ some j
    → j.id ≡ k.id
    → job_matches k ≡ job_matches j
    → Alike (find_job id js) (find_job id (put_job k js))
unfolding find_job put_job
find_job-put_job j k [] id h e m = tt
find_job-put_job j k (x ∷ xs) id h e m = elim (Bool-cases (x.id == k.id)) [
  | inl here ↦
      let f : x ≡ j = some_injective (rw here at h) in
      elim (Bool-cases (x.id == id)) [
        | inl at_id ↦
            let at_id' : (k.id == id) ≡ true = ground arith in
            rw (here, find_job, at_id, at_id') (cc (f, e), cc (f, m))
        | inr off ↦
            let off' : (k.id == id) ≡ false = ground arith in
            rw (here, find_job, off, off') (Alike-refl (find_job id xs))
      ]
  | inr there ↦ elim (Bool-cases (x.id == id)) [
    | inl at_id ↦ rw (there, find_job, at_id) (refl, refl)
    | inr off ↦ rw (there, find_job, off) (find_job-put_job j k xs id (rw there at h) e m)
  ]
]
  where
    some_injective : {a b : Job} → some a ≡ some b → a ≡ b
    some_injective g = cc

abbrev cancelled : Job → Job
cancelled j = record j { status = JobStatus.cancelled }

module _ (id : ℕ) (st st' : Store) where
  reduced :
      (j : Job)
      → find_job id st.jobs ≡ some j
      → is_cancellable_job j.status ≡ true
      → cancel_job id st ≡ done (record st { jobs = put_job (cancelled j) st.jobs })
  unfolding cancel_job
  reduced j there c = simp (there, c) refl

  module _ (now agent : ℕ) (excluded : List ℕ) where
    same_handed :
        (j : Job)
        → find_job id st.jobs ≡ some j
        → done (record st { jobs = put_job (cancelled j) st.jobs }) ≡ done st'
        → ids (get_pending_jobs now agent excluded st')
          ≡ ids (get_pending_jobs now agent excluded st)
    unfolding get_pending_jobs
    same_handed j there h =
        let e : record st { jobs = put_job (cancelled j) st.jobs } ≡ st' = cc in
        let same =
          pending_for-Alike now agent excluded st.jobs (put_job (cancelled j) st.jobs)
            (λ x.
              find_job-put_job j (cancelled j) st.jobs x
                (simp (id-find_job id st.jobs j there) there) refl (cancelled-matches j))
            st.results in
        rw (← e) (sym same)

    -- A job that the API cancels stays with the agents: each of them is given the same jobs, by
    -- their ids, as before.
    pub cancel_job-handed :
        cancel_job id st ≡ done st'
        → ids (get_pending_jobs now agent excluded st')
          ≡ ids (get_pending_jobs now agent excluded st)
    unfolding cancel_job
    cancel_job-handed h = elim (Option-cases (find_job id st.jobs)) [
      | inl gone ↦ cc (simp gone at h)
      | inr (j, there) ↦ elim (Bool-cases (is_cancellable_job j.status)) [
        | inr c ↦ cc (simp (there, c) at h)
        | inl c ↦ same_handed j there (sym (reduced j there c) ∙ h)
      ]
    ]
