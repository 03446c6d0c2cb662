-- ===== src/Jobs/Dispatch/Claims.antt =====
-- `mark_dispatched` claims a row once, and `hold_rows` keeps a job back.
use lokilinux.Jobs.Dispatch.{
  get_pending_jobs, hold_rows, hold_time, hold_over, mem, claims_row, claim_rows, claimed,
  mark_dispatched,
}
use lokilinux.Jobs.Dispatch.Handing.{get_pending_jobs-IsDue, id-find_job}
use lokilinux.Prelude.{
  ◌&&◌, sym, ◌+◌, ◌<◌, ℕ, Bool, true, false, ◌≡◌, refl, ap, ◌∙◌, some, none, List, [], ◌∷◌, Memᴰ,
  arith, ◌==◌, Bool-cases, inl, inr, if◌then◌else◌, keep, map,
}
use lokilinux.Jobs.Types.{Job, JobResult, ResultStatus}
use lokilinux.Jobs.Store.{Store}

module _ (agent : ℕ) (ids : List ℕ) where
  abbrev claim : ℕ → JobResult → JobResult
  claim now r =
      if claims_row agent ids r
      then record r { status = ResultStatus.running; started_at = some now; held_until = none }
      else r

  unclaimable : (now : ℕ) (r : JobResult) → claims_row agent ids (claim now r) ≡ false
  unfolding claims_row
  unclaimable now r = ground arith

  none_left :
      (now : ℕ) (rs : List JobResult)
      → keep (claims_row agent ids) (claim_rows now agent ids rs) ≡ []
  unfolding claim_rows
  none_left now [] = refl
  none_left now (r ∷ rs) = rw (unclaimable now r, keep) (none_left now rs)

  claimed-claim_rows :
      (now : ℕ) (rs : List JobResult) → claimed agent ids (claim_rows now agent ids rs) ≡ []
  unfolding claimed
  claimed-claim_rows now rs = ap (map (λ (r : JobResult). r.job_id)) (none_left now rs)

  -- What a claim leaves of a row.
  pub claim_rows-Mem :
      (now : ℕ) (rs : List JobResult) (r : JobResult)
      → Memᴰ r rs
      → Memᴰ (claim now r) (claim_rows now agent ids rs)
  unfolding claim_rows
  claim_rows-Mem now [] r m = elim m [ ]
  claim_rows-Mem now (q ∷ rs) r (Memᴰ.head e) = Memᴰ.head (ap (claim now) e)
  claim_rows-Mem now (q ∷ rs) r (Memᴰ.tail m) = Memᴰ.tail (claim_rows-Mem now rs r m)

  claimed-Mem :
      (rs : List JobResult) (id : ℕ)
      → mem id (claimed agent ids rs) ≡ true
      → (r : JobResult) × Memᴰ r rs
        × (r.job_id ≡ id)
        × (r.agent_id ≡ agent)
        × (r.status ≡ ResultStatus.pending)
  unfolding claimed claims_row
  claimed-Mem [] id h = cc
  claimed-Mem (q ∷ rs) id h = elim (Bool-cases (claims_row agent ids q)) [
    | inr e ↦
        let (r, m, a, b, c) = claimed-Mem rs id (rw (e, keep) at h) in (r, Memᴰ.tail m, a, b, c)
    | inl e ↦ elim (Bool-cases (q.job_id == id)) [
      | inl f ↦ (q, Memᴰ.head refl, ground arith, ground arith, ground arith)
      | inr f ↦
          let (r, m, a, b, c) = claimed-Mem rs id (rw (f, mem) at (rw (e, keep) at h)) in
          (r, Memᴰ.tail m, a, b, c)
    ]
  ]

keep_none : (js : List Job) → keep (λ (j : Job). mem j.id []) js ≡ []
keep_none [] = refl
keep_none (j ∷ js) = keep_none js

keep-Mem :
    {A : Type 0} (p : A → Bool) (xs : List A) (x : A)
    → Memᴰ x (keep p xs)
    → Memᴰ x xs × (p x ≡ true)
keep-Mem p [] x m = elim m [ ]
keep-Mem p (y ∷ ys) x m = elim (Bool-cases (p y)) [
  | inr e ↦ let (k, f) = keep-Mem p ys x (rw (e, keep) at m) in (Memᴰ.tail k, f)
  | inl e ↦ kept_or_later e (λ k. keep-Mem p ys x k) (rw (e, keep) at m)
]
  where
    kept_or_later :
        p y ≡ true
        → (Memᴰ x (keep p ys) → Memᴰ x ys × (p x ≡ true))
        → Memᴰ x (y ∷ keep p ys)
        → Memᴰ x (y ∷ ys) × (p x ≡ true)
    kept_or_later e ih (Memᴰ.head f) = (Memᴰ.head f, ap p f ∙ e)
    kept_or_later e ih (Memᴰ.tail k) = let (t, g) = ih k in (Memᴰ.tail t, g)

-- A second round over the same jobs gives the agent none of them.
pub mark_dispatched-once :
    (now later agent : ℕ) (js : List Job) (st : Store)
    → (mark_dispatched later agent js (mark_dispatched now agent js st).1).0 ≡ []
unfolding mark_dispatched
mark_dispatched-once now later agent js st =
    rw (claimed-claim_rows agent (map (λ (j : Job). j.id) js) now st.results) (keep_none js)

-- A job that goes out was asked for, and had a pending row of the agent's.
pub mark_dispatched-Mem :
    (now agent : ℕ) (js : List Job) (st : Store) (j : Job)
    → Memᴰ j (mark_dispatched now agent js st).0
    → Memᴰ j js
      × ((r : JobResult) × Memᴰ r st.results
          × (r.job_id ≡ j.id)
          × (r.agent_id ≡ agent)
          × (r.status ≡ ResultStatus.pending))
unfolding mark_dispatched
mark_dispatched-Mem now agent js st j m =
    let ids = map (λ (k : Job). k.id) js in
    let (there, e) = keep-Mem (λ (k : Job). mem k.id (claimed agent ids st.results)) js j m in
    (there, claimed-Mem agent ids st.results j.id e)

-- A row of the agent's that `mark_held` was told about.
pub held_row :
    (now agent : ℕ) (held : List ℕ) (rs : List JobResult) (r : JobResult)
    → Memᴰ r (hold_rows now agent held rs)
    → r.agent_id ≡ agent
    → mem r.job_id held ≡ true
    → r.held_until ≡ some (now + hold_time)
unfolding hold_rows
held_row now agent held [] r m a h = elim m [ ]
held_row now agent held (q ∷ rs) r (Memᴰ.head e) a h =
    elim (Bool-cases (mem q.job_id held && q.agent_id == agent)) [
      | inl b ↦ ap (λ (x : JobResult). x.held_until) e ∙ simp b refl
      | inr b ↦
          let k : r ≡ q = rw b at e in
          let f : q.agent_id ≡ agent = sym (ap (λ (x : JobResult). x.agent_id) k) ∙ a in
          let g : mem q.job_id held ≡ true =
            sym (ap (λ (x : JobResult). mem x.job_id held) k) ∙ h in
          ground (arith, b, f, g)
    ]
held_row now agent held (q ∷ rs) r (Memᴰ.tail m) a h = held_row now agent held rs r m a h

-- A job that was held back from an agent does not go to it before the time of the hold is over.
pub mark_held-keeps :
    (now later agent : ℕ) (held excluded : List ℕ) (st : Store) (j : Job)
    → later < now + hold_time
    → Memᴰ j (
        get_pending_jobs later agent excluded
          (record st { results = hold_rows now agent held st.results }))
    → mem j.id held ≡ false
mark_held-keeps now later agent held excluded st j early m =
    let d =
      get_pending_jobs-IsDue later agent excluded
        (record st { results = hold_rows now agent held st.results }) j m in
    let same : j.id ≡ d.row.job_id = id-find_job d.row.job_id st.jobs j d.job_there in
    elim (Bool-cases (mem d.row.job_id held)) [
      | inr e ↦ simp same e
      | inl e ↦
          let h : d.row.held_until ≡ some (now + hold_time) =
            held_row now agent held st.results d.row d.row_there d.of_agent e in
          let over : hold_over (some (now + hold_time)) later ≡ true = simp h at d.not_held in
          ground (arith, over)
    ]
