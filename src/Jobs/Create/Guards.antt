-- ===== src/Jobs/Create/Guards.antt =====
-- What holds of a job that `create_job` lets through.
use lokilinux.Python.{Result, ok, Fields, has_key, Result-cases}
use lokilinux.Prelude.{
  subst, ◌∷◌, [], ◌++◌, String, ℕ, Bool, true, false, not, ◌&&◌, ◌≡◌, ◌≢◌, refl, List, Memᴰ, arith,
  eq_iff, str_eq, Bool-cases, inl, inr, any-false, keep, is_empty,
}
use lokilinux.Jobs.Types.{ResultStatus, JobType, Job, JobResult}
use lokilinux.Jobs.Access.{
  Role, Capability, allowed, required_capabilities, unauthorized_capabilities, assert_can_create,
  is_shell_job, assert_no_smuggled_command, is_system,
}
use lokilinux.Jobs.Create.{
  is_active_job, fan_out, has_duplicate, JobRequest, Targets, Store, create_job, target_agents,
  forces_approval, new_job, none, insert_job,
}

keep-empty :
    {A : Type 0} (p : A → Bool) (xs : List A) (x : A)
    → is_empty (keep p xs) ≡ true
    → Memᴰ x xs
    → p x ≡ false
keep-empty p [] x h m = elim m [ ]
keep-empty p (y ∷ ys) x h (Memᴰ.head e) = ground arith
keep-empty p (y ∷ ys) x h (Memᴰ.tail m) = keep-empty p ys x (ground arith) m

-- The guards of `create_job`, by what they let through.
pub assert_no_smuggled_command-ok :
    (t : JobType) (ps : Fields) (u : Unit {0})
    → assert_no_smuggled_command t ps ≡ ok u
    → has_key ps "command" ≡ true
    → is_shell_job t ≡ true
unfolding assert_no_smuggled_command
assert_no_smuggled_command-ok t ps u h k = ground arith

not_system : (r : Role) → r ≢ Role.system → is_system r ≡ false
not_system r h = ground arith

pub assert_can_create-ok :
    (r : Role) (t : JobType) (ps : Fields) (u : Unit {0})
    → assert_can_create r t ps ≡ ok u
    → r ≢ Role.system
    → (c : Capability) → Memᴰ c (required_capabilities t ps)
    → allowed c r ≡ true
unfolding assert_can_create unauthorized_capabilities
assert_can_create-ok r t ps u h n c m =
    elim (Bool-cases (is_empty (keep (λ c. not (allowed c r)) (required_capabilities t ps)))) [
      | inr e ↦ cc (simp (not_system r n, e) at h)
      | inl e ↦
          let k = keep-empty (λ c. not (allowed c r)) (required_capabilities t ps) c e m in
          ground (arith, k)
    ]

fan_out-covers :
    (id a : ℕ) (targets : List ℕ)
    → Memᴰ a targets
    → (x : JobResult) × Memᴰ x (fan_out id targets)
      × (x.job_id ≡ id)
      × (x.agent_id ≡ a)
      × (x.status ≡ ResultStatus.pending)
unfolding fan_out
fan_out-covers id a [] m = elim m [ ]
fan_out-covers id a (b ∷ bs) (Memᴰ.head e) = (_, Memᴰ.head refl, refl, cc, refl)
fan_out-covers id a (b ∷ bs) (Memᴰ.tail m) =
    let (x, k, e, f, g) = fan_out-covers id a bs m in (x, Memᴰ.tail k, e, f, g)

Mem-append_right : {A : Type 0} (x : A) (xs ys : List A) → Memᴰ x ys → Memᴰ x (xs ++ ys)
Mem-append_right x [] ys m = m
Mem-append_right x (z ∷ zs) ys m = Memᴰ.tail (Mem-append_right x zs ys m)

no_duplicate :
    (key : String) (js : List Job) (k : Job)
    → has_duplicate key js ≡ false
    → Memᴰ k js
    → k.dedup_key ≡ key
    → is_active_job k.status ≡ false
unfolding has_duplicate
no_duplicate key js k h m e =
    let f = any-false (λ (j : Job). str_eq j.dedup_key key && is_active_job j.status) js k h m in
    ground (arith, f, eq_iff k.dedup_key key)

-- What holds where a job is created.
pub record IsGuarded (id : ℕ) (r : JobRequest) (st : Store) (j : Job) (st' : Store) : Type 0 where
  pub shell_only : has_key r.parameters "command" ≡ true → is_shell_job r.job_type ≡ true
  pub role_suffices :
      r.actor_role ≢ Role.system
      → (c : Capability) → Memᴰ c (required_capabilities r.job_type r.parameters)
      → allowed c r.actor_role ≡ true
  pub gated :
      forces_approval r.job_type ≡ true → r.skip_approval_gate ≡ false → j.requires_approval ≡ true
  pub same_work : (j.job_type ≡ r.job_type) × (j.parameters ≡ r.parameters)
  pub not_approved : j.approved_at ≡ none
  pub no_twin :
      (k : Job) → Memᴰ k st.jobs → k.dedup_key ≡ j.dedup_key → is_active_job k.status ≡ false
  pub added : st'.jobs ≡ st.jobs ++ j ∷ []
  pub fanned_out :
      (a : ℕ)
      → Memᴰ a (target_agents r.targets)
      → (x : JobResult) × Memᴰ x st'.results
        × (x.job_id ≡ id)
        × (x.agent_id ≡ a)
        × (x.status ≡ ResultStatus.pending)

module _ (compute_dedup_key : JobType → Targets → Fields → String) (id : ℕ) (r : JobRequest)
    (st : Store) where
  abbrev key : String
  key = compute_dedup_key r.job_type r.targets r.parameters

  abbrev job : Job
  job = new_job id key r

  fanned :
      (a : ℕ)
      → Memᴰ a (target_agents r.targets)
      → (x : JobResult) × Memᴰ x (st.results ++ fan_out id (target_agents r.targets))
        × (x.job_id ≡ id)
        × (x.agent_id ≡ a)
        × (x.status ≡ ResultStatus.pending)
  fanned a m =
      let (x, k, e, f, g) = fan_out-covers id a (target_agents r.targets) m in
      (x, Mem-append_right x st.results (fan_out id (target_agents r.targets)) k, e, f, g)

  guarded :
      (u v : Unit {0})
      → assert_no_smuggled_command r.job_type r.parameters ≡ ok u
      → assert_can_create r.actor_role r.job_type r.parameters ≡ ok v
      → has_duplicate key st.jobs ≡ false
      → IsGuarded id r st job (insert_job st job)
  unfolding new_job
  guarded u v h k d = record {
    shell_only = assert_no_smuggled_command-ok r.job_type r.parameters u h;
    role_suffices = assert_can_create-ok r.actor_role r.job_type r.parameters v k;
    gated = λ f s. ground arith;
    same_work = (refl, refl);
    not_approved = refl;
    no_twin = λ k m e. no_duplicate key st.jobs k d m e;
    added = refl;
    fanned_out = fanned;
  }

  abbrev given : Job → Store → Result (Job × Store)
  given j st' = ok (j, st')

  both :
      (j : Job) (st' : Store)
      → given job (insert_job st job) ≡ given j st'
      → IsGuarded id r st job (insert_job st job)
      → IsGuarded id r st j st'
  both j st' k g =
      let e : job ≡ j = cc k in
      let f : insert_job st job ≡ st' = cc k in
      subst (λ z. IsGuarded id r st j z) f
        (subst (λ z. IsGuarded id r st z (insert_job st job)) e g)

  -- A job is created only where a "command" parameter comes with a shell job, where the caller's
  -- role (unless it is the system's) may use every capability that the job needs, and where no
  -- active job has its key. A type that forces approval then requires it, unless the caller skips
  -- the gate; the job has the type and the parameters of the request, is not yet approved, is added behind the others, and each of its targets
  -- has a pending row.
  pub create_job-IsGuarded :
      (j : Job) (st' : Store)
      → create_job compute_dedup_key id r st ≡ ok (j, st')
      → IsGuarded id r st j st'
  unfolding create_job
  create_job-IsGuarded j st' h =
      elim (Result-cases (assert_no_smuggled_command r.job_type r.parameters)) [
        | inr (x, e) ↦ cc (simp e at h)
        | inl (u, e) ↦
            elim (Result-cases (assert_can_create r.actor_role r.job_type r.parameters)) [
              | inr (x, f) ↦ cc (simp (e, f) at h)
              | inl (v, f) ↦ elim (Bool-cases (has_duplicate key st.jobs)) [
                | inl d ↦ cc (simp (e, f, d) at h)
                | inr d ↦ both j st' (simp (e, f, d) at h) (guarded u v e f d)
              ]
            ]
      ]
