-- ===== src/Remediation/Scheduler/Scoped.antt =====
-- Which plans the scheduler dispatches.
use lokilinux.Remediation.Types.{Desk, Action, is_approved}
use lokilinux.Remediation.Windows.{Window, Agent, is_window_open, agent_matches_window_scope}
use lokilinux.Remediation.Service.{Env, dispatch}
use lokilinux.Remediation.Scheduler.{
  Fleet, in_scope, may_dispatch, or_same, try_dispatch, scheduler_tick,
}
use lokilinux.Http.{Http, done, http_error}
use lokilinux.Jobs.Access.{Role}
use lokilinux.Remediation.Payload.{agent_ids, insert_id, sorted_ids}
use lokilinux.Prelude.{
  some, ==_iff, sym, subst, arith, inl, inr, ◌⊎◌, Bool-cases, Option-cases, ltb, ◌==◌, refl, ℕ,
  Bool, true, ◌≡◌, List, [], ◌∷◌, Memᴰ, all, map,
}

module _ (p : ℕ → Bool) where
  all-insert_id :
      (a : ℕ) (xs : List ℕ) → all p (insert_id a xs) ≡ true → (p a ≡ true) × (all p xs ≡ true)
  unfolding insert_id
  all-insert_id a [] h = (ground arith, refl)
  all-insert_id a (x ∷ xs) h = elim (Bool-cases (ltb a x)) [
    | inl b ↦ let k = rw b at h in (ground arith, ground arith)
    | inr b ↦ elim (Bool-cases (a == x)) [
      | inl e ↦
          let k = rw (b, e) at h in
          let q : p x ≡ true = ground arith in
          (subst (λ n. p n ≡ true) (sym ((==_iff a x).0 e)) q, k)
      | inr e ↦
          let k = rw (b, e) at h in
          let (y, z) = all-insert_id a xs (ground arith) in (y, ground arith)
    ]
  ]

  all-sorted_ids :
      (xs : List Action)
      → all p (sorted_ids (map (λ (a : Action). a.agent_id) xs)) ≡ true
      → (a : Action) → Memᴰ a xs
      → p a.agent_id ≡ true
  unfolding sorted_ids
  all-sorted_ids [] h a m = elim m [ ]
  all-sorted_ids (x ∷ xs) h a (Memᴰ.head e) =
      let (b, k) = all-insert_id x.agent_id (sorted_ids (map (λ (a : Action). a.agent_id) xs)) h in
      subst (λ (y : Action). p y.agent_id ≡ true) (sym e) b
  all-sorted_ids (x ∷ xs) h a (Memᴰ.tail m) =
      let (b, k) = all-insert_id x.agent_id (sorted_ids (map (λ (a : Action). a.agent_id) xs)) h in
      all-sorted_ids xs k a m

-- The scheduler dispatches `d`, and `e` is what comes of it.
pub record IsScheduled (env : Env) (fleet : Fleet) (d e : Desk) : Type 0 where
  pub approved : is_approved d.plan.status ≡ true
  pub id : ℕ
  pub waits : d.plan.maintenance_window_id ≡ some id
  pub window : Window
  pub is_window : env.window id ≡ some window
  pub enabled : window.is_enabled ≡ true
  pub is_open : is_window_open window env.now ≡ true
  pub in_scope :
      (x : Action)
      → Memᴰ x d.actions
      → (a : Agent) × (fleet x.agent_id ≡ some a) × (agent_matches_window_scope a window ≡ true)
  pub dispatches : dispatch env Role.system d ≡ done e

in_scope_lem :
    (fleet : Fleet) (w : Window) (id : ℕ)
    → in_scope fleet w id ≡ true
    → (a : Agent) × (fleet id ≡ some a) × (agent_matches_window_scope a w ≡ true)
unfolding in_scope
in_scope_lem fleet w id h = elim (Option-cases (fleet id)) [
  | inl n ↦ cc (rw (n, in_scope) at h)
  | inr (a, n) ↦ (a, n, rw (n, in_scope) at h)
]

module _ (env : Env) (fleet : Fleet) (d : Desk) where
  abbrev Verdict : Desk → Type 0
  Verdict e = (e ≡ d) ⊎ IsScheduled env fleet d e

  or_same-Verdict :
      (r : Http Desk)
      → ((e : Desk) → r ≡ done e → IsScheduled env fleet d e)
      → Verdict (or_same d r)
  or_same-Verdict (done e) k = inr (k e refl)
  or_same-Verdict (http_error c) k = inl refl

  scheduled :
      (id : ℕ) (w : Window)
      → is_approved d.plan.status ≡ true
      → d.plan.maintenance_window_id ≡ some id
      → env.window id ≡ some w
      → may_dispatch env fleet d w ≡ true
      → (e : Desk) → dispatch env Role.system d ≡ done e
      → IsScheduled env fleet d e
  unfolding may_dispatch agent_ids
  scheduled id w a m n h e k = record {
    approved = a;
    id = id;
    waits = m;
    window = w;
    is_window = n;
    enabled = ground arith;
    is_open = ground arith;
    in_scope = λ x i.
        in_scope_lem fleet w x.agent_id
          (all-sorted_ids (in_scope fleet w) d.actions (ground arith) x i);
    dispatches = k;
  }

  try_dispatch-Verdict :
      (id : ℕ)
      → is_approved d.plan.status ≡ true
      → d.plan.maintenance_window_id ≡ some id
      → Verdict (try_dispatch env fleet id d)
  unfolding try_dispatch
  try_dispatch-Verdict id a m = elim (Option-cases (env.window id)) [
    | inl n ↦ rw (n, try_dispatch) (inl refl)
    | inr (w, n) ↦ elim (Bool-cases (may_dispatch env fleet d w)) [
      | inr h ↦ rw (n, h, try_dispatch) (inl refl)
      | inl h ↦
          rw (n, h, try_dispatch)
            (or_same-Verdict (dispatch env Role.system d) (scheduled id w a m n h))
    ]
  ]

  tick_lem :
      (id : ℕ)
      → is_approved d.plan.status ≡ true
      → d.plan.maintenance_window_id ≡ some id
      → scheduler_tick env fleet d ≡ try_dispatch env fleet id d
  unfolding scheduler_tick
  tick_lem id a m = simp (a, m, scheduler_tick) refl

  -- A round of the scheduler leaves a plan as it is, or dispatches it: then the plan was APPROVED
  -- and waits for a window that exists, is enabled and open, and every action is for an agent that
  -- exists and is in the scope of that window.
  pub scheduler_tick-IsScheduled :
      (scheduler_tick env fleet d ≡ d) ⊎ IsScheduled env fleet d (scheduler_tick env fleet d)
  unfolding scheduler_tick
  scheduler_tick-IsScheduled = elim (Bool-cases (is_approved d.plan.status)) [
    | inr a ↦ simp (a, scheduler_tick) (inl refl)
    | inl a ↦ elim (Option-cases d.plan.maintenance_window_id) [
      | inl m ↦ simp (a, m, scheduler_tick) (inl refl)
      | inr (id, m) ↦ subst Verdict (sym (tick_lem id a m)) (try_dispatch-Verdict id a m)
    ]
  ]
