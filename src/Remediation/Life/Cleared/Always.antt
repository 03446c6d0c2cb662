-- ===== src/Remediation/Life/Cleared/Always.antt =====
-- A plan is cleared at every point of its life.
use lokilinux.Prelude.{
  ℕ, String, Bool, ◌≡◌, refl, ◌⊎◌, subst, Option, List, inl, inr, Bool-cases, is_empty, any,
}
use lokilinux.Http.{done}
use lokilinux.Remediation.Types.{Trigger, Drift, Desk}
use lokilinux.Remediation.Service.{
  Env, Caller, NewAction, create_plan, is_blocked, window_usable, new_plan,
}
use lokilinux.Remediation.Life.{Change, Changes, Life, drift_to}
use lokilinux.Remediation.Life.Cleared.{IsCleared, IsCleared-more, signed-IsCleared}
use lokilinux.Remediation.Scheduler.{autopilot}
use lokilinux.Http.{done_injective}
use lokilinux.Remediation.Life.Cleared.Operations.{
  submit-IsCleared, approve-IsSigned, dry_run-IsCleared, rollback-IsSigned,
}
use lokilinux.Remediation.Life.Cleared.Workers.{
  scheduler_tick-IsCleared, autopilot_tick-IsCleared, report-IsCleared, sync-IsCleared,
  verify_tick-IsCleared, Graduates,
}

-- In the change `c` has approved the plan: by `approve`, or as the autopilot that graduates it.
abbrev pub Gave : Caller → {d e : Desk} → Change d e → Type 0
Gave c (Change.approves env a d e h) = a ≡ c
Gave c (Change.graduates env flushes d) = (autopilot ≡ c) × Graduates d
Gave c _ = ⊥

-- In one of the changes `c` has approved the plan.
abbrev pub HasApproved : {d e : Desk} → Changes d e → Caller → Type 0
HasApproved (Changes.here d) c = ⊥
HasApproved (Changes.then_by d e f l s) c = HasApproved l c ⊎ Gave c s

module _ (G : Caller → Type 0) where
  drift_to-IsCleared : (es : List Drift) (d : Desk) → IsCleared G d → IsCleared G (drift_to es d)
  drift_to-IsCleared es d g = record { by_status = g.by_status; by_job = g.by_job }

  Change-keeps :
      (d e : Desk) (s : Change d e)
      → ((c : Caller) → Gave c s → G c)
      → IsCleared G d
      → IsCleared G e
  Change-keeps _ _ (Change.submits d e h) k g = submit-IsCleared G d e h g
  Change-keeps _ _ (Change.approves env c d e h) k g =
      signed-IsCleared G e (approve-IsSigned G env c d e (k c refl) h)
  Change-keeps _ _ (Change.previews env c d e h) k g = dry_run-IsCleared G env c d e h g
  Change-keeps _ _ (Change.rolls_back env c d e h) k g =
      signed-IsCleared G e (rollback-IsSigned G env c d e h g)
  Change-keeps _ _ (Change.schedules env fleet d) k g = scheduler_tick-IsCleared G env fleet d g
  Change-keeps _ _ (Change.graduates env flushes d) k g =
      autopilot_tick-IsCleared G env flushes d (λ r. k autopilot (refl, r)) g
  Change-keeps _ _ (Change.reports r d) k g = report-IsCleared G r d g
  Change-keeps _ _ (Change.syncs now id d) k g = sync-IsCleared G now id d g
  Change-keeps _ _ (Change.verifies ev d) k g = verify_tick-IsCleared G ev d g
  Change-keeps _ _ (Change.drifts es d) k g = drift_to-IsCleared es d g

Changes-keeps : (d e : Desk) (l : Changes d e) → IsCleared (λ c. ⊥) d → IsCleared (HasApproved l) e
Changes-keeps _ _ (Changes.here d) g = g
Changes-keeps _ _ (Changes.then_by d e f l s) g =
    Change-keeps (HasApproved (Changes.then_by d e f l s)) e f s (λ c w. inr w)
      (IsCleared-more (HasApproved l) _ (λ c w. inl w) e (Changes-keeps d e l g))

module _ (env : Env) (trigger : Trigger) (actions : List NewAction) (emergency : Bool)
    (window by : Option ℕ) (actor : Option String) (drifts : List Drift) (G : Caller → Type 0) where
  new_plan-IsCleared :
      IsCleared G (new_plan env.now trigger actions emergency window by actor drifts)
  unfolding new_plan
  new_plan-IsCleared = record { by_status = λ h. cc; by_job = λ h. cc }

  create_plan-IsCleared :
      (d : Desk)
      → create_plan env trigger actions emergency window by actor drifts ≡ done d
      → IsCleared G d
  unfolding create_plan
  create_plan-IsCleared d h = elim (Bool-cases (is_empty actions)) [
    | inl n ↦ cc (simp n at h)
    | inr n ↦ elim (Bool-cases (any (is_blocked env) actions)) [
      | inl b ↦ cc (simp (n, b) at h)
      | inr b ↦ elim (Bool-cases (window_usable env window)) [
        | inr w ↦ cc (simp (n, b, w) at h)
        | inl w ↦ subst (IsCleared G) (done_injective _ d (simp (n, b, w) at h)) new_plan-IsCleared
      ]
    ]
  ]

-- In the life of a plan `c` has approved it.
abbrev pub ApprovedIn : {d : Desk} → Life d → Caller → Type 0
ApprovedIn (Life.begins env trigger actions emergency window by actor drifts d e h l) =
    HasApproved l

-- However a plan is created, submitted, approved, previewed, rolled back, dispatched by the
-- scheduler, graduated by the autopilot, synced with its jobs and verified: a plan in a status past
-- its approval, and one with a job that applies or undoes something, has a time of approval, and
-- bears the user of somebody who has approved it in this life and did not create it: neither the
-- caller's id, where it is not empty, nor the user's is the creator's. That is a caller of `approve`,
-- or the autopilot, if the plan was an automatic draft whose newest job was a completed dry run.
pub Life-IsCleared : (d : Desk) (l : Life d) → IsCleared (ApprovedIn l) d
Life-IsCleared _ (Life.begins env trigger actions emergency window by actor drifts d e h l) =
    Changes-keeps d e l
      (create_plan-IsCleared env trigger actions emergency window by actor drifts (λ c. ⊥) d h)
