-- ===== src/Remediation/Life/Cleared.antt =====
-- Nothing is applied or undone before a second person, or the autopilot, has approved the plan.
pub mod Operations
pub mod Workers
pub mod Always
use lokilinux.Prelude.{ℕ, String, Bool, true, false, not, ◌≡◌, ◌≢◌, refl, some, any, is_some, arith}
use lokilinux.Http.{done}
use lokilinux.Remediation.Types.{PlanStatus, Plan, PlanJob, Desk, is_dry_run}
use lokilinux.Remediation.Service.{Env, Caller, is_plan_creator, stamp}
use lokilinux.Jobs.Approval.FourEyes.{same_user-false, same_actor-false}

-- A status that only an approved plan reaches. FAILED is not one: a dry run of the autopilot may
-- fail a draft.
abbrev pub is_past_approval : PlanStatus → Bool
is_past_approval PlanStatus.draft = false
is_past_approval PlanStatus.pending_approval = false
is_past_approval PlanStatus.failed = false
is_past_approval _ = true

abbrev pub acts : PlanJob → Bool
acts j = not (is_dry_run j.operation)

abbrev pub with_status : PlanStatus → Plan → Plan
with_status s p = record p { status = s }

-- `c` is not who created the plan, by the caller's id (where it is not empty) and by the user's.
pub record IsOther (c : Caller) (p : Plan) : Type 0 where
  pub by_actor : (s : String) → c.actor_id ≡ some s → s ≢ "" → p.created_by_actor ≢ some s
  pub by_user : (n : ℕ) → p.created_by ≡ some n → c.actor ≢ some n

pub is_plan_creator-IsOther : (c : Caller) (p : Plan) → is_plan_creator c p ≡ false → IsOther c p
unfolding is_plan_creator
is_plan_creator-IsOther c p h = record {
  by_actor = same_actor-false c.actor_id p.created_by_actor (ground arith);
  by_user = same_user-false p.created_by c.actor (ground arith);
}

-- `G c` says that `c` has approved the plan.
module _ (G : Caller → Type 0) where
  -- The plan has a time of approval, and bears the user's id of somebody who has approved it and did
  -- not create it.
  pub record IsSigned (p : Plan) : Type 0 where
    pub approved : is_some p.approved_at ≡ true
    pub signer : Caller
    pub has_approved : G signer
    pub stamped : p.approved_by ≡ signer.actor
    pub other : IsOther signer p

  -- A plan past its approval, and one with a job that applies or undoes, is signed.
  pub record IsCleared (d : Desk) : Type 0 where
    pub by_status : is_past_approval d.plan.status ≡ true → IsSigned d.plan
    pub by_job : any acts d.jobs ≡ true → IsSigned d.plan

  pub with_status-IsSigned : (p : Plan) (s : PlanStatus) → IsSigned p → IsSigned (with_status s p)
  with_status-IsSigned p s g = record {
    approved = g.approved;
    signer = g.signer;
    has_approved = g.has_approved;
    stamped = g.stamped;
    other = record { by_actor = g.other.by_actor; by_user = g.other.by_user };
  }

  -- A signed plan is cleared, whatever its jobs are.
  pub signed-IsCleared : (d : Desk) → IsSigned d.plan → IsCleared d
  signed-IsCleared d g = record { by_status = λ h. g; by_job = λ h. g }

  pub stamp-IsSigned :
      (env : Env) (c : Caller) (d : Desk)
      → G c
      → is_plan_creator c d.plan ≡ false
      → IsSigned (stamp env c d).plan
  unfolding stamp
  stamp-IsSigned env c d k h =
      let o = is_plan_creator-IsOther c d.plan h in
      record {
        approved = refl;
        signer = c;
        has_approved = k;
        stamped = refl;
        other = record { by_actor = o.by_actor; by_user = o.by_user };
      }

-- What one caller's approval gives holds for more callers.
pub IsSigned-more :
    (G H : Caller → Type 0) → ((c : Caller) → G c → H c) → (p : Plan) → IsSigned G p → IsSigned H p
IsSigned-more G H f p g = record {
  approved = g.approved;
  signer = g.signer;
  has_approved = f g.signer g.has_approved;
  stamped = g.stamped;
  other = g.other;
}

pub IsCleared-more :
    (G H : Caller → Type 0)
    → ((c : Caller) → G c → H c)
    → (d : Desk) → IsCleared G d
    → IsCleared H d
IsCleared-more G H f d g = record {
  by_status = λ h. IsSigned-more G H f d.plan (g.by_status h);
  by_job = λ h. IsSigned-more G H f d.plan (g.by_job h);
}
