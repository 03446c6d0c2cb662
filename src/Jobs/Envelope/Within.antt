-- ===== src/Jobs/Envelope/Within.antt =====
-- The capabilities that claims name are among those that the creation of the job asks for.
use lokilinux.Prelude.{
  ℕ, String, true, false, ◌≡◌, ◌≢◌, refl, sym, subst, ◌⊎◌, inl, inr, Option, none, some, List, [],
  ◌∷◌, Memᴰ, Mem-snoc, Bool-cases, any, ◌==◌,
}
use lokilinux.Python.{
  Value, Items, Fields, null, bool, int, str, list, dict, nil, cons, field, get, truthy,
  Result-cases, ok, ok_injective,
}
use lokilinux.Jobs.Types.{JobType, Job}
use lokilinux.Jobs.Access.{
  Role, Capability, allowed, step_capability, step_type, steps_capabilities, items_of,
}
use lokilinux.Jobs.Access as Access
use lokilinux.Jobs.Envelope.{
  rank, step_cap, append_cap, collect_caps, steps_of, or_bash, required_capabilities,
}
use lokilinux.Jobs.Store.{Store}
use lokilinux.Jobs.Create.{JobRequest, Targets, create_job}
use lokilinux.Jobs.Create.Guards.{create_job-IsGuarded}
use lokilinux.Jobs.Approval.{Claim, Signer, claims}
use lokilinux.Jobs.Approval.FourEyes.{claims-IsBound}

-- `c` is one of the capabilities or the one that is added.
append_cap-Mem :
    (caps : List Capability) (o : Option Capability) (c : Capability)
    → Memᴰ c (append_cap caps o)
    → Memᴰ c caps ⊎ (o ≡ some c)
unfolding append_cap
append_cap-Mem caps none c m = inl m
append_cap-Mem caps (some d) c m = elim (Bool-cases (any (λ x. rank x == rank d) caps)) [
  | inl h ↦ inl (rw h at m)
  | inr h ↦ last (Mem-snoc caps d c (rw h at m))
]
  where
    last : Memᴰ c caps ⊎ (c ≡ d) → Memᴰ c caps ⊎ (some d ≡ some c)
    last (inl k) = inl k
    last (inr e) = inr (cc)

-- A step that gives a capability gives the one of its type.
step_cap-ok : (v : Value) (o : Option Capability) → step_cap v ≡ ok o → step_capability v ≡ o
unfolding step_cap step_capability
step_cap-ok null o h = ok_injective _ o h
step_cap-ok (bool b) o h = ok_injective _ o h
step_cap-ok (int z) o h = ok_injective _ o h
step_cap-ok (str s) o h = ok_injective _ o h
step_cap-ok (list nil) o h = ok_injective _ o h
step_cap-ok (list (cons v vs)) o h = cc
step_cap-ok (dict Fields.end) o h = ok_injective _ o h
step_cap-ok (dict (field k v fs)) o h = cc

-- What the first step adds to the capabilities of a list of steps.
steps_capabilities-first :
    (v : Value) (vs : Items) (o : Option Capability) (c : Capability)
    → step_capability (step_type v) ≡ o
    → (o ≡ some c) ⊎ Memᴰ c (steps_capabilities vs)
    → Memᴰ c (steps_capabilities (cons v vs))
unfolding steps_capabilities
steps_capabilities-first v vs none c e (inl h) = cc
steps_capabilities-first v vs none c e (inr m) = rw (e, steps_capabilities) m
steps_capabilities-first v vs (some d) c e (inl h) =
    rw (e, steps_capabilities) (Memᴰ.head (let k : d ≡ c = cc in sym k))
steps_capabilities-first v vs (some d) c e (inr m) = rw (e, steps_capabilities) (Memᴰ.tail m)

collect_caps-Mem :
    (vs : Items) (start caps : List Capability) (c : Capability)
    → collect_caps start vs ≡ ok caps
    → Memᴰ c caps
    → Memᴰ c start ⊎ Memᴰ c (steps_capabilities vs)
unfolding collect_caps
collect_caps-Mem nil start caps c h m = inl (subst (Memᴰ c) (sym (ok_injective start caps h)) m)
collect_caps-Mem (cons v vs) start caps c h m = elim (Result-cases (step_cap (step_type v))) [
  | inr (x, e) ↦ cc (rw e at h)
  | inl (o, e) ↦
      sort o (step_cap-ok (step_type v) o e)
        (collect_caps-Mem vs (append_cap start o) caps c (rw e at h) m)
]
  where
    added :
        (o : Option Capability)
        → step_capability (step_type v) ≡ o
        → Memᴰ c start ⊎ (o ≡ some c)
        → Memᴰ c start ⊎ Memᴰ c (steps_capabilities (cons v vs))
    added o e (inl k) = inl k
    added o e (inr k) = inr (steps_capabilities-first v vs o c e (inl k))

    sort :
        (o : Option Capability)
        → step_capability (step_type v) ≡ o
        → Memᴰ c (append_cap start o) ⊎ Memᴰ c (steps_capabilities vs)
        → Memᴰ c start ⊎ Memᴰ c (steps_capabilities (cons v vs))
    sort o e (inl k) = added o e (append_cap-Mem start o c k)
    sort o e (inr k) = inr (steps_capabilities-first v vs o c e (inr k))

steps_of-ok : (v : Value) (vs : Items) → steps_of v ≡ ok vs → items_of v ≡ vs
unfolding steps_of items_of
steps_of-ok null vs h = ok_injective _ vs h
steps_of-ok (bool true) vs h = cc
steps_of-ok (bool false) vs h = ok_injective _ vs h
steps_of-ok (int z) vs h = elim (Bool-cases (truthy (int z))) [
  | inl t ↦ cc (rw t at h)
  | inr t ↦ ok_injective _ vs (rw t at h)
]
steps_of-ok (str s) vs h = ok_injective _ vs h
steps_of-ok (list ws) vs h = ok_injective _ vs h
steps_of-ok (dict fs) vs h = ok_injective _ vs h

or_bash-Mem :
    (caps : List Capability) (c : Capability)
    → Memᴰ c (or_bash caps)
    → Memᴰ c caps ⊎ (c ≡ Capability.exec_bash)
unfolding or_bash
or_bash-Mem [] c (Memᴰ.head e) = inr e
or_bash-Mem [] c (Memᴰ.tail k) = elim k [ ]
or_bash-Mem (d ∷ ds) c m = inl m

steps-Mem :
    (params : Fields) (vs : Items) (caps : List Capability) (c : Capability)
    → steps_of (get params "steps") ≡ ok vs
    → collect_caps [] vs ≡ ok caps
    → Memᴰ c (or_bash caps)
    → Memᴰ c (Access.required_capabilities JobType.workflow_steps params)
unfolding Access.required_capabilities
steps-Mem params vs caps c s k m = elim (or_bash-Mem caps c m) [
  | inr e ↦ Memᴰ.head e
  | inl n ↦ elim (collect_caps-Mem vs [] caps c k n) [
    | inl none_yet ↦ elim none_yet [ ]
    | inr o ↦ Memᴰ.tail (
        subst (λ (x : Items). Memᴰ c (steps_capabilities x))
          (sym (steps_of-ok (get params "steps") vs s)) o)
  ]
]

workflow-Mem :
    (params : Fields) (caps : List Capability) (c : Capability)
    → required_capabilities JobType.workflow_steps params ≡ ok caps
    → Memᴰ c caps
    → Memᴰ c (Access.required_capabilities JobType.workflow_steps params)
unfolding required_capabilities
workflow-Mem params caps c h m = elim (Result-cases (steps_of (get params "steps"))) [
  | inr (x, s) ↦ cc (rw s at h)
  | inl (vs, s) ↦ elim (Result-cases (collect_caps [] vs)) [
    | inr (x, k) ↦ cc (simp (s, k) at h)
    | inl (cs, k) ↦
        steps-Mem params vs cs c s k
          (subst (Memᴰ c) (sym (ok_injective (or_bash cs) caps (simp (s, k) at h))) m)
  ]
]

-- The capabilities of an envelope are among those that the creation of the job asks for.
required_capabilities-Mem :
    (t : JobType) (params : Fields) (caps : List Capability) (c : Capability)
    → required_capabilities t params ≡ ok caps
    → Memᴰ c caps
    → Memᴰ c (Access.required_capabilities t params)
unfolding required_capabilities Access.required_capabilities
required_capabilities-Mem JobType.workflow_steps params caps c h m = workflow-Mem params caps c h m
required_capabilities-Mem JobType.inventory_scan params caps c h m =
    elim (subst (Memᴰ c) (sym (ok_injective [] caps h)) m) [ ]
required_capabilities-Mem JobType.cve_scan params caps c h m =
    elim (subst (Memᴰ c) (sym (ok_injective [] caps h)) m) [ ]
required_capabilities-Mem JobType.security_patch params caps c h m =
    elim (subst (Memᴰ c) (sym (ok_injective [] caps h)) m) [ ]
required_capabilities-Mem JobType.remediation params caps c h m =
    elim (subst (Memᴰ c) (sym (ok_injective [] caps h)) m) [ ]
required_capabilities-Mem (JobType.other name) params caps c h m =
    elim (subst (Memᴰ c) (sym (ok_injective [] caps h)) m) [ ]
required_capabilities-Mem t params caps c h m = subst (Memᴰ c) (sym (ok_injective _ caps h)) m

module _ (compute_dedup_key : JobType → Targets → Fields → String) (id : ℕ) (r : JobRequest)
    (st st' : Store) (j : Job) (sg : Signer) (claim : Claim) where
  -- Of a job that `create_job` has created for a role other than the system's, whichever key signs
  -- its claims: each of the claims names only capabilities that this role may request.
  pub claims-allowed :
      create_job compute_dedup_key id r st ≡ ok (j, st')
      → r.actor_role ≢ Role.system
      → Memᴰ claim (claims (some sg) j)
      → (c : Capability) → Memᴰ c claim.capabilities
      → allowed c r.actor_role ≡ true
  claims-allowed made other m c n =
      let g = create_job-IsGuarded compute_dedup_key id r st j st' made in
      let b = claims-IsBound (some sg) 0 none none j sg refl claim m in
      g.role_suffices other c (
        subst (λ (t : JobType). Memᴰ c (Access.required_capabilities t r.parameters)) g.same_work.0
          (subst (λ (ps : Fields). Memᴰ c (Access.required_capabilities j.job_type ps))
            g.same_work.1
            (required_capabilities-Mem j.job_type j.parameters claim.capabilities c b.capabilities
              n)))
