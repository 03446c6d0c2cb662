-- ===== src/Jobs/Approval/FourEyes.antt =====
-- Who may approve a job, and what the claims of an approval are bound to.
use lokilinux.Prelude.{
  sym, ◌∙◌, ap, is_some, Bool-cases, inl, inr, subst, ℕ, String, true, false, ◌≡◌, ◌≢◌, refl,
  Option, some, none, List, [], ◌∷◌, Memᴰ, arith, eq_iff,
}
use lokilinux.Python.{Result, Result-cases, ok, raised, value_error}
use lokilinux.Jobs.Types.{Job}
use lokilinux.Jobs.Access.{Capability}
use lokilinux.Jobs.Envelope.{required_capabilities}
use lokilinux.Jobs.Approval.{
  Claim, Signer, wire_name, issue_claims, claims, same_actor, same_user, is_creator, approve_job,
}

module _ (by : Option ℕ) (actor : Option String) (j : Job) where
  -- The approver is not the creator, by the id of the caller or by the user's.
  pub record IsOther : Type 0 where
    pub by_actor : (s : String) → actor ≡ some s → s ≢ "" → j.created_by_actor ≢ some s
    pub by_user : (n : ℕ) → j.created_by ≡ some n → by ≢ some n

pub same_actor-false :
    (a c : Option String) → same_actor a c ≡ false → (s : String) → a ≡ some s → s ≢ "" → c ≢ some s
same_actor-false none c h s e n k = cc
same_actor-false (some t) none h s e n k = cc
same_actor-false (some t) (some u) h s e n k = ground (arith, eq_iff t "", eq_iff u t)

pub same_user-false :
    (c by : Option ℕ) → same_user c by ≡ false → (n : ℕ) → c ≡ some n → by ≢ some n
same_user-false none by h n e k = cc
same_user-false (some c) none h n e k = cc
same_user-false (some c) (some b) h n e k = ground arith

is_creator-IsOther :
    (by : Option ℕ) (actor : Option String) (j : Job)
    → is_creator by actor j ≡ false
    → IsOther by actor j
unfolding is_creator
is_creator-IsOther by actor j h = record {
  by_actor = same_actor-false actor j.created_by_actor (ground arith);
  by_user = same_user-false j.created_by by (ground arith);
}

-- A claim of the job `j`, for one of `targets`.
pub record IsBound (sg : Signer) (j : Job) (targets : List ℕ) (c : Claim) : Type 0 where
  pub of_job : c.job_id ≡ j.id
  pub capabilities : required_capabilities j.job_type j.parameters ≡ ok c.capabilities
  pub target : (a : ℕ) × Memᴰ a targets × (c.target_agent_id ≡ wire_name (sg.wire_id a))

module _ (sg : Signer) (j : Job) (c : Claim) (caps : List Capability)
    (needs : required_capabilities j.job_type j.parameters ≡ ok caps) where
  -- The claim of one target.
  abbrev claim_of : ℕ → Claim
  claim_of a = record {
    job_id = j.id;
    target_agent_id = wire_name (sg.wire_id a);
    capabilities = caps;
  }

  no_claim : {a : ℕ} {more : List ℕ} → Memᴰ c [] → IsBound sg j (a ∷ more) c
  no_claim m = elim m [ ]

  first_claim :
      (a : ℕ) (more : List ℕ)
      → (Memᴰ c (issue_claims sg j caps more) → IsBound sg j more c)
      → Memᴰ c (claim_of a ∷ issue_claims sg j caps more)
      → IsBound sg j (a ∷ more) c
  first_claim a more ih (Memᴰ.head e) = record {
    of_job = ap (λ (d : Claim). d.job_id) e;
    capabilities = needs ∙ ap (λ (d : Claim). ok d.capabilities) (sym e);
    target = (a, Memᴰ.head refl, ap (λ (d : Claim). d.target_agent_id) e);
  }
  first_claim a more ih (Memᴰ.tail k) =
      let b = ih k in
      let (x, there, e) = b.target in
      record { of_job = b.of_job; capabilities = b.capabilities; target = (x, Memᴰ.tail there, e) }

  issue_claims-IsBound :
      (targets : List ℕ) → Memᴰ c (issue_claims sg j caps targets) → IsBound sg j targets c
  unfolding issue_claims
  issue_claims-IsBound [] m = elim m [ ]
  issue_claims-IsBound (a ∷ more) m = elim (Bool-cases (sg.signs a)) [
    | inr h ↦ no_claim (rw h at m)
    | inl h ↦ first_claim a more (λ k. issue_claims-IsBound more k) (rw h at m)
  ]

-- What holds where an approval goes through.
pub record IsApproved (signer : Option Signer) (now : ℕ) (by : Option ℕ) (actor : Option String)
    (j k : Job) (cs : List Claim) : Type 0 where
  pub wanted : j.requires_approval ≡ true
  pub first_time : j.approved_at ≡ none
  pub other : IsOther by actor j
  pub stamped : (k.approved_at ≡ some now) × (k.approved_by ≡ by)
  pub same_work :
      (k.parameters ≡ j.parameters) × (k.job_type ≡ j.job_type) × (k.targets ≡ j.targets)
  pub bound : (sg : Signer) → signer ≡ some sg → (c : Claim) → Memᴰ c cs → IsBound sg j j.targets c

is_some-false : (o : Option ℕ) → is_some o ≡ false → o ≡ none
is_some-false o h = ground arith

module _ (signer : Option Signer) (now : ℕ) (by : Option ℕ) (actor : Option String) where
  abbrev approved : Job → Job
  approved j = record j { approved_by = by; approved_at = some now }

  abbrev given : Job → List Claim → Result (Job × List Claim)
  given k cs = ok (k, cs)

  pub claims-IsBound :
      (j : Job) (sg : Signer)
      → signer ≡ some sg
      → (c : Claim) → Memᴰ c (claims signer j)
      → IsBound sg j j.targets c
  unfolding claims
  claims-IsBound j sg e c m = elim (Result-cases (required_capabilities j.job_type j.parameters)) [
    | inr (x, n) ↦ no_claims (simp (e, n, claims) at m)
    | inl (caps, n) ↦ issue_claims-IsBound sg j c caps n j.targets (simp (e, n, claims) at m)
  ]
    where
      no_claims : Memᴰ c [] → IsBound sg j j.targets c
      no_claims k = elim k [ ]

  approved-IsApproved :
      (j : Job)
      → j.requires_approval ≡ true
      → is_some j.approved_at ≡ false
      → is_creator by actor j ≡ false
      → IsApproved signer now by actor j (approved j) (claims signer j)
  approved-IsApproved j w f o = record {
    wanted = w;
    first_time = is_some-false j.approved_at f;
    other = is_creator-IsOther by actor j o;
    stamped = (refl, refl);
    same_work = (refl, refl, refl);
    bound = claims-IsBound j;
  }

  both :
      (j k : Job) (cs : List Claim)
      → given (approved j) (claims signer j) ≡ given k cs
      → IsApproved signer now by actor j (approved j) (claims signer j)
      → IsApproved signer now by actor j k cs
  both j k cs h g =
      let e : approved j ≡ k = cc in
      let f : claims signer j ≡ cs = cc in
      subst (λ z. IsApproved signer now by actor j k z) f
        (subst (λ z. IsApproved signer now by actor j z (claims signer j)) e g)

  reduced :
      (j : Job)
      → j.requires_approval ≡ true
      → is_some j.approved_at ≡ false
      → is_creator by actor j ≡ false
      → approve_job signer now (some j) by actor ≡ given (approved j) (claims signer j)
  unfolding approve_job
  reduced j w f o = simp (w, f, o) refl

  -- An approval that goes through is of a job that requires one and has none yet, by somebody who is
  -- not its creator, by the caller's id (where it is not empty) or by the user's. It stamps the job
  -- and leaves its type, parameters and targets; each claim names the job, one of its targets and
  -- the capabilities that the job needs.
  pub approve_job-IsApproved :
      (j k : Job) (cs : List Claim)
      → approve_job signer now (some j) by actor ≡ ok (k, cs)
      → IsApproved signer now by actor j k cs
  unfolding approve_job
  approve_job-IsApproved j k cs h = elim (Bool-cases j.requires_approval) [
    | inr w ↦ cc (simp w at h)
    | inl w ↦ elim (Bool-cases (is_some j.approved_at)) [
      | inl f ↦ cc (simp (w, f) at h)
      | inr f ↦ elim (Bool-cases (is_creator by actor j)) [
        | inl o ↦ cc (simp (w, f, o) at h)
        | inr o ↦ both j k cs (sym (reduced j w f o) ∙ h) (approved-IsApproved j w f o)
      ]
    ]
  ]

-- Nobody approves a job twice: what an approval leaves is refused with the ValueError, whoever asks
-- and whichever key signs.
pub approve_job-once :
    (signer signer' : Option Signer) (now later : ℕ) (by by' : Option ℕ)
    (actor actor' : Option String) (j k : Job) (cs : List Claim)
    → approve_job signer now (some j) by actor ≡ ok (k, cs)
    → approve_job signer' later (some k) by' actor' ≡ raised value_error
unfolding approve_job
approve_job-once signer signer' now later by by' actor actor' j k cs h =
    let a = approve_job-IsApproved signer now by actor j k cs h in
    elim (Bool-cases k.requires_approval) [
      | inr w ↦ simp w refl
      | inl w ↦ simp (w, a.stamped.0) refl
    ]
