-- ===== src/Jobs/Approval.antt =====
-- services/job_service.py: `JobService.approve_job`, with the approval claims that it issues.
-- The signing key and its provider are outside: `Signer` says what a call of it gives.
pub mod FourEyes
use lokilinux.Prelude.{
  ℕ, String, Bool, true, false, not, ◌&&◌, ◌||◌, Option, none, some, List, [], ◌∷◌, if◌then◌else◌,
  is_num, is_str, is_some, str_eq,
}
use lokilinux.Python.{Fields, Exc, value_error, permission_error, Result, ok, raised, ◌>>=◌}
use lokilinux.Jobs.Types.{JobType, Job}
use lokilinux.Jobs.Access.{Capability}
use lokilinux.Jobs.Envelope.{required_capabilities}

-- `ApprovalClaim`, as far as the claim binds: job, agent and capabilities.
pub record Claim : Type 0 where
  pub job_id : ℕ
  pub target_agent_id : String
  pub capabilities : List Capability

-- `signs`: the signing of a claim for an agent does not raise; `wire_id`: `Agent.agent_id` of a row.
pub record Signer : Type 0 where
  pub signs : ℕ → Bool
  pub wire_id : ℕ → Option String

unfoldable pub wire_name : Option String → String
wire_name none = ""
wire_name (some s) = s

-- The loop over the targets, with the capabilities of the job: an exception ends it, and the claims
-- issued before it stay.
unfoldable pub issue_claims : Signer → Job → List Capability → List ℕ → List Claim
unfolding wire_name
issue_claims sg j caps [] = []
issue_claims sg j caps (a ∷ more) =
    let rest = issue_claims sg j caps more in
    if sg.signs a
    then record { job_id = j.id; target_agent_id = wire_name (sg.wire_id a); capabilities = caps }
      ∷ rest
    else []

-- `signer is None` when no key is installed. An exception, also of `required_capabilities`, is logged.
unfoldable pub claims : Option Signer → Job → List Claim
unfolding issue_claims required_capabilities
claims none j = []
claims (some sg) j = elim (required_capabilities j.job_type j.parameters) [
  | raised e ↦ []
  | ok caps ↦ issue_claims sg j caps j.targets
]

-- `approver_actor and job.created_by_actor == approver_actor`
abbrev pub same_actor : Option String → Option String → Bool
same_actor none creator = false
same_actor (some a) creator = not (str_eq a "") && is_str creator a

-- `job.created_by is not None and job.created_by == approved_by`
abbrev pub same_user : Option ℕ → Option ℕ → Bool
same_user none approver = false
same_user (some c) approver = is_num approver c

unfoldable pub is_creator : Option ℕ → Option String → Job → Bool
is_creator by actor j = same_actor actor j.created_by_actor || same_user j.created_by by

abbrev unless_raise : Bool → Exc → Result (Unit {0})
unless_raise b e = if b then ok tt else raised e

-- `approve_job`, of the job that `db.get` gives: the job and the claims that are added.
unfoldable pub approve_job :
    Option Signer → ℕ → Option Job → Option ℕ → Option String → Result (Job × List Claim)
unfolding is_creator claims
approve_job sg now none by actor = raised value_error
approve_job sg now (some j) by actor = do
  a ← unless_raise j.requires_approval value_error
  b ← unless_raise (not (is_some j.approved_at)) value_error
  c ← unless_raise (not (is_creator by actor j)) permission_error
  ok (record j { approved_by = by; approved_at = some now }, claims sg j)
