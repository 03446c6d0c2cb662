-- ===== src/Jobs/Tests.antt =====
-- The theorems about jobs, at small jobs and tables.
use lokilinux.Python.{has_key, Fields, end, field, str, ok, raised, value_error}
use lokilinux.Jobs.Create.{
  target_agents, insert_job, Targets, JobRequest, new_job, create_job, has_duplicate,
  forces_approval,
}
use lokilinux.Prelude.{
  arith, ◌<◌, String, true, false, ◌≡◌, refl, some, none, List, [], ◌∷◌, Memᴰ, map, ◌+◌,
}
use lokilinux.Http.{done}
use lokilinux.Jobs.Types.{JobStatus, ResultStatus, JobType, Job, JobResult, is_cancellable_job}
use lokilinux.Jobs.Access.{
  Capability, Role, assert_can_create, assert_no_smuggled_command, is_shell_job,
  unauthorized_capabilities, required_capabilities, allowed,
}
use lokilinux.Jobs.Store.{Store, find_job, put_job}
use lokilinux.Jobs.Create.Guards.{IsGuarded, create_job-IsGuarded}
use lokilinux.Jobs.Status.{recompute_job, is_cancelled_job}
use lokilinux.Jobs.Status.Aggregate.{IsVerdict, recompute_job-IsVerdict, recompute_job-Perm}
use lokilinux.Jobs.Approval.{
  Claim, Signer, approve_job, claims, is_creator, issue_claims, wire_name,
}
use lokilinux.Jobs.Envelope as Envelope
use lokilinux.Jobs.Envelope.Within.{claims-allowed}
use lokilinux.Jobs.Approval.FourEyes.{IsApproved, approve_job-IsApproved, approve_job-once}
use lokilinux.Jobs.Dispatch.{
  get_pending_jobs, mark_dispatched, hold_rows, cancel_job, mem, pending_for, row_matches,
  job_matches, claimed, claims_row, hold_time,
}
use lokilinux.Jobs.Dispatch.Handing.{IsDue, get_pending_jobs-IsDue}
use lokilinux.Jobs.Dispatch.Claims.{mark_dispatched-once, mark_dispatched-Mem, mark_held-keeps}
use lokilinux.Jobs.Dispatch.Cancel.{cancel_job-handed}
use mathlib.Core.List.{Permᴰ}

abbrev key_of : JobType → Targets → Fields → String
key_of t ts ps = "key"

abbrev request : JobRequest
request = record {
  job_type = JobType.custom_command;
  targets = Targets.dict (4 ∷ []) [];
  parameters = field "command" (str "uptime") end;
  scheduled_time = none;
  created_by = some 1;
  created_by_actor = some "alice";
  requires_approval = false;
  skip_approval_gate = false;
  actor_role = Role.admin;
}

abbrev empty : Store
empty = record { jobs = []; results = [] }

abbrev job : Job
job = new_job 7 "key" request

abbrev stored : Store
stored = insert_job empty job

creates : create_job key_of 7 request empty ≡ ok (job, stored)
unfolding create_job assert_no_smuggled_command is_shell_job assert_can_create
    unauthorized_capabilities required_capabilities allowed has_duplicate has_key
creates = refl

create_job-IsGuarded_example : IsGuarded 7 request empty job stored
create_job-IsGuarded_example = create_job-IsGuarded key_of 7 request empty job stored creates

abbrev approved : Job
approved = record job { approved_by = some 2; approved_at = some 100 }

abbrev signer : Signer
signer = record { signs = λ a. true; wire_id = λ a. some "agent-4" }

abbrev issued : List Claim
issued = claims (some signer) job

approves : approve_job (some signer) 100 (some job) (some 2) (some "bob") ≡ ok (approved, issued)
unfolding approve_job new_job forces_approval is_creator
approves = refl

approve_job-IsApproved_example :
    IsApproved (some signer) 100 (some 2) (some "bob") job approved issued
approve_job-IsApproved_example =
    approve_job-IsApproved (some signer) 100 (some 2) (some "bob") job approved issued approves

claim : Claim
claim = record { job_id = 7; target_agent_id = "agent-4"; capabilities = Capability.exec_bash ∷ [] }

is_issued : Memᴰ claim issued
unfolding claim claims issue_claims wire_name new_job Envelope.required_capabilities target_agents
is_issued = Memᴰ.head refl

claims-allowed_example : allowed Capability.exec_bash Role.admin ≡ true
unfolding claim
claims-allowed_example =
    claims-allowed key_of 7 request empty stored job signer claim creates (λ e. cc e) is_issued
      Capability.exec_bash (Memᴰ.head refl)

approve_job-once_example :
    approve_job none 200 (some approved) (some 3) (some "carol") ≡ raised value_error
approve_job-once_example =
    approve_job-once (some signer) none 100 200 (some 2) (some 3) (some "bob") (some "carol") job
      approved issued approves

fresh : is_cancelled_job job.status ≡ false
unfolding new_job
fresh = refl

abbrev mixed : List ResultStatus
mixed = ResultStatus.completed ∷ ResultStatus.failed ∷ []

recompute_job-IsVerdict_example : IsVerdict mixed job (recompute_job 300 mixed job)
recompute_job-IsVerdict_example =
    recompute_job-IsVerdict 300 ResultStatus.completed (ResultStatus.failed ∷ []) job fresh

recompute_job-Perm_example :
    recompute_job 300 mixed job
    ≡ recompute_job 300 (ResultStatus.failed ∷ ResultStatus.completed ∷ []) job
recompute_job-Perm_example =
    recompute_job-Perm 300 job mixed (ResultStatus.failed ∷ ResultStatus.completed ∷ [])
      (Permᴰ.swap refl refl)

abbrev plain : Job
plain = record job { requires_approval = false }

abbrev row : JobResult
row = record {
  job_id = 7;
  agent_id = 4;
  status = ResultStatus.pending;
  exit_code = none;
  stdout = [];
  stderr = [];
  duration_seconds = none;
  started_at = none;
  completed_at = none;
  held_until = none;
}

abbrev tables : Store
tables = record { jobs = plain ∷ []; results = row ∷ [] }

handed : Memᴰ plain (get_pending_jobs 50 4 [] tables)
unfolding get_pending_jobs pending_for row_matches job_matches find_job new_job
handed = Memᴰ.head refl

get_pending_jobs-IsDue_example : IsDue 50 4 [] (plain ∷ []) (row ∷ []) plain
get_pending_jobs-IsDue_example = get_pending_jobs-IsDue 50 4 [] tables plain handed

mark_dispatched-once_example :
    (mark_dispatched 60 4 (plain ∷ []) (mark_dispatched 50 4 (plain ∷ []) tables).1).0 ≡ []
mark_dispatched-once_example = mark_dispatched-once 50 60 4 (plain ∷ []) tables

goes_out : Memᴰ plain (mark_dispatched 50 4 (plain ∷ []) tables).0
unfolding mark_dispatched claimed claims_row new_job
goes_out = Memᴰ.head refl

mark_dispatched-Mem_example :
    Memᴰ plain (plain ∷ [])
    × ((r : JobResult) × Memᴰ r (row ∷ [])
        × (r.job_id ≡ plain.id)
        × (r.agent_id ≡ 4)
        × (r.status ≡ ResultStatus.pending))
mark_dispatched-Mem_example = mark_dispatched-Mem 50 4 (plain ∷ []) tables plain goes_out

still_handed :
    Memᴰ plain
      (get_pending_jobs 60 4 [] (record tables { results = hold_rows 50 4 (9 ∷ []) (row ∷ []) }))
unfolding get_pending_jobs pending_for row_matches job_matches find_job new_job hold_rows
still_handed = Memᴰ.head refl

soon : 60 < 50 + hold_time
soon = omega arith

mark_held-keeps_example : mem plain.id (9 ∷ []) ≡ false
mark_held-keeps_example = mark_held-keeps 50 60 4 (9 ∷ []) [] tables plain soon still_handed

abbrev cancelled : Store
cancelled = record tables { jobs = record plain { status = JobStatus.cancelled } ∷ [] }

cancels : cancel_job 7 tables ≡ done cancelled
unfolding cancel_job find_job put_job is_cancellable_job new_job
cancels = refl

cancel_job-handed_example :
    map (λ (j : Job). j.id) (get_pending_jobs 50 4 [] cancelled)
    ≡ map (λ (j : Job). j.id) (get_pending_jobs 50 4 [] tables)
cancel_job-handed_example = cancel_job-handed 7 tables cancelled 50 4 [] cancels
