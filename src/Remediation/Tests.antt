-- ===== src/Remediation/Tests.antt =====
-- The theorems about remediation, at a small plan.
use lokilinux.Jobs.Types.{is_terminal_job, JobStatus}
use lokilinux.Prelude.{true, false, ◌≡◌, refl, none, some, [], ◌∷◌, ◌⊎◌}
use lokilinux.Python.{ok}
use lokilinux.Http.{done}
use lokilinux.Jobs.Access.{Role}
use lokilinux.Remediation.Types.{PlanStatus, Trigger, Operation, PlanJob, Desk, is_ended}
use lokilinux.Remediation.Payload.{build_actions_payload, agent_ids, entries_for}
use lokilinux.Remediation.Payload.Grouping.{IsPlanned, build_actions_payload-IsPlanned}
use lokilinux.Remediation.Windows.{Scope, Selector, Window, Agent}
use lokilinux.Remediation.Service.{
  Env, Caller, NewAction, new_plan, set_status, stamp, dispatched, link, create_plan, submit,
  approve, dry_run,
}
use lokilinux.Remediation.Rollback.{rollback, rollback_map, rolling_back}
use lokilinux.Remediation.Rollback.Bodies.{IsRolledBack, rollback-IsRolledBack}
use lokilinux.Remediation.Sync.{sync_remediation_plan}
use lokilinux.Remediation.Sync.Once.{sync_remediation_plan-once}
use lokilinux.Remediation.Verify.{Evidence, verify_tick}
use lokilinux.Remediation.Verify.Ends.{IsApplied, verify_tick_ends}
use lokilinux.Remediation.Verify.Verdicts.{IsJudged, verify_tick-IsJudged}
use lokilinux.Remediation.Scheduler.{Fleet, scheduler_tick}
use lokilinux.Remediation.Scheduler.Scoped.{IsScheduled, scheduler_tick-IsScheduled}
use lokilinux.Remediation.Life.{JobChange, report, Change, Changes, Life}
use lokilinux.Remediation.Life.Cleared.{IsCleared}
use lokilinux.Remediation.Life.Cleared.Always.{ApprovedIn, Life-IsCleared}
use lokilinux.Remediation.Life.Stuck.{dry_run-IsStuck_forever}

abbrev everywhere : Selector
everywhere = record {
  has_none = true;
  has_all = false;
  distro = none;
  version = none;
  role = none;
  environment = none;
  datacenter = none;
  cluster = none;
  application = none;
}

abbrev nightly : Window
nightly = record {
  scope_type = Scope.global;
  scope_selector = everywhere;
  has_cron = true;
  previous = λ now. some 50;
  duration_minutes = 60;
  is_enabled = true;
}

abbrev env : Env
env = record {
  now = 100;
  window = λ id. some nightly;
  policy_modes = λ r. [];
  create_job = λ role ts op m. ok 9;
}

abbrev host : Agent
host = record {
  id = 4;
  os_distro = none;
  os_version = none;
  roles = [];
  tag_datacenter = none;
  tag_cluster = none;
  fact_datacenter = none;
  fact_cluster = none;
  category_name = none;
  project_name = none;
}

abbrev fleet : Fleet
fleet id = some host

abbrev bob : Caller
bob = record { actor_id = some "bob"; actor = some 2; role = Role.admin }

abbrev fix : NewAction
fix = record {
  rule_id = some 3;
  drift_event_id = some 5;
  agent_id = 4;
  provider = "shell";
  rendered_body = "chmod 600 /etc/shadow";
  rollback_body = some "chmod 640 /etc/shadow";
}

abbrev drafted : Desk
drafted = new_plan 100 Trigger.manual (fix ∷ fix ∷ []) false none (some 1) (some "alice") []

abbrev submitted : Desk
submitted = set_status PlanStatus.pending_approval drafted

abbrev running : Desk
running = dispatched 9 (stamp env bob submitted)

abbrev previewed : Desk
previewed =
    link 9 Operation.dry_run (agent_ids running.actions) (build_actions_payload running.actions)
      running

abbrev all_done : JobChange
all_done = record {
  id = 9;
  status = JobStatus.completed;
  completed_at = some 200;
  done_on = 4 ∷ [];
}

abbrev finished : Desk
finished = report all_done running

creates :
    create_plan env Trigger.manual (fix ∷ fix ∷ []) false none (some 1) (some "alice") []
    ≡ done drafted
unfolding create_plan new_plan
creates = refl

submits : submit drafted ≡ done submitted
unfolding submit new_plan
submits = refl

approves : approve env bob submitted ≡ done running
unfolding approve new_plan dispatched stamp
approves = refl

previews : dry_run env bob running ≡ done previewed
unfolding dry_run dispatched stamp link build_actions_payload agent_ids new_plan
previews = refl

runs_now : running.plan.status ≡ PlanStatus.executing
unfolding dispatched link stamp
runs_now = refl

abbrev life : Life previewed
life =
    Life.begins env Trigger.manual (fix ∷ fix ∷ []) false none (some 1) (some "alice") [] drafted
      previewed creates
      (Changes.then_by drafted running previewed
        (Changes.then_by drafted submitted running
          (Changes.then_by drafted drafted submitted (Changes.here drafted)
            (Change.submits drafted submitted submits))
          (Change.approves env bob submitted running approves))
        (Change.previews env bob running previewed previews))

Life-IsCleared_example : IsCleared (ApprovedIn life) previewed
Life-IsCleared_example = Life-IsCleared previewed life

dry_run-IsStuck_forever_example : (report all_done previewed).plan.status ≡ PlanStatus.executing
dry_run-IsStuck_forever_example =
    dry_run-IsStuck_forever env bob running previewed (report all_done previewed) runs_now previews
      (Changes.then_by previewed previewed (report all_done previewed) (Changes.here previewed)
        (Change.reports all_done previewed))

build_actions_payload-IsPlanned_example :
    IsPlanned 4 submitted.actions (entries_for 4 (build_actions_payload submitted.actions))
build_actions_payload-IsPlanned_example = build_actions_payload-IsPlanned 4 submitted.actions

sync_remediation_plan-once_example :
    sync_remediation_plan 400 9 (sync_remediation_plan 300 9 finished)
    ≡ sync_remediation_plan 300 9 finished
sync_remediation_plan-once_example = sync_remediation_plan-once 400 300 9 finished

-- The rules pass at once, or the evaluations never come.
abbrev passing : Evidence
passing = record { now = 300; latest_fresh_result = λ a r t. some "PASS"; domain_of = λ r. none }

abbrev silent : Evidence
silent = record { now = 1000000000; latest_fresh_result = λ a r t. none; domain_of = λ r. none }

abbrev applied : PlanJob
applied = record {
  id = 9;
  operation = Operation.apply;
  targets = agent_ids drafted.actions;
  actions = build_actions_payload drafted.actions;
  status = JobStatus.completed;
  completed_at = some 200;
  done_on = 4 ∷ [];
}

abbrev verifying_desk : Desk
verifying_desk = set_status PlanStatus.verifying finished

finished_applied : IsApplied finished applied 200
unfolding report dispatched link stamp new_plan build_actions_payload agent_ids is_terminal_job
finished_applied = record { newest = ([], refl); applies = refl; over = refl; at_time = refl }

verifying_applied : IsApplied verifying_desk applied 200
verifying_applied = record {
  newest = finished_applied.newest;
  applies = finished_applied.applies;
  over = finished_applied.over;
  at_time = finished_applied.at_time;
}

verify_tick_ends_example :
    is_ended (verify_tick silent (sync_remediation_plan 300 9 finished)).plan.status ≡ true
verify_tick_ends_example = verify_tick_ends 300 finished applied 200 finished_applied silent refl

verify_tick-IsJudged_example :
    IsJudged passing 200 verifying_desk (verify_tick passing verifying_desk)
verify_tick-IsJudged_example =
    verify_tick-IsJudged passing 200 verifying_desk refl applied verifying_applied

abbrev over : Desk
over = set_status PlanStatus.completed finished

rolls_back : rollback env bob over ≡ done (rolling_back 9 (rollback_map (4 ∷ []) over.actions) over)
unfolding rollback report dispatched link stamp new_plan rollback_map
rolls_back = refl

rollback-IsRolledBack_example :
    IsRolledBack over (rolling_back 9 (rollback_map (4 ∷ []) over.actions) over)
rollback-IsRolledBack_example =
    rollback-IsRolledBack env bob over (rolling_back 9 (rollback_map (4 ∷ []) over.actions) over)
      rolls_back

abbrev waiting : Desk
waiting = record drafted {
  plan = record drafted.plan { status = PlanStatus.approved; maintenance_window_id = some 1 };
}

scheduler_tick-IsScheduled_example :
    (scheduler_tick env fleet waiting ≡ waiting)
    ⊎ IsScheduled env fleet waiting (scheduler_tick env fleet waiting)
scheduler_tick-IsScheduled_example = scheduler_tick-IsScheduled env fleet waiting
