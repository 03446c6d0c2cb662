-- ===== src/Lib.antt =====
-- Verification of the LokiLinux control plane: the Python backend under backend/lokilinux, which
-- keeps workflows, jobs, remediation plans and incidents for a fleet of Linux agents.
--
-- A workflow is a graph of steps. Its engine (backend/lokilinux/services/workflow_engine.py)
-- keeps one row for each step of a run and advances a run tick by tick; steps that act on hosts
-- become jobs (backend/lokilinux/services/job_service.py), which are fanned out as one result row
-- for each target agent, approved by a second person where they must be, and handed to the agents
-- at their heartbeats (backend/lokilinux/services/agent_service.py). A role may create a job only
-- with the capabilities of backend/lokilinux/utils/capability_rbac.py. A remediation plan
-- (backend/lokilinux/services/remediation_service.py) is approved by a second person too, runs as
-- such a job, and is settled by the end of the job and by workers. Signals of the agents are
-- correlated into incidents (backend/lokilinux/incidents).
--
-- Prelude holds what all files share: names of the libraries, tests on native numbers, lists and
-- integers. Python models the values of JSON columns, int() and exceptions; Http the
-- HTTPException that a service raises, by its status code.
--
-- Workflow models the engine. Types: steps, edges, graphs, runs and step runs, with lookup and
-- put for the dict of step runs. Sync: section 1 of advance_run, in which running rows follow
-- their jobs and wait steps are polled. Ready: section 2, the loop over the pending steps, with
-- the commits and rollbacks of the session that it causes: Tick holds the rows as they stand and
-- as they were last saved, and whether a rollback has expired the run object. Advance: section 3
-- and the tick as a whole; Outcome is what the database holds behind it and the exception, if one
-- left it. Gates: approve_step, reject_step and cancel_run. Life: start_run's rows, and all that
-- can follow. Start: start_run itself. Shell: shlex.quote as backend/lokilinux/utils/shell.py
-- uses it, and the commands of service, system and file steps; Shell/Lexer says how a POSIX shell
-- reads a command line without expansions. Compiler: the checks of
-- backend/lokilinux/services/workflow_compiler.py on step ids and edges, and build_graph. Cycles:
-- its search for cycles. Validate: the checks of each step and validate_graph as a whole.
-- Versions: the drafts and publications of backend/lokilinux/services/workflow_service.py.
--
-- Jobs models the job engine. Types and Store: the tables jobs and job_results. Access: roles and
-- capabilities. Envelope: required_capabilities of backend/lokilinux/services/job_envelope.py,
-- which the claims of an approval name. Create: create_job with its guards. Status:
-- recompute_job_status. Approval: approve_job and the claims that it issues. Dispatch:
-- get_pending_jobs, mark_dispatched, mark_held, complete_job and cancel_job.
--
-- The modules below each of these hold the theorems on it, named for what they prove; the modules
-- named Tests apply them at small inputs.
--
-- Remediation models the plans of backend/lokilinux/services/remediation_service.py, which fix
-- drift and failed rules by jobs. Types: plans, actions, the jobs linked to a plan, drift events;
-- a Desk is what the database holds about one plan. Payload: build_actions_payload. Windows:
-- _is_window_open and agent_matches_window_scope. Service: create_plan, submit, approve,
-- _dispatch and dry_run; Rollback: rollback. Sync: what the end of a job does to its plan
-- (backend/lokilinux/services/job_service.py). Verify:
-- backend/lokilinux/workers/remediation_verification.py. Scheduler: the dispatch in windows and
-- the autopilot's dry runs of backend/lokilinux/workers/remediation_scheduler.py. Life: all that
-- can happen to a plan.
--
-- Correlation models the suppression windows of backend/lokilinux/correlation/suppression.py.
-- Incidents models backend/lokilinux/incidents. Types: incidents, their links to signals, alerts;
-- a Board is what the database holds of them. Lifecycle: the legal transitions and the row behind
-- each, with the unique index that lets a group have one open incident. Service:
-- open_from_candidate and maybe_auto_resolve; the row that another worker inserts meanwhile is an
-- argument. Life: all that can happen to the incidents.
--
-- Times are natural numbers in microseconds; UUIDs are natural numbers, and raw ids of users are
-- texts. What other code answers is a parameter: the environment Env of a tick holds the clock,
-- the statuses of the jobs, heartbeats, and how each dispatch, condition, alert and webhook ends,
-- by an exception too; Signer is the signing of a claim; the Env of a plan holds what create_job
-- answers and what the windows and policies are, a window holds croniter's answer, and Evidence
-- holds the rule evaluations; the dedup key is a function. The depth of the cycle search is
-- bounded by fuel, one for each step, and its theorem says that this is enough; every other loop
-- of the source is a recursion over its list.
--
-- Not modelled: audit entries, cache invalidation, NATS messages and the transport; the limit of
-- get_pending_jobs, which cuts its list off; the plugin rows that follow a job's status; how the
-- autopilot finds its candidates; locking between concurrent sessions beyond the lost race of a
-- dedup key; floats in the configuration of a step; steps that are not a list, and step types
-- that are not a text, in the check of a role against the parameters of a job.
pub mod Prelude
pub mod Python
pub mod Http
pub mod Correlation
pub mod Incidents
pub mod Jobs
pub mod Remediation
pub mod Workflow
