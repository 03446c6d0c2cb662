-- ===== src/Workflow/Tests.antt =====
-- The theorems about runs, at one small run: a start, an approval and a command in a row.
use lokilinux.Prelude.{
  Bool, ◌↔◌, ℕ, String, true, false, ◌≡◌, refl, some, none, List, [], ◌∷◌, Memᴰ, ap, subst, sym,
  inl, inr,
}
use lokilinux.Python.{ok, Value, missing_greenlet, py_int, get, Fields, end, field, str, Exc}
use lokilinux.Workflow.Cycles.{search, dfs, scan, color, adjacent, find_cycle}
use lokilinux.Workflow.Compiler.{
  entry_ids, incoming, Spec, structure_issues, duplicate_issues, dangling_issues, edge_issues,
  step_ids, build_graph,
}
use lokilinux.Workflow.Validate.{
  validate_graph, after_search, late_problems, step_issues, condition_issues, branch_issues,
  config_issues, type_issues, wait_issues,
}
use lokilinux.Workflow.Validate.Publishable.{IsPublishable, validate_graph-IsPublishable}
use lokilinux.Workflow.Cycles.Decides.{Decision, find_cycle-Decision}
use lokilinux.Workflow.Compiler.Structure.{
  IsWellFormed, structure_issues-IsWellFormed, build_graph-IsCovered,
}
use lokilinux.Workflow.Compiler.Entries.{IsEntry, build_graph-IsEntry}
use lokilinux.Workflow.Life.{start_rows, Life, started, ticked, IsSound, start, NoRace}
use lokilinux.Workflow.Types.{
  normalize_type, NodeType, EdgeOn, Step, Edge, Graph, StepStatus, StepRun, Run, RunStatus, lookup,
  put, is_active, is_pending,
}
use lokilinux.Workflow.Sync.{
  sync_all, sync_step, is_running, Env, job, lost_race, delivered, evaluates, is_wait,
}
use lokilinux.Workflow.Ready.Visits.{Escapes}
use lokilinux.Workflow.Ready.{
  visit_all, visit, readiness, run_ready, start_step, run_job, refuse, run_condition,
  incoming_edges,
}
use lokilinux.Workflow.Advance.{advance_steps, conclude, Outcome, advance_run, is_running_run}
use lokilinux.Http.{done, http_error}
use lokilinux.Prelude.Int.{pos}
use lokilinux.Workflow.Ready.Routing.{IsRouted}
use lokilinux.Workflow.Ready.Totality.{IsCovered, HasRow}
use lokilinux.Workflow.Advance.Stability.{advance_run-keeps_final}
use lokilinux.Workflow.Advance.Verdict.{Agrees, advance_run-Agrees}
use lokilinux.Workflow.Advance.Routing.{advance_run-IsRouted}
use lokilinux.Workflow.Advance.Totality.{IsTotal, IsPollable, advance_run-IsTotal}
use lokilinux.Workflow.Gates.{
  approved_rows, is_trigger, is_publisher, Version, VersionStatus, Actor, approve_step, reject_step,
  cancel_run, cancelled_run, is_over, is_waiting, rejection,
}
use lokilinux.Workflow.Gates.Approve.{IsCleared, approve_step-clears}
use lokilinux.Workflow.Gates.Reject.{IsEnded, reject_step-ends}
use lokilinux.Workflow.Gates.Cancel.{IsClosed, Waits, cancel_run-closes}
use lokilinux.Workflow.Life.Sound.{Life-IsSound}
use lokilinux.Workflow.Life.Ticks.{start-IsSound}

abbrev step_of : String → NodeType → Fields → Step
step_of id t config = record {
  id = id;
  node_type = t;
  name = id;
  config = config;
  disabled = false;
  timeout = none;
  retry = none;
  on_failure = none;
}

abbrev first_step : Step
first_step = step_of "begin" NodeType.start end

abbrev wait_step : Step
wait_step = step_of "pause" NodeType.wait (field "timeout_seconds" (str "90") end)

abbrev gate_step : Step
gate_step = step_of "gate" NodeType.approval end

abbrev begin_gate : Edge
begin_gate = record { source = "begin"; target = "gate"; on = EdgeOn.success }

abbrev two_steps : Graph
two_steps = record {
  steps = first_step ∷ wait_step ∷ gate_step ∷ [];
  edges = begin_gate ∷ [];
  entry_ids = "begin" ∷ "pause" ∷ [];
}

abbrev quiet : Env
quiet = record {
  now = 5000000;
  job_status = λ j. none;
  heartbeats = [];
  condition = λ s rs. evaluates true;
  alert = λ s. delivered;
  webhook = λ s. delivered;
  dispatch = λ s. job 7;
}

abbrev rows : List StepRun
rows = start_rows two_steps.steps

abbrev run : Run
run = start none (some "alice") (3 ∷ [])

abbrev version : Version
version = record {
  graph = two_steps;
  status = VersionStatus.published;
  published_by = none;
  published_by_actor = some "bob";
}

no_race : NoRace quiet
no_race s e = cc e

no_escape : (s : Step) (rs : List StepRun) (e : Exc) → Escapes quiet s rs e → ⊥
no_escape s rs e (Escapes.from_dispatch h) = cc h
no_escape s rs e (Escapes.from_condition h) = cc h
no_escape s rs e (Escapes.from_alert h) = cc h
no_escape s rs e (Escapes.from_webhook h) = cc h

-- A number in the digits of another script.
reads_digits : py_int (str "१_२") ≡ ok (pos 12)
unfolding py_int
reads_digits = refl

wait-IsPollable : IsPollable wait_step
unfolding py_int get
wait-IsPollable = record {
  seconds = (pos 0, refl);
  timeout = (pos 90, refl);
  beats = (pos 1, refl);
}

not_wait : {s t : Step} → s ≡ t → is_wait t.node_type ≡ false → is_wait s.node_type ≡ true → ⊥
not_wait e f w = cc (ap (λ (x : Step). is_wait x.node_type) e, f, w)

polls : (s : Step) → Memᴰ s two_steps.steps → is_wait s.node_type ≡ true → IsPollable s
unfolding is_wait
polls s (Memᴰ.head e) w = absurd (not_wait e refl w)
polls s (Memᴰ.tail (Memᴰ.head e)) w = subst IsPollable (sym e) wait-IsPollable
polls s (Memᴰ.tail (Memᴰ.tail (Memᴰ.head e))) w = absurd (not_wait e refl w)
polls s (Memᴰ.tail (Memᴰ.tail (Memᴰ.tail m))) w = elim m [ ]

covered : IsCovered two_steps rows
unfolding lookup start_rows
covered = record { steps = by_step; sources = by_edge }
  where
    by_step : (s : Step) → Memᴰ s two_steps.steps → HasRow rows s.id
    by_step s (Memᴰ.head e) = subst (λ (x : Step). HasRow rows x.id) (sym e) (_, refl)
    by_step s (Memᴰ.tail (Memᴰ.head e)) = subst (λ (x : Step). HasRow rows x.id) (sym e) (_, refl)
    by_step s (Memᴰ.tail (Memᴰ.tail (Memᴰ.head e))) =
        subst (λ (x : Step). HasRow rows x.id) (sym e) (_, refl)
    by_step s (Memᴰ.tail (Memᴰ.tail (Memᴰ.tail m))) = elim m [ ]

    by_edge : (x : Edge) → Memᴰ x two_steps.edges → HasRow rows x.source
    by_edge x (Memᴰ.head e) = subst (λ (y : Edge). HasRow rows y.source) (sym e) (_, refl)
    by_edge x (Memᴰ.tail m) = elim m [ ]

running : is_running_run run.status ≡ true
unfolding is_running_run start
running = refl

routed : IsRouted two_steps rows
unfolding is_over start
routed = (start-IsSound two_steps none (some "alice") (3 ∷ [])).routed refl

-- The rows of a run whose first step has ended and whose gate waits.
abbrev row_of : String → StepStatus → StepRun
row_of id s = record {
  step_id = id;
  status = s;
  job_id = none;
  started_at = none;
  completed_at = none;
  error = none;
  output = none;
}

abbrev begun : StepRun
begun = row_of "begin" StepStatus.succeeded

abbrev waiting : List StepRun
waiting = begun ∷ row_of "pause" StepStatus.running ∷ row_of "gate" StepStatus.waiting_approval ∷ []

carol : Actor
carol = record { actor = none; actor_id = some "carol" }

abbrev life :
    Life version
      (advance_run quiet (some version.graph) run rows).run
      (advance_run quiet (some version.graph) run rows).runs
life = ticked quiet no_race (started none (some "alice") (3 ∷ []))

Life-IsSound_example :
    IsSound version.graph
      (advance_run quiet (some version.graph) run rows).run
      (advance_run quiet (some version.graph) run rows).runs
Life-IsSound_example = Life-IsSound version life

advance_run-IsRouted_example : IsRouted two_steps (advance_run quiet (some two_steps) run rows).runs
advance_run-IsRouted_example = advance_run-IsRouted quiet two_steps run rows no_race routed

advance_run-IsTotal_example :
    IsTotal quiet two_steps run rows polls no_escape covered
      (advance_run quiet (some two_steps) run rows)
advance_run-IsTotal_example = advance_run-IsTotal quiet two_steps run rows polls no_escape covered

raises_nothing : (advance_run quiet (some two_steps) run rows).exc ≡ none
raises_nothing =
    elim (advance_run-IsTotal quiet two_steps run rows polls no_escape covered).raises [
      | inl e ↦ e
      | inr (e, (s, m, race)) ↦ absurd (no_race s race)
    ]

advance_run-Agrees_example : Agrees (advance_run quiet (some two_steps) run rows)
advance_run-Agrees_example = advance_run-Agrees quiet two_steps run rows running raises_nothing

advance_run-keeps_final_example :
    lookup "begin" (advance_run quiet (some two_steps) run waiting).runs ≡ some begun
unfolding lookup is_active
advance_run-keeps_final_example =
    advance_run-keeps_final quiet (some two_steps) run waiting "begin" begun refl refl

abbrev approval : Outcome
approval =
    advance_run quiet (some version.graph) (record run { status = RunStatus.running })
      (approved_rows 5000000 (row_of "gate" StepStatus.waiting_approval) waiting)

carol_may : approve_step quiet (some version) run waiting "gate" carol ≡ done approval
unfolding approve_step carol start lookup is_waiting is_trigger is_publisher
carol_may = refl

approve_step-clears_example : IsCleared quiet (some version) run waiting "gate" carol approval
approve_step-clears_example =
    approve_step-clears quiet (some version) run waiting "gate" carol approval carol_may

abbrev refusal : Outcome
refusal = rejection 9 run waiting "gate" (row_of "gate" StepStatus.waiting_approval)

refused : reject_step 9 run waiting "gate" ≡ done refusal
unfolding reject_step lookup is_waiting
refused = refl

reject_step-ends_example : IsEnded waiting "gate" refusal
reject_step-ends_example = reject_step-ends 9 run waiting "gate" refusal refused

cancel_run-closes_example :
    (is_over run.status ≡ true → cancel_run quiet run waiting ≡ http_error 409)
    × (is_over run.status ≡ false
        → cancel_run quiet run waiting ≡ done (cancelled_run quiet run waiting))
    × IsClosed waiting (cancelled_run quiet run waiting).outcome
    × ((j : ℕ) → Memᴰ j (cancelled_run quiet run waiting).jobs ↔ Waits quiet.job_status waiting j)
cancel_run-closes_example = cancel_run-closes quiet run waiting

-- The first of two steps loses the race for its job: the second reads the expired run.
racing : Env
racing = record quiet { dispatch = λ s. lost_race }

abbrev two_jobs : Graph
two_jobs = record {
  steps = step_of "run" NodeType.command end ∷ step_of "check" NodeType.condition end ∷ [];
  edges = [];
  entry_ids = "run" ∷ "check" ∷ [];
}

race_raises :
    (advance_run racing
      (some two_jobs)
      run
      (row_of "run" StepStatus.pending ∷ row_of "check" StepStatus.pending ∷ [])).exc
    ≡ some missing_greenlet
unfolding advance_run advance_steps is_running_run start sync_all sync_step is_running visit_all
    visit readiness run_ready start_step normalize_type run_job refuse run_condition lookup
    is_pending incoming_edges conclude racing put
race_raises = refl

abbrev spec : Spec
spec = record { steps = two_steps.steps; edges = two_steps.edges }

spec_clean : structure_issues spec ≡ []
unfolding structure_issues duplicate_issues dangling_issues edge_issues step_ids
spec_clean = refl

structure_issues-IsWellFormed_example : (structure_issues spec ≡ []) ↔ IsWellFormed spec
structure_issues-IsWellFormed_example = structure_issues-IsWellFormed spec

build_graph-IsCovered_example : IsCovered (build_graph spec) (start_rows (build_graph spec).steps)
build_graph-IsCovered_example = build_graph-IsCovered spec spec_clean

build_graph-IsEntry_example : Memᴰ "pause" (build_graph spec).entry_ids ↔ IsEntry spec "pause"
build_graph-IsEntry_example = build_graph-IsEntry spec "pause"

find_cycle-Decision_example : Decision spec (find_cycle spec)
find_cycle-Decision_example = find_cycle-Decision spec spec_clean

accepts : Value → Bool
accepts v = false

publishes : validate_graph accepts spec ≡ []
unfolding validate_graph structure_issues duplicate_issues dangling_issues edge_issues step_ids
    find_cycle search dfs scan color adjacent after_search late_problems entry_ids incoming
    step_issues condition_issues branch_issues config_issues type_issues normalize_type wait_issues
    get
publishes = refl

validate_graph-IsPublishable_example : IsPublishable accepts spec
validate_graph-IsPublishable_example = validate_graph-IsPublishable accepts spec publishes
