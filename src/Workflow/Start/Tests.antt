-- ===== src/Workflow/Start/Tests.antt =====
-- A published version without steps starts on one agent.
use lokilinux.Prelude.{ℕ, Bool, true, some, none, List, [], ◌∷◌, ◌≡◌, refl}
use lokilinux.Http.{done}
use lokilinux.Workflow.Types.{Graph}
use lokilinux.Workflow.Gates.{Version, VersionStatus}
use lokilinux.Workflow.Start.{is_released, fresh, start_run}

abbrev empty : Graph
empty = record { steps = []; edges = []; entry_ids = [] }

abbrev version : Version
version = record {
  graph = empty;
  status = VersionStatus.published;
  published_by = none;
  published_by_actor = some "bob";
}

abbrev accepts : Graph → Bool
accepts g = true

abbrev one_agent : Graph → List ℕ
one_agent g = 3 ∷ []

alice_triggers :
    start_run accepts one_agent (some (some (some version))) none (some "alice")
    ≡ done (fresh version none (some "alice") (3 ∷ []))
unfolding start_run is_released
alice_triggers = refl
