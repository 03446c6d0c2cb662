-- ===== src/Workflow/Versions/Tests.antt =====
-- A workflow whose second version is published after its first.
use lokilinux.Prelude.{Bool, true, some, none, [], ◌∷◌, ◌≡◌, refl}
use lokilinux.Http.{done}
use lokilinux.Workflow.Types.{Graph}
use lokilinux.Workflow.Gates.{VersionStatus}
use lokilinux.Workflow.Versions.{
  VersionRow, Shelf, create_workflow, create_version, publish_version, new_version, find_version,
  is_draft, is_published, archive_row, publish_row, max_version,
}
use lokilinux.Workflow.Versions.Published.{
  IsCurrent, created, added, published, Versioned-IsCurrent,
}

abbrev empty : Graph
empty = record { steps = []; edges = []; entry_ids = [] }

abbrev accepts : Graph → Bool
accepts g = true

abbrev first_row : VersionRow
first_row = record {
  id = 11;
  number = 1;
  graph = empty;
  content_hash = "a";
  status = VersionStatus.draft;
  published_at = none;
  published_by = none;
  published_by_actor = none;
}

abbrev second_row : VersionRow
second_row = record first_row { id = 12; number = 2; content_hash = "b" }

abbrev released : VersionRow → VersionRow
released r = record r {
  status = VersionStatus.published;
  published_at = some 5;
  published_by = none;
  published_by_actor = some "bob";
}

abbrev fresh : Shelf
fresh = record { current = none; rows = first_row ∷ [] }

abbrev first_out : Shelf
first_out = record { current = some 11; rows = released first_row ∷ [] }

abbrev two_rows : Shelf
two_rows = record first_out { rows = released first_row ∷ second_row ∷ [] }

abbrev second_out : Shelf
second_out = record {
  current = some 12;
  rows = record (released first_row) { status = VersionStatus.archived } ∷ released second_row ∷ [];
}

creates : create_workflow 11 (some empty) "a" ≡ done fresh
unfolding create_workflow new_version
creates = refl

releases : publish_version accepts 5 11 none (some "bob") (some empty) fresh ≡ done first_out
unfolding publish_version find_version is_draft archive_row publish_row is_published
releases = refl

adds : create_version 12 (some empty) "b" first_out ≡ done two_rows
unfolding create_version new_version max_version
adds = refl

replaces : publish_version accepts 5 12 none (some "bob") (some empty) two_rows ≡ done second_out
unfolding publish_version find_version is_draft archive_row publish_row is_published
replaces = refl

Versioned-IsCurrent_example : IsCurrent second_out
Versioned-IsCurrent_example = Versioned-IsCurrent (
    published accepts 5 12 none (some "bob") (some empty) two_rows second_out
      (added 12 (some empty) "b" first_out two_rows
        (published accepts 5 11 none (some "bob") (some empty) fresh first_out
          (created 11 (some empty) "a" fresh creates) releases)
        adds)
      replaces)
