-- ===== src/Incidents/Tests.antt =====
-- The theorems about incidents, at a small board.
use lokilinux.Prelude.{true, ◌≡◌, refl, none, some, [], ◌∷◌}
use lokilinux.Python.{ok}
use lokilinux.Incidents.Types.{IncidentStatus, Incident, SignalStatus, Signal, Board}
use lokilinux.Incidents.Lifecycle.{move}
use lokilinux.Incidents.Service.{
  Candidate, new_incident, insert_incident, member_signals, open_from_candidate, maybe_auto_resolve,
}
use lokilinux.Incidents.Life.{IsFresh, Life, signals_to, empty}
use lokilinux.Incidents.Life.Sound.{IsSound}
use lokilinux.Incidents.Life.Sound.Openings.{IsOpened, open_from_candidate-IsOpened}
use lokilinux.Incidents.Life.Sound.Always.{IsQuiet, Life-IsSound_board, maybe_auto_resolve-IsQuiet}

abbrev silent : Signal
silent = record {
  id = 3;
  tenant_id = "default";
  host_id = some 4;
  signal_type = "agent.silent";
  fingerprint = "f";
  status = SignalStatus.active;
  last_seen = 5;
}

abbrev candidate : Candidate
candidate = record {
  tenant_id = "default";
  group_key = "g";
  host_id = some 4;
  member_types = "agent.silent" ∷ [];
  fingerprints = [];
  root_signal_type = "agent.silent";
  incident_type = "host_down";
  severity = "HIGH";
}

abbrev noticed : Board
noticed = signals_to (silent ∷ []) empty

no_rival : (i : Incident) → none ≡ some i → IsFresh i
no_rival i h = cc

noticed-Life : Life noticed
noticed-Life = Life.signals (silent ∷ []) empty Life.begins

open_from_candidate-IsOpened_example :
    (d : Board) × (open_from_candidate 7 10 true none candidate noticed ≡ ok d)
    × IsOpened candidate (member_signals candidate noticed) d
open_from_candidate-IsOpened_example =
    open_from_candidate-IsOpened 7 10 true none candidate noticed
      (Life-IsSound_board noticed noticed-Life) no_rival

abbrev opened : Board
opened = insert_incident 7 true (new_incident 7 10 candidate (silent ∷ [])) (silent ∷ []) noticed

opens : open_from_candidate 7 10 true none candidate noticed ≡ ok opened
unfolding open_from_candidate
opens = refl

Life-IsSound_board_example : IsSound opened
Life-IsSound_board_example =
    Life-IsSound_board opened
      (Life.opens 7 10 true none candidate noticed opened noticed-Life no_rival opens)

abbrev over : Signal
over = record silent { status = SignalStatus.resolved }

abbrev quiet : Board
quiet = signals_to (over ∷ []) opened

abbrev row : Incident
row = new_incident 7 10 candidate (silent ∷ [])

settles :
    maybe_auto_resolve 700000000 7 quiet
    ≡ ok (true, move 700000000 IncidentStatus.resolved row quiet)
unfolding maybe_auto_resolve insert_incident new_incident
settles = refl

maybe_auto_resolve-IsQuiet_example :
    IsQuiet 700000000 7 quiet (move 700000000 IncidentStatus.resolved row quiet)
maybe_auto_resolve-IsQuiet_example =
    maybe_auto_resolve-IsQuiet 700000000 7 quiet (move 700000000 IncidentStatus.resolved row quiet)
      settles
