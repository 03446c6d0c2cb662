-- ===== src/Incidents/Lifecycle.antt =====
-- incidents/lifecycle.py, and `_transition` of incidents/service.py with the partial unique index
-- uq_incident_open_group of incidents/models.py.
use lokilinux.Prelude.{
  ℕ, String, Bool, true, false, ◌&&◌, Option, none, some, List, map, any, is_num, not,
  if◌then◌else◌,
}
use lokilinux.Python.{value_error, integrity_error, Result, ok, raised}
use lokilinux.Incidents.Types.{
  IncidentStatus, Incident, Alert, Board, is_open_in, find_incident, put_incident,
}

-- `target in TRANSITIONS.get(current, set())`
unfoldable pub is_legal : IncidentStatus → IncidentStatus → Bool
is_legal IncidentStatus.opened IncidentStatus.acknowledged = true
is_legal IncidentStatus.opened IncidentStatus.in_progress = true
is_legal IncidentStatus.opened IncidentStatus.resolved = true
is_legal IncidentStatus.acknowledged IncidentStatus.in_progress = true
is_legal IncidentStatus.acknowledged IncidentStatus.resolved = true
is_legal IncidentStatus.in_progress IncidentStatus.resolved = true
is_legal IncidentStatus.resolved IncidentStatus.closed = true
is_legal IncidentStatus.resolved IncidentStatus.opened = true
is_legal _ _ = false

-- The row behind a transition.
unfoldable pub moved : ℕ → IncidentStatus → Incident → Incident
moved now IncidentStatus.acknowledged i = record i {
  status = IncidentStatus.acknowledged;
  updated_at = now;
  acknowledged_at = some now;
}
moved now IncidentStatus.resolved i = record i {
  status = IncidentStatus.resolved;
  updated_at = now;
  resolved_at = some now;
}
moved now IncidentStatus.opened i = record i {
  status = IncidentStatus.opened;
  updated_at = now;
  resolved_at = none;
}
moved now IncidentStatus.in_progress i = record i {
  status = IncidentStatus.in_progress;
  updated_at = now;
}
moved now IncidentStatus.closed i = record i { status = IncidentStatus.closed; updated_at = now }

abbrev resolve_alert : ℕ → ℕ → Alert → Alert
resolve_alert now id a =
    if is_num a.incident_id id && not a.is_resolved
    then record a { is_resolved = true; resolved_at = some now }
    else a

-- The alerts behind a transition: those of a resolved incident are resolved.
unfoldable pub settle_alerts : ℕ → ℕ → IncidentStatus → List Alert → List Alert
settle_alerts now id IncidentStatus.resolved as_they_are = map (resolve_alert now id) as_they_are
settle_alerts now id _ as_they_are = as_they_are

-- An open incident of the group stands already; rows without a key are not in the index.
unfoldable pub is_taken : String → Option String → List Incident → Bool
unfolding is_open_in
is_taken tenant none is = false
is_taken tenant (some key) is = any (is_open_in tenant key) is

-- A reopened row enters the index again, and the flush refuses it where its group is taken.
unfoldable pub is_refused : IncidentStatus → Incident → List Incident → Bool
unfolding is_taken
is_refused IncidentStatus.opened i is = is_taken i.tenant_id i.group_key is
is_refused _ i is = false

unfoldable pub move : ℕ → IncidentStatus → Incident → Board → Board
unfolding moved settle_alerts put_incident
move now target i b = record b {
  incidents = put_incident (moved now target i) b.incidents;
  alerts = settle_alerts now i.id target b.alerts;
}

-- The transition of a row that was found.
unfoldable pub transition_row : ℕ → IncidentStatus → Incident → Board → Result Board
unfolding is_legal is_refused move
transition_row now target i b =
    if is_legal i.status target
    then if is_refused target i b.incidents
      then raised integrity_error
      else ok (move now target i b)
    else raised value_error

-- `_transition`; IllegalTransition is a ValueError.
unfoldable pub transition : ℕ → ℕ → IncidentStatus → Board → Result Board
unfolding find_incident transition_row
transition now id target b = elim (find_incident id b.incidents) [
  | none ↦ raised value_error
  | some i ↦ transition_row now target i b
]
