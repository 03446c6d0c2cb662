-- ===== src/Incidents/Types.antt =====
-- incidents/models.py, and what incidents/service.py reads of signals and alerts. A Board is what
-- the database holds of them.
use lokilinux.Prelude.{
  ℕ, String, Bool, true, false, ◌&&◌, Option, none, some, List, [], ◌∷◌, is_str, str_eq,
  if◌then◌else◌, ◌==◌,
}

pub data IncidentStatus : Type 0 where
  opened acknowledged in_progress resolved closed : IncidentStatus

pub record Incident : Type 0 where
  pub id : ℕ
  pub tenant_id : String
  pub incident_type : String
  pub severity : String
  pub status : IncidentStatus
  pub root_cause_signal_id : Option ℕ
  pub group_key : Option String
  pub updated_at : ℕ
  pub resolved_at : Option ℕ
  pub acknowledged_at : Option ℕ

-- `Signal.status`, a text in the source: RESOLVED, SUPPRESSED, or another.
pub data SignalStatus : Type 0 where
  resolved suppressed active : SignalStatus

pub record Signal : Type 0 where
  pub id : ℕ
  pub tenant_id : String
  pub host_id : Option ℕ
  pub signal_type : String
  pub fingerprint : String
  pub status : SignalStatus
  pub last_seen : ℕ

-- The alert of an incident: whether it is RESOLVED, and since when.
pub record Alert : Type 0 where
  pub incident_id : Option ℕ
  pub is_resolved : Bool
  pub resolved_at : Option ℕ

-- `links` are the rows of incident_signals: an incident and a signal.
pub record Board : Type 0 where
  pub incidents : List Incident
  pub links : List (ℕ × ℕ)
  pub signals : List Signal
  pub alerts : List Alert

-- `status in _OPEN_STATUSES`
unfoldable pub is_open_status : IncidentStatus → Bool
is_open_status IncidentStatus.opened = true
is_open_status IncidentStatus.acknowledged = true
is_open_status IncidentStatus.in_progress = true
is_open_status _ = false

-- An open incident of a tenant's group: what the query asks for, and what uq_incident_open_group
-- lets stand once.
unfoldable pub is_open_in : String → String → Incident → Bool
unfolding is_open_status
is_open_in tenant key i =
    str_eq i.tenant_id tenant && is_str i.group_key key && is_open_status i.status

-- `db.get(Incident, incident_id)`
unfoldable pub find_incident : ℕ → List Incident → Option Incident
find_incident id [] = none
find_incident id (i ∷ is) = if i.id == id then some i else find_incident id is

-- The row of `i` is `i` from now on.
unfoldable pub put_incident : Incident → List Incident → List Incident
put_incident i [] = []
put_incident i (k ∷ ks) = let rest = put_incident i ks in if k.id == i.id then i ∷ ks else k ∷ rest
