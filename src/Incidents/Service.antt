-- ===== src/Incidents/Service.antt =====
-- incidents/service.py: `open_from_candidate` and `maybe_auto_resolve`. Timeline entries, evidence
-- and messages are left out.
use lokilinux.Prelude.{
  ℕ, ◌-◌, String, Bool, true, false, ◌&&◌, not, Option, none, some, List, [], ◌∷◌, ◌++◌, map, any,
  all, keep, is_num, is_empty, leb, ◌==◌, str_eq, mem_str, if◌then◌else◌,
}
use lokilinux.Python.{value_error, multiple_results, Result, ok, raised}
use lokilinux.Incidents.Types.{
  IncidentStatus, Incident, SignalStatus, Signal, Board, is_open_status, is_open_in, find_incident,
}
use lokilinux.Incidents.Lifecycle.{is_taken, transition}

-- `IncidentCandidate` with its rule; `fingerprints` are those that the source computes for a
-- candidate without a host.
pub record Candidate : Type 0 where
  pub tenant_id : String
  pub group_key : String
  pub host_id : Option ℕ
  pub member_types : List String
  pub fingerprints : List String
  pub root_signal_type : String
  pub incident_type : String
  pub severity : String

abbrev is_resolved_signal : SignalStatus → Bool
is_resolved_signal SignalStatus.resolved = true
is_resolved_signal _ = false

unfoldable pub is_member : Candidate → Signal → Bool
is_member c s =
    str_eq s.tenant_id c.tenant_id
    && (elim c.host_id [
      | some h ↦ is_num s.host_id h && mem_str s.signal_type c.member_types
      | none ↦ mem_str s.fingerprint c.fingerprints
    ])
    && not (is_resolved_signal s.status)

-- `_resolve_member_signals`
unfoldable pub member_signals : Candidate → Board → List Signal
unfolding is_member
member_signals c b = keep (is_member c) b.signals

abbrev pub is_link : ℕ → ℕ → ℕ × ℕ → Bool
is_link i s (j, t) = j == i && t == s

-- The inserts with on_conflict_do_nothing.
unfoldable pub link_all : ℕ → List Signal → List (ℕ × ℕ) → List (ℕ × ℕ)
link_all i [] links = links
link_all i (s ∷ more) links =
    let rest = link_all i more links in if any (is_link i s.id) rest then rest else (i, s.id) ∷ rest

-- `_attach_to_existing`
unfoldable pub attach : Incident → List Signal → Board → Board
unfolding link_all
attach i signals b = record b { links = link_all i.id signals b.links }

-- `next((s for s in signal_rows if ...), signal_rows[0] if signal_rows else None)`
unfoldable pub first_of_type : String → List Signal → Option ℕ
first_of_type t [] = none
first_of_type t (s ∷ more) =
    let rest = first_of_type t more in if str_eq s.signal_type t then some s.id else rest

abbrev first_signal : List Signal → Option ℕ
first_signal [] = none
first_signal (s ∷ more) = some s.id

abbrev or_first : Option ℕ → Option ℕ → Option ℕ
or_first none o = o
or_first (some n) o = some n

unfoldable pub root_signal : String → List Signal → Option ℕ
unfolding first_of_type
root_signal t signals = or_first (first_of_type t signals) (first_signal signals)

unfoldable pub new_incident : ℕ → ℕ → Candidate → List Signal → Incident
unfolding root_signal
new_incident id now c signals = record {
  id = id;
  tenant_id = c.tenant_id;
  incident_type = c.incident_type;
  severity = c.severity;
  status = IncidentStatus.opened;
  root_cause_signal_id = root_signal c.root_signal_type signals;
  group_key = some c.group_key;
  updated_at = now;
  resolved_at = none;
  acknowledged_at = none;
}

-- The rows of a new incident; `alerts` says whether create_alert gives one.
unfoldable pub insert_incident : ℕ → Bool → Incident → List Signal → Board → Board
insert_incident id alerts i signals b = record b {
  incidents = i ∷ b.incidents;
  links = map (λ (s : Signal). (id, s.id)) signals ++ b.links;
  alerts =
      if alerts
      then record { incident_id = some id; is_resolved = false; resolved_at = none } ∷ b.alerts
      else b.alerts;
}

-- What another worker inserts between the SELECT and the INSERT, as far as the index lets it.
unfoldable pub arrive : Option Incident → Board → Board
unfolding is_taken is_open_status
arrive none b = b
arrive (some i) b =
    if is_open_status i.status && is_taken i.tenant_id i.group_key b.incidents
    then b
    else record b { incidents = i ∷ b.incidents }

-- The open incidents of the candidate's group.
unfoldable pub open_group : Candidate → Board → List Incident
unfolding is_open_in
open_group c b = keep (is_open_in c.tenant_id c.group_key) b.incidents

-- The INSERT: the index refuses it where the group is taken by now, and then the incident that won
-- gets the signals; `scalar_one` asks for exactly one.
unfoldable pub insert_or_attach : ℕ → ℕ → Bool → Candidate → List Signal → Board → Result Board
unfolding open_group new_incident insert_incident attach
insert_or_attach id now alerts c signals b = elim (open_group c b) [
  | [] ↦ ok (insert_incident id alerts (new_incident id now c signals) signals b)
  | i ∷ more ↦ if is_empty more then ok (attach i signals b) else raised multiple_results
]

-- `open_from_candidate`, with the id of a new row and what another worker inserts meanwhile.
unfoldable pub open_from_candidate :
    ℕ → ℕ → Bool → Option Incident → Candidate → Board → Result Board
unfolding member_signals open_group attach insert_or_attach arrive
open_from_candidate id now alerts rival c b = elim (open_group c b) [
  | [] ↦ insert_or_attach id now alerts c (member_signals c b) (arrive rival b)
  | i ∷ more ↦
      if is_empty more then ok (attach i (member_signals c b) b) else raised multiple_results
]

-- INCIDENT_AUTO_RESOLVE_QUIET_SEC, 600 seconds in microseconds
abbrev pub quiet_time : ℕ
quiet_time = 600000000

abbrev pub is_over_signal : SignalStatus → Bool
is_over_signal SignalStatus.resolved = true
is_over_signal SignalStatus.suppressed = true
is_over_signal SignalStatus.active = false

abbrev pub is_quiet : ℕ → Signal → Bool
is_quiet now s = is_over_signal s.status && leb quiet_time (now - s.last_seen)

-- The signals linked to an incident.
unfoldable pub linked_signals : ℕ → Board → List Signal
linked_signals id b = keep (λ (s : Signal). any (is_link id s.id) b.links) b.signals

unfoldable pub has_links : ℕ → Board → Bool
has_links id b = any (λ (l : ℕ × ℕ). l.0 == id) b.links

unfoldable pub may_auto_resolve : ℕ → ℕ → Incident → Board → Bool
unfolding is_open_status has_links linked_signals
may_auto_resolve now id i b =
    is_open_status i.status && has_links id b && all (is_quiet now) (linked_signals id b)

-- `maybe_auto_resolve`: whether it resolved the incident, and the board.
unfoldable pub maybe_auto_resolve : ℕ → ℕ → Board → Result (Bool × Board)
unfolding find_incident may_auto_resolve transition
maybe_auto_resolve now id b = elim (find_incident id b.incidents) [
  | none ↦ raised value_error
  | some i ↦
      if may_auto_resolve now id i b
      then elim (transition now id IncidentStatus.resolved b) [
        | raised e ↦ raised e
        | ok c ↦ ok (true, c)
      ]
      else ok (false, b)
]
