-- ===== src/Incidents/Life.antt =====
-- All that can happen to the incidents: candidates of the correlation, operators, auto-resolution,
-- and signals that come and go.
pub mod Sound
use lokilinux.Prelude.{ℕ, Bool, ◌≡◌, Option, none, some, List, [], ◌∷◌}
use lokilinux.Python.{ok}
use lokilinux.Incidents.Types.{IncidentStatus, Incident, Signal, Board}
use lokilinux.Incidents.Lifecycle.{transition}
use lokilinux.Incidents.Service.{Candidate, open_from_candidate, maybe_auto_resolve}

abbrev pub signals_to : List Signal → Board → Board
signals_to ss b = record b { signals = ss }

abbrev pub empty : Board
empty = record { incidents = []; links = []; signals = []; alerts = [] }

-- A row as open_from_candidate inserts it.
pub record IsFresh (i : Incident) : Type 0 where
  pub is_opened : i.status ≡ IncidentStatus.opened
  pub undated : i.resolved_at ≡ none

-- The boards that can come about. A row that another worker inserts meanwhile is a fresh one.
pub data Life : Board → Type 0 where
  begins : Life empty
  opens :
      (id now : ℕ) (alerts : Bool) (rival : Option Incident) (c : Candidate) (b d : Board)
      → Life b
      → (fresh : (i : Incident) → rival ≡ some i → IsFresh i)
      → open_from_candidate id now alerts rival c b ≡ ok d
      → Life d
  transitions :
      (now id : ℕ) (target : IncidentStatus) (b d : Board)
      → Life b
      → transition now id target b ≡ ok d
      → Life d
  auto_resolves :
      (now id : ℕ) (resolved : Bool) (b d : Board)
      → Life b
      → maybe_auto_resolve now id b ≡ ok (resolved, d)
      → Life d
  signals : (ss : List Signal) (b : Board) → Life b → Life (signals_to ss b)
