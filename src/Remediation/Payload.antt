-- ===== src/Remediation/Payload.antt =====
-- services/remediation_service.py: `build_actions_payload` and the list of target agents.
-- A dict keyed by agent is an association list in the order in which keys are first set.
pub mod Grouping
use lokilinux.Prelude.{ℕ, Bool, List, [], ◌∷◌, ◌++◌, if◌then◌else◌, ltb, leb, ◌==◌, map}
use lokilinux.Remediation.Types.{Action, PlanEntry}

-- `sorted(xs, key=...)`, which keeps the order of equal keys: `before x y` says that the key of `x`
-- is not behind the key of `y`.
unfoldable pub insert_by {ℓ} : {A : Type ℓ} → (A → A → Bool) → A → List A → List A
insert_by before a [] = a ∷ []
insert_by before a (b ∷ bs) =
    let rest = insert_by before a bs in if before a b then a ∷ b ∷ bs else b ∷ rest

unfoldable pub sort_by {ℓ} : {A : Type ℓ} → (A → A → Bool) → List A → List A
unfolding insert_by
sort_by before [] = []
sort_by before (a ∷ more) = insert_by before a (sort_by before more)

abbrev pub ascending : Action → Action → Bool
ascending a b = leb a.sequence b.sequence

abbrev pub descending : Action → Action → Bool
descending a b = leb b.sequence a.sequence

unfoldable pub entry_of : Action → PlanEntry
entry_of a = record {
  sequence = a.sequence;
  provider = a.provider;
  rendered_body = a.rendered_body;
}

-- `by_agent.setdefault(agent, []).append(entry)`
unfoldable pub append_entry : ℕ → PlanEntry → List (ℕ × List PlanEntry) → List (ℕ × List PlanEntry)
append_entry a e [] = (a, e ∷ []) ∷ []
append_entry a e ((b, es) ∷ more) =
    let rest = append_entry a e more in if b == a then (b, es ++ e ∷ []) ∷ more else (b, es) ∷ rest

-- The loop over the sorted actions.
unfoldable pub group : List Action → List (ℕ × List PlanEntry) → List (ℕ × List PlanEntry)
unfolding append_entry entry_of
group [] by_agent = by_agent
group (a ∷ more) by_agent = group more (append_entry a.agent_id (entry_of a) by_agent)

unfoldable pub build_actions_payload : List Action → List (ℕ × List PlanEntry)
unfolding group sort_by
build_actions_payload actions = group (sort_by ascending actions) []

-- `sorted({...})` of agent ids, and `sorted(d.keys())`
unfoldable pub insert_id : ℕ → List ℕ → List ℕ
insert_id a [] = a ∷ []
insert_id a (b ∷ bs) =
    let rest = insert_id a bs in if ltb a b then a ∷ b ∷ bs else if a == b then b ∷ bs else b ∷ rest

unfoldable pub sorted_ids : List ℕ → List ℕ
unfolding insert_id
sorted_ids [] = []
sorted_ids (a ∷ more) = insert_id a (sorted_ids more)

unfoldable pub agent_ids : List Action → List ℕ
unfolding sorted_ids
agent_ids actions = sorted_ids (map (λ (a : Action). a.agent_id) actions)

-- `d.get(agent, [])`, which is how an agent reads its entries.
unfoldable pub entries_for : ℕ → List (ℕ × List PlanEntry) → List PlanEntry
entries_for a [] = []
entries_for a ((b, es) ∷ more) = if b == a then es else entries_for a more
