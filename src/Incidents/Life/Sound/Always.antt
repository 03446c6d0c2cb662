-- ===== src/Incidents/Life/Sound/Always.antt =====
-- Every board that can come about is sound; and when an incident is resolved by itself.
use lokilinux.Incidents.Life.Sound.{open_count, IsSound}
use lokilinux.Prelude.{
  keep-true, keep-false, sym, ℕ, Bool, true, false, ◌≡◌, ◌∙◌, subst, some, List, [], ◌∷◌, Memᴰ, any,
  all, arith, inl, inr, Bool-cases, Option-cases, keep,
}
use lokilinux.Python.{Result, ok, ok_injective, Result-cases}
use lokilinux.Incidents.Types.{
  IncidentStatus, Incident, Signal, Board, find_incident, is_open_status,
}
use lokilinux.Incidents.Lifecycle.{transition}
use lokilinux.Incidents.Service.{
  maybe_auto_resolve, may_auto_resolve, is_quiet, is_link, has_links, linked_signals,
}
use lokilinux.Incidents.Life.{Life, empty}
use lokilinux.Incidents.Life.Sound.Transitions.{transition-IsSound}
use lokilinux.Incidents.Life.Sound.Openings.{open_from_candidate-IsOpened}

empty-IsSound : IsSound empty
unfolding open_count
empty-IsSound = record { exclusive = λ t k. omega arith; dated = λ i m. elim m [ ] }

abbrev answer : Bool → Board → Result (Bool × Board)
answer r b = ok (r, b)

pair_injective : (r s : Bool) (b d : Board) → answer r b ≡ answer s d → b ≡ d
pair_injective r s b d h = cc

auto_resolves-IsSound :
    (now id : ℕ) (r : Bool) (b d : Board)
    → maybe_auto_resolve now id b ≡ ok (r, d)
    → IsSound b
    → IsSound d
unfolding maybe_auto_resolve
auto_resolves-IsSound now id r b d h s = elim (Option-cases (find_incident id b.incidents)) [
  | inl n ↦ cc (rw (n, maybe_auto_resolve) at h)
  | inr (i, n) ↦ elim (Bool-cases (may_auto_resolve now id i b)) [
    | inr m ↦ subst IsSound (pair_injective false r b d (rw (n, m, maybe_auto_resolve) at h)) s
    | inl m ↦ elim (Result-cases (transition now id IncidentStatus.resolved b)) [
      | inr (e, t) ↦ cc (rw (n, m, t, maybe_auto_resolve) at h)
      | inl (c, t) ↦
          subst IsSound (pair_injective true r c d (rw (n, m, t, maybe_auto_resolve) at h))
            (transition-IsSound now id IncidentStatus.resolved b c t s)
    ]
  ]
]

-- However incidents are opened, moved and resolved, and whatever becomes of the signals: a group of
-- a tenant has at most one open incident, and an incident has a date of resolution exactly where it
-- is not open.
pub Life-IsSound_board : (b : Board) → Life b → IsSound b
Life-IsSound_board _ Life.begins = empty-IsSound
Life-IsSound_board _ (Life.opens id now alerts rival c b d l f h) =
    let (e, k, o) =
      open_from_candidate-IsOpened id now alerts rival c b (Life-IsSound_board b l) f in
    subst IsSound (ok_injective e d (sym k ∙ h)) o.sound
Life-IsSound_board _ (Life.transitions now id t b d l h) =
    transition-IsSound now id t b d h (Life-IsSound_board b l)
Life-IsSound_board _ (Life.auto_resolves now id r b d l h) =
    auto_resolves-IsSound now id r b d h (Life-IsSound_board b l)
Life-IsSound_board _ (Life.signals ss b l) =
    let s = Life-IsSound_board b l in record { exclusive = s.exclusive; dated = s.dated }

-- What stands behind an incident that was resolved by itself.
pub record IsQuiet (now id : ℕ) (b d : Board) : Type 0 where
  pub incident : Incident
  pub is_found : find_incident id b.incidents ≡ some incident
  pub was_open : is_open_status incident.status ≡ true
  pub has_signals : has_links id b ≡ true
  pub quiet :
      (s : Signal) → Memᴰ s b.signals → any (is_link id s.id) b.links ≡ true → is_quiet now s ≡ true
  pub resolves : transition now id IncidentStatus.resolved b ≡ ok d

all-keep :
    (p q : Signal → Bool) (ss : List Signal) (s : Signal)
    → all p (keep q ss) ≡ true
    → Memᴰ s ss
    → q s ≡ true
    → p s ≡ true
all-keep p q [] s h m k = elim m [ ]
all-keep p q (x ∷ xs) s h (Memᴰ.head e) k =
    let y : q x ≡ true = subst (λ z. q z ≡ true) e k in
    let g : all p (x ∷ keep q xs) ≡ true = subst (λ ys. all p ys ≡ true) (keep-true q x xs y) h in
    subst (λ z. p z ≡ true) (sym e) (ground arith)
all-keep p q (x ∷ xs) s h (Memᴰ.tail m) k = elim (Bool-cases (q x)) [
  | inl y ↦
      let g : all p (x ∷ keep q xs) ≡ true = subst (λ ys. all p ys ≡ true) (keep-true q x xs y) h in
      all-keep p q xs s (ground arith) m k
  | inr y ↦ all-keep p q xs s (subst (λ ys. all p ys ≡ true) (keep-false q x xs y) h) m k
]

quiet_lem :
    (now id : ℕ) (i : Incident) (b d : Board)
    → find_incident id b.incidents ≡ some i
    → may_auto_resolve now id i b ≡ true
    → transition now id IncidentStatus.resolved b ≡ ok d
    → IsQuiet now id b d
unfolding may_auto_resolve linked_signals
quiet_lem now id i b d n m t = record {
  incident = i;
  is_found = n;
  was_open = ground arith;
  has_signals = ground arith;
  quiet = λ s u v.
      all-keep (is_quiet now) (λ (x : Signal). any (is_link id x.id) b.links) b.signals s
        (ground arith) u v;
  resolves = t;
}

-- maybe_auto_resolve resolves an incident only where it is open and has signals, and each of its
-- signals is RESOLVED or SUPPRESSED and was last seen at least 600 seconds ago.
pub maybe_auto_resolve-IsQuiet :
    (now id : ℕ) (b d : Board) → maybe_auto_resolve now id b ≡ ok (true, d) → IsQuiet now id b d
unfolding maybe_auto_resolve
maybe_auto_resolve-IsQuiet now id b d h = elim (Option-cases (find_incident id b.incidents)) [
  | inl n ↦ cc (rw (n, maybe_auto_resolve) at h)
  | inr (i, n) ↦ elim (Bool-cases (may_auto_resolve now id i b)) [
    | inr m ↦ cc (rw (n, m, maybe_auto_resolve) at h)
    | inl m ↦ elim (Result-cases (transition now id IncidentStatus.resolved b)) [
      | inr (e, t) ↦ cc (rw (n, m, t, maybe_auto_resolve) at h)
      | inl (c, t) ↦
          subst (IsQuiet now id b)
            (pair_injective true true c d (rw (n, m, t, maybe_auto_resolve) at h))
            (quiet_lem now id i b c n m t)
    ]
  ]
]
