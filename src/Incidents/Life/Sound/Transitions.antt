-- ===== src/Incidents/Life/Sound/Transitions.antt =====
-- A transition keeps a board sound.
use lokilinux.Incidents.Life.Sound.{
  free_group, IsSound, put_incident-Mem, find_incident-Mem, open_count, is_dated,
  count-put_incident,
}
use lokilinux.Prelude.{
  some, subst, sym, Option-cases, ℕ, ◌≤◌, String, Bool, true, false, ◌&&◌, ◌≡◌, refl, ◌∙◌, List,
  one_if, is_str, arith, inl, inr, Bool-cases, str_eq,
}
use lokilinux.Python.{ok, ok_injective}
use lokilinux.Incidents.Types.{
  Board, find_incident, IncidentStatus, Incident, is_open_status, is_open_in, put_incident,
}
use lokilinux.Incidents.Lifecycle.{
  move, transition_row, transition, is_legal, moved, is_taken, is_refused,
}

moved-id : (now : ℕ) (t : IncidentStatus) (i : Incident) → (moved now t i).id ≡ i.id
unfolding moved
moved-id now IncidentStatus.opened i = refl
moved-id now IncidentStatus.acknowledged i = refl
moved-id now IncidentStatus.in_progress i = refl
moved-id now IncidentStatus.resolved i = refl
moved-id now IncidentStatus.closed i = refl

-- A moved row is in the same group, with the target as its status.
moved-is_open_in :
    (now : ℕ) (t : IncidentStatus) (i : Incident) (tenant key : String)
    → is_open_in tenant key (moved now t i)
      ≡ (str_eq i.tenant_id tenant && is_str i.group_key key && is_open_status t)
unfolding moved is_open_in
moved-is_open_in now IncidentStatus.opened i tenant key = refl
moved-is_open_in now IncidentStatus.acknowledged i tenant key = refl
moved-is_open_in now IncidentStatus.in_progress i tenant key = refl
moved-is_open_in now IncidentStatus.resolved i tenant key = refl
moved-is_open_in now IncidentStatus.closed i tenant key = refl

-- Only a reopening opens a row that was not open.
legal_opens :
    (s t : IncidentStatus)
    → is_legal s t ≡ true
    → is_open_status t ≡ true
    → is_open_status s ≡ false
    → t ≡ IncidentStatus.opened
unfolding is_legal is_open_status
legal_opens IncidentStatus.opened t h k l = cc
legal_opens IncidentStatus.acknowledged t h k l = cc
legal_opens IncidentStatus.in_progress t h k l = cc
legal_opens IncidentStatus.resolved IncidentStatus.opened h k l = refl
legal_opens IncidentStatus.resolved IncidentStatus.acknowledged h k l = cc
legal_opens IncidentStatus.resolved IncidentStatus.in_progress h k l = cc
legal_opens IncidentStatus.resolved IncidentStatus.resolved h k l = cc
legal_opens IncidentStatus.resolved IncidentStatus.closed h k l = cc
legal_opens IncidentStatus.closed t h k l = cc

-- ACKNOWLEDGED and IN_PROGRESS
abbrev is_work : IncidentStatus → Bool
is_work IncidentStatus.acknowledged = true
is_work IncidentStatus.in_progress = true
is_work _ = false

legal_work :
    (s t : IncidentStatus) → is_legal s t ≡ true → is_work t ≡ true → is_open_status s ≡ true
unfolding is_legal is_open_status
legal_work IncidentStatus.opened t h k = refl
legal_work IncidentStatus.acknowledged t h k = refl
legal_work IncidentStatus.in_progress t h k = refl
legal_work IncidentStatus.resolved IncidentStatus.opened h k = cc
legal_work IncidentStatus.resolved IncidentStatus.acknowledged h k = cc
legal_work IncidentStatus.resolved IncidentStatus.in_progress h k = cc
legal_work IncidentStatus.resolved IncidentStatus.resolved h k = cc
legal_work IncidentStatus.resolved IncidentStatus.closed h k = cc
legal_work IncidentStatus.closed t h k = cc

legal_closes :
    (s : IncidentStatus) → is_legal s IncidentStatus.closed ≡ true → is_open_status s ≡ false
unfolding is_legal is_open_status
legal_closes IncidentStatus.opened h = cc
legal_closes IncidentStatus.acknowledged h = cc
legal_closes IncidentStatus.in_progress h = cc
legal_closes IncidentStatus.resolved h = refl
legal_closes IncidentStatus.closed h = cc

moved-is_dated :
    (now : ℕ) (t : IncidentStatus) (i : Incident)
    → is_legal i.status t ≡ true
    → is_dated i ≡ true
    → is_dated (moved now t i) ≡ true
unfolding moved is_legal is_open_status
moved-is_dated now IncidentStatus.opened i h d = refl
moved-is_dated now IncidentStatus.acknowledged i h d =
    let o = legal_work i.status IncidentStatus.acknowledged h refl in simp o at d
moved-is_dated now IncidentStatus.in_progress i h d =
    let o = legal_work i.status IncidentStatus.in_progress h refl in simp o at d
moved-is_dated now IncidentStatus.resolved i h d = refl
moved-is_dated now IncidentStatus.closed i h d = let o = legal_closes i.status h in simp o at d

module _ (now : ℕ) (t : IncidentStatus) (i : Incident) (is : List Incident)
    (l : is_legal i.status t ≡ true) (r : is_refused t i is ≡ false)
    (f : find_incident i.id is ≡ some i) where
  -- A group that the row enters had no open incident.
  entered :
      (tenant key : String)
      → is_open_in tenant key (moved now t i) ≡ true
      → is_open_in tenant key i ≡ false
      → open_count tenant key is ≡ 0
  unfolding is_refused is_taken is_open_in
  entered tenant key a b =
      let m = sym (moved-is_open_in now t i tenant key) ∙ a in
      let o : is_open_status i.status ≡ false = ground arith in
      let e = legal_opens i.status t l (ground arith) o in
      let g : is_taken i.tenant_id i.group_key is ≡ false =
        subst (λ u. is_refused u i is ≡ false) e r in
      free_group i is g tenant key (ground arith)

  moved-exclusive :
      (tenant key : String)
      → open_count tenant key is ≤ 1
      → open_count tenant key (put_incident (moved now t i) is) ≤ 1
  unfolding open_count
  moved-exclusive tenant key b =
      let q = is_open_in tenant key in
      let c = count-put_incident q i.id i (moved now t i) is f (moved-id now t i) in
      elim (Bool-cases (q (moved now t i))) [
        | inr n ↦ let x : one_if (q (moved now t i)) ≡ 0 = rw n refl in omega (arith, c, x, b)
        | inl n ↦
            let x : one_if (q (moved now t i)) ≡ 1 = rw n refl in
            elim (Bool-cases (q i)) [
              | inl k ↦ let y : one_if (q i) ≡ 1 = rw k refl in omega (arith, c, x, y, b)
              | inr k ↦ let z = entered tenant key n k in omega (arith, c, x, z)
            ]
      ]

module _ (now : ℕ) (t : IncidentStatus) (i : Incident) (b : Board) where
  move-IsSound :
      is_legal i.status t ≡ true
      → is_refused t i b.incidents ≡ false
      → find_incident i.id b.incidents ≡ some i
      → IsSound b
      → IsSound (move now t i b)
  unfolding move
  move-IsSound l r f s = record {
    exclusive =
        λ tenant key. moved-exclusive now t i b.incidents l r f tenant key (s.exclusive tenant key);
    dated = λ k m. elim (put_incident-Mem (moved now t i) b.incidents k m) [
      | inr old ↦ s.dated k old
      | inl e ↦
          subst (λ x. is_dated x ≡ true) (sym e)
            (moved-is_dated now t i l (s.dated i (find_incident-Mem i.id b.incidents i f).0))
    ];
  }

  transition_row-IsSound :
      (d : Board)
      → transition_row now t i b ≡ ok d
      → find_incident i.id b.incidents ≡ some i
      → IsSound b
      → IsSound d
  unfolding transition_row
  transition_row-IsSound d h f s = elim (Bool-cases (is_legal i.status t)) [
    | inr l ↦ cc (rw l at h)
    | inl l ↦ elim (Bool-cases (is_refused t i b.incidents)) [
      | inl r ↦ cc (rw (l, r) at h)
      | inr r ↦ subst IsSound (ok_injective _ d (rw (l, r) at h)) (move-IsSound l r f s)
    ]
  ]

pub transition-IsSound :
    (now id : ℕ) (t : IncidentStatus) (b d : Board)
    → transition now id t b ≡ ok d
    → IsSound b
    → IsSound d
unfolding transition
transition-IsSound now id t b d h s = elim (Option-cases (find_incident id b.incidents)) [
  | inl n ↦ cc (rw (n, transition) at h)
  | inr (i, n) ↦
      let e = (find_incident-Mem id b.incidents i n).1 in
      transition_row-IsSound now t i b d (rw (n, transition) at h)
        (subst (λ x. find_incident x b.incidents ≡ some i) (sym e) n) s
]
