-- ===== src/Incidents/Life/Sound/Openings.antt =====
-- What open_from_candidate leaves.
use lokilinux.Prelude.{
  is_str, Option, some, none, Bool-cases, ◌&&◌, ◌++◌, map, str_eq, eq_iff, keep-Mem, ◌==◌, arith, ℕ,
  ◌≤◌, String, Bool, true, ◌≡◌, refl, sym, ap, ◌∙◌, subst, List, [], ◌∷◌, Memᴰ, any, keep, length,
  count, count-keep, one_if, inl, inr, ◌⊎◌,
}
use lokilinux.Incidents.Life.Sound.{free_group, is_dated, IsSound, open_count}
use lokilinux.Python.{ok}
use lokilinux.Incidents.Service.{
  arrive, insert_or_attach, open_from_candidate, open_group, member_signals, attach,
  insert_incident, new_incident, Candidate, link_all, is_link,
}
use lokilinux.Incidents.Life.{IsFresh}
use lokilinux.Incidents.Lifecycle.{is_taken}
use lokilinux.Incidents.Types.{is_open_status, Incident, Signal, Board, is_open_in}

-- The incident of the candidate's group, the only open one, is linked to the candidate's signals.
pub record IsOpened (c : Candidate) (signals : List Signal) (d : Board) : Type 0 where
  pub single : open_count c.tenant_id c.group_key d.incidents ≡ 1
  pub incident : Incident
  pub stands : Memᴰ incident d.incidents
  pub is_open : is_open_in c.tenant_id c.group_key incident ≡ true
  pub linked : (s : Signal) → Memᴰ s signals → any (is_link incident.id s.id) d.links ≡ true
  pub sound : IsSound d

-- A group of at most one open incident has none or one.
pub record IsOnly (q : Incident → Bool) (is : List Incident) (i : Incident) : Type 0 where
  pub alone : keep q is ≡ i ∷ []
  pub there : Memᴰ i is
  pub holds : q i ≡ true
  pub one : count q is ≡ 1

list_cases :
    (q : Incident → Bool) (is ks : List Incident)
    → keep q is ≡ ks
    → length ks ≤ 1
    → (ks ≡ []) ⊎ ((i : Incident) × IsOnly q is i)
list_cases q is [] h n = inl refl
list_cases q is (k ∷ (l ∷ ls)) h n = ground (arith, n)
list_cases q is (k ∷ []) h n =
    let (m, e) = keep-Mem q k is (subst (Memᴰ k) (sym h) (Memᴰ.head refl)) in
    inr (k, record { alone = h; there = m; holds = e; one = count-keep q is ∙ ap length h })

pub group-cases :
    (q : Incident → Bool) (is : List Incident)
    → count q is ≤ 1
    → ((keep q is ≡ []) × (count q is ≡ 0)) ⊎ ((i : Incident) × IsOnly q is i)
group-cases q is n =
    let c = count-keep q is in
    elim (list_cases q is (keep q is) refl (omega (arith, c, n))) [
      | inr o ↦ inr o
      | inl e ↦ let l : length (keep q is) ≡ 0 = ap length e in inl (e, omega (arith, c, l))
    ]

num_refl : (n : ℕ) → (n == n) ≡ true
num_refl n = ground arith

str_refl : (s : String) → str_eq s s ≡ true
str_refl s = (eq_iff s s).1 refl

link_all_lem :
    (i : ℕ) (signals : List Signal) (links : List (ℕ × ℕ)) (s : Signal)
    → Memᴰ s signals
    → any (is_link i s.id) (link_all i signals links) ≡ true
unfolding link_all
link_all_lem i [] links s m = elim m [ ]
link_all_lem i (x ∷ xs) links s (Memᴰ.head e) =
    let at_x : any (is_link i x.id) (link_all i (x ∷ xs) links) ≡ true =
      elim (Bool-cases (any (is_link i x.id) (link_all i xs links))) [
        | inl h ↦ rw (h, h) refl
        | inr h ↦ rw (h, num_refl i, num_refl x.id) refl
      ] in
    subst (λ (z : Signal). any (is_link i z.id) (link_all i (x ∷ xs) links) ≡ true) (sym e) at_x
link_all_lem i (x ∷ xs) links s (Memᴰ.tail m) =
    let ih = link_all_lem i xs links s m in
    elim (Bool-cases (any (is_link i x.id) (link_all i xs links))) [
      | inl h ↦ rw h ih
      | inr h ↦ rw h (ground (arith, ih))
    ]

linked_lem :
    (i : ℕ) (signals : List Signal) (links : List (ℕ × ℕ)) (s : Signal)
    → Memᴰ s signals
    → any (is_link i s.id) (map (λ (x : Signal). (i, x.id)) signals ++ links) ≡ true
linked_lem i [] links s m = elim m [ ]
linked_lem i (x ∷ xs) links s (Memᴰ.head e) =
    let h : (x.id == s.id) ≡ true =
      subst (λ (z : Signal). (x.id == z.id) ≡ true) (sym e) (num_refl x.id) in
    rw (num_refl i, h) refl
linked_lem i (x ∷ xs) links s (Memᴰ.tail m) =
    let ih = linked_lem i xs links s m in ground (arith, ih)

-- One more row keeps every group to one open incident where its own group has none.
cons_exclusive :
    (i : Incident) (is : List Incident)
    → ((tenant key : String) → open_count tenant key is ≤ 1)
    → ((tenant key : String) → is_open_in tenant key i ≡ true → open_count tenant key is ≡ 0)
    → (tenant key : String) → open_count tenant key (i ∷ is) ≤ 1
unfolding open_count
cons_exclusive i is old free tenant key = elim (Bool-cases (is_open_in tenant key i)) [
  | inl h ↦
      let x : one_if (is_open_in tenant key i) ≡ 1 = rw h refl in
      omega (arith, x, free tenant key h)
  | inr h ↦
      let x : one_if (is_open_in tenant key i) ≡ 0 = rw h refl in omega (arith, x, old tenant key)
]

module _ (c : Candidate) (signals : List Signal) (b : Board) (s : IsSound b) where
  abbrev mine : Incident → Bool
  mine = is_open_in c.tenant_id c.group_key

  attach-IsOpened :
      (i : Incident) → IsOnly mine b.incidents i → IsOpened c signals (attach i signals b)
  unfolding attach open_count
  attach-IsOpened i o = record {
    single = o.one;
    incident = i;
    stands = o.there;
    is_open = o.holds;
    linked = λ x m. link_all_lem i.id signals b.links x m;
    sound = record { exclusive = s.exclusive; dated = s.dated };
  }

  insert-IsOpened :
      (id now : ℕ) (alerts : Bool)
      → count mine b.incidents ≡ 0
      → IsOpened c signals (insert_incident id alerts (new_incident id now c signals) signals b)
  unfolding insert_incident new_incident is_open_in is_open_status open_count
  insert-IsOpened id now alerts n =
      let t = str_refl c.tenant_id in
      let k = str_refl c.group_key in
      record {
        single =
            let x : one_if (mine (new_incident id now c signals)) ≡ 1 = rw (t, k) refl in
            omega (arith, x, n);
        incident = new_incident id now c signals;
        stands = Memᴰ.head refl;
        is_open = rw (t, k) refl;
        linked = λ x m. linked_lem id signals b.links x m;
        sound = record {
          exclusive =
              cons_exclusive (new_incident id now c signals) b.incidents s.exclusive
                (λ tenant key h.
                  let u : c.tenant_id ≡ tenant = (eq_iff c.tenant_id tenant).0 (ground arith) in
                  let v : c.group_key ≡ key = (eq_iff c.group_key key).0 (ground arith) in
                  subst (λ x. count (is_open_in tenant x) b.incidents ≡ 0) v
                    (subst (λ x. count (is_open_in x c.group_key) b.incidents ≡ 0) u n));
          dated = λ i m. elim m [
            | Memᴰ.head e ↦ subst (λ j. is_dated j ≡ true) (sym e) refl
            | Memᴰ.tail m ↦ s.dated i m
          ];
        };
      }

-- Where the group has no open incident, or one: what is left is ok.
pub insert_or_attach-IsOpened :
    (id now : ℕ) (alerts : Bool) (c : Candidate) (signals : List Signal) (b : Board)
    → IsSound b
    → (d : Board) × (insert_or_attach id now alerts c signals b ≡ ok d) × IsOpened c signals d
unfolding insert_or_attach open_group open_count
insert_or_attach-IsOpened id now alerts c signals b s =
    elim (group-cases (is_open_in c.tenant_id c.group_key) b.incidents
      (s.exclusive c.tenant_id c.group_key)) [
        | inl (e, n) ↦ (
          insert_incident id alerts (new_incident id now c signals) signals b,
          rw (e, insert_or_attach) refl,
          insert-IsOpened c signals b s id now alerts n,
        )
        | inr (i, o) ↦ (
          attach i signals b,
          let e = o.alone in rw (e, insert_or_attach) refl,
          attach-IsOpened c signals b s i o,
        )
      ]

is_open_in_group :
    (tenant key : String) (i : Incident)
    → is_open_in tenant key i ≡ true
    → (str_eq i.tenant_id tenant && is_str i.group_key key) ≡ true
unfolding is_open_in
is_open_in_group tenant key i h = ground arith

arrive-IsSound :
    (rival : Option Incident) (b : Board)
    → ((i : Incident) → rival ≡ some i → IsFresh i)
    → IsSound b
    → IsSound (arrive rival b)
unfolding arrive is_open_status
arrive-IsSound none b f s = s
arrive-IsSound (some i) b f s =
    let x = f i refl in
    let o : is_open_status i.status ≡ true = rw x.is_opened refl in
    elim (Bool-cases (is_taken i.tenant_id i.group_key b.incidents)) [
      | inl h ↦ rw (o, h) s
      | inr h ↦
          rw (o, h)
            (record {
              exclusive = cons_exclusive i b.incidents s.exclusive (λ tenant key k.
                  free_group i b.incidents h tenant key (is_open_in_group tenant key i k));
              dated = λ j m. elim m [
                | Memᴰ.head e ↦
                    let u = x.undated in subst (λ k. is_dated k ≡ true) (sym e) (simp (o, u) refl)
                | Memᴰ.tail n ↦ s.dated j n
              ];
            })
    ]

-- On a sound board open_from_candidate raises nothing, whatever fresh incident another worker inserts
-- between its SELECT and its INSERT: afterwards the group has exactly one open incident, which is
-- linked to all the signals of the candidate, and the board is sound.
pub open_from_candidate-IsOpened :
    (id now : ℕ) (alerts : Bool) (rival : Option Incident) (c : Candidate) (b : Board)
    → IsSound b
    → ((i : Incident) → rival ≡ some i → IsFresh i)
    → (d : Board) × (open_from_candidate id now alerts rival c b ≡ ok d)
      × IsOpened c (member_signals c b) d
unfolding open_from_candidate open_group open_count
open_from_candidate-IsOpened id now alerts rival c b s f =
    elim (group-cases (is_open_in c.tenant_id c.group_key) b.incidents
      (s.exclusive c.tenant_id c.group_key)) [
        | inl (e, n) ↦
            let (d, h, o) =
              insert_or_attach-IsOpened id now alerts c (member_signals c b) (arrive rival b)
                (arrive-IsSound rival b f s) in
            (d, rw (e, open_from_candidate) h, o)
        | inr (i, o) ↦ (
          attach i (member_signals c b) b,
          let e = o.alone in rw (e, open_from_candidate) refl,
          attach-IsOpened c (member_signals c b) b s i o,
        )
      ]
