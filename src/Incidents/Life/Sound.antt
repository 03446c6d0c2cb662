-- ===== src/Incidents/Life/Sound.antt =====
-- At most one open incident of a group, and a date of resolution exactly where one belongs.
pub mod Transitions
pub mod Openings
pub mod Always
use lokilinux.Prelude.{
  none, some, eq_iff, is_str, str_eq, ◌&&◌, count-any, false, Option, one_if, ==_iff, subst, sym,
  ap, ◌∙◌, arith, ◌⊎◌, inl, inr, Bool-cases, ◌+◌, count, if◌then◌else◌, ◌≤◌, ◌==◌, ℕ, String, Bool,
  true, not, ◌≡◌, refl, List, [], ◌∷◌, Memᴰ, is_some,
}
use lokilinux.Incidents.Lifecycle.{is_taken}
use lokilinux.Incidents.Types.{
  is_open_in, Incident, Board, is_open_status, find_incident, put_incident,
}

-- The open incidents of a group, counted.
abbrev pub open_count : String → String → List Incident → ℕ
unfolding is_open_in
open_count tenant key is = count (is_open_in tenant key) is

-- A date of resolution stands exactly where the incident is not open.
abbrev pub is_dated : Incident → Bool
unfolding is_open_status
is_dated i = if is_open_status i.status then not (is_some i.resolved_at) else is_some i.resolved_at

pub record IsSound (b : Board) : Type 0 where
  pub exclusive : (tenant key : String) → open_count tenant key b.incidents ≤ 1
  pub dated : (i : Incident) → Memᴰ i b.incidents → is_dated i ≡ true

put_here :
    (j k : Incident) (ks : List Incident) → (k.id == j.id) ≡ true → put_incident j (k ∷ ks) ≡ j ∷ ks
unfolding put_incident
put_here j k ks h = rw h refl

put_later :
    (j k : Incident) (ks : List Incident)
    → (k.id == j.id) ≡ false
    → put_incident j (k ∷ ks) ≡ k ∷ put_incident j ks
unfolding put_incident
put_later j k ks h = rw h refl

some_injective : (i j : Incident) → some i ≡ some j → i ≡ j
some_injective i j h = cc

-- What a write of the row changes in a count.
pub count-put_incident :
    (q : Incident → Bool) (id : ℕ) (i j : Incident) (is : List Incident)
    → find_incident id is ≡ some i
    → j.id ≡ id
    → count q (put_incident j is) + one_if (q i) ≡ count q is + one_if (q j)
unfolding find_incident put_incident
count-put_incident q id i j [] h e = cc
count-put_incident q id i j (k ∷ ks) h e = elim (Bool-cases (k.id == id)) [
  | inl n ↦
      let p : put_incident j (k ∷ ks) ≡ j ∷ ks = put_here j k ks (rw e n) in
      let same : k ≡ i = some_injective k i (rw n at h) in
      let a : one_if (q k) ≡ one_if (q i) = ap (λ (x : Incident). one_if (q x)) same in
      let c : count q (put_incident j (k ∷ ks)) ≡ count q (j ∷ ks) = ap (count q) p in
      omega (arith, a, c)
  | inr n ↦
      let ih = count-put_incident q id i j ks (rw n at h) e in
      let p : put_incident j (k ∷ ks) ≡ k ∷ put_incident j ks = put_later j k ks (rw e n) in
      let c : count q (put_incident j (k ∷ ks)) ≡ count q (k ∷ put_incident j ks) =
        ap (count q) p in
      omega (arith, ih, c)
]

pub put_incident-Mem :
    (j : Incident) (is : List Incident) (k : Incident)
    → Memᴰ k (put_incident j is)
    → (k ≡ j) ⊎ Memᴰ k is
unfolding put_incident
put_incident-Mem j [] k m = elim m [ ]
put_incident-Mem j (i ∷ is) k m = elim (Bool-cases (i.id == j.id)) [
  | inl n ↦ elim (subst (Memᴰ k) (put_here j i is n) m) [
    | Memᴰ.head e ↦ inl e
    | Memᴰ.tail t ↦ inr (Memᴰ.tail t)
  ]
  | inr n ↦ elim (subst (Memᴰ k) (put_later j i is n) m) [
    | Memᴰ.head e ↦ inr (Memᴰ.head e)
    | Memᴰ.tail t ↦ elim (put_incident-Mem j is k t) [ inl e ↦ inl e | inr u ↦ inr (Memᴰ.tail u) ]
  ]
]

pub find_incident-Mem :
    (id : ℕ) (is : List Incident) (i : Incident)
    → find_incident id is ≡ some i
    → Memᴰ i is × (i.id ≡ id)
unfolding find_incident
find_incident-Mem id [] i h = cc
find_incident-Mem id (k ∷ ks) i h = elim (Bool-cases (k.id == id)) [
  | inl n ↦
      let same : k ≡ i = some_injective k i (rw n at h) in
      (Memᴰ.head (sym same), ap (λ (x : Incident). x.id) (sym same) ∙ (==_iff k.id id).0 n)
  | inr n ↦ let (m, e) = find_incident-Mem id ks i (rw n at h) in (Memᴰ.tail m, e)
]

is_str-some : (o : Option String) (s : String) → is_str o s ≡ true → o ≡ some s
is_str-some none s h = cc
is_str-some (some u) s h = let e = (eq_iff u s).0 h in ap some e

-- A group that is not taken has no open incident.
pub free_group :
    (i : Incident) (is : List Incident)
    → is_taken i.tenant_id i.group_key is ≡ false
    → (tenant key : String) → (str_eq i.tenant_id tenant && is_str i.group_key key) ≡ true
    → open_count tenant key is ≡ 0
unfolding is_taken open_count
free_group i is g tenant key h =
    let u : i.tenant_id ≡ tenant = (eq_iff i.tenant_id tenant).0 (ground arith) in
    let v : i.group_key ≡ some key = is_str-some i.group_key key (ground arith) in
    let w : is_taken tenant (some key) is ≡ false =
      subst (λ x. is_taken tenant x is ≡ false) v
        (subst (λ x. is_taken x i.group_key is ≡ false) u g) in
    count-any (is_open_in tenant key) is w
