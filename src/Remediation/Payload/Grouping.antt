-- ===== src/Remediation/Payload/Grouping.antt =====
-- What an agent finds in the payload of an APPLY job.
use mathlib.Core.List.{append-nil, append_assoc, Permᴰ}
use lokilinux.Prelude.{
  keep-true, keep-false, ◌∙◌, sym, ap, ==_iff, arith, map, keep, ℕ, Bool, true, false, ◌≡◌, refl,
  List, [], ◌∷◌, ◌++◌, if◌then◌else◌, ◌==◌, All, inl, inr, Bool-cases,
}
use lokilinux.Remediation.Types.{Action, PlanEntry}
use lokilinux.Remediation.Payload.{
  insert_by, sort_by, ascending, entry_of, append_entry, group, build_actions_payload, entries_for,
}
use mathlib.Core.List.Permᴰ

-- Every element stands before those behind it.
abbrev pub IsSorted {ℓ} : {A : Type ℓ} → (A → A → Bool) → List A → Type 0
IsSorted before [] = Unit
IsSorted before (x ∷ xs) = All (λ y. before x y ≡ true) xs × IsSorted before xs

module _ {ℓ} {A : Type ℓ} (before : A → A → Bool)
    (trans : (x y z : A) → before x y ≡ true → before y z ≡ true → before x z ≡ true)
    (total : (x y : A) → before x y ≡ false → before y x ≡ true) where
  All-behind :
      (x y : A) (ys : List A)
      → before x y ≡ true
      → All (λ z. before y z ≡ true) ys
      → All (λ z. before x z ≡ true) ys
  All-behind x y [] h a = tt
  All-behind x y (z ∷ zs) h (b, a) = (trans x y z h b, All-behind x y zs h a)

  insert_by-All :
      (x a : A) (ys : List A)
      → before x a ≡ true
      → All (λ z. before x z ≡ true) ys
      → All (λ z. before x z ≡ true) (insert_by before a ys)
  unfolding insert_by
  insert_by-All x a [] h b = (h, tt)
  insert_by-All x a (y ∷ ys) h (c, b) = elim (Bool-cases (before a y)) [
    | inl t ↦ rw t (h, (c, b))
    | inr f ↦ rw f (c, insert_by-All x a ys h b)
  ]

  insert_by-IsSorted :
      (a : A) (ys : List A) → IsSorted before ys → IsSorted before (insert_by before a ys)
  unfolding insert_by
  insert_by-IsSorted a [] s = (tt, tt)
  insert_by-IsSorted a (y ∷ ys) (b, s) = elim (Bool-cases (before a y)) [
    | inl t ↦ rw t ((t, All-behind a y ys t b), (b, s))
    | inr f ↦ rw f (insert_by-All y a ys (total a y f) b, insert_by-IsSorted a ys s)
  ]

  pub sort_by-IsSorted : (xs : List A) → IsSorted before (sort_by before xs)
  unfolding sort_by
  sort_by-IsSorted [] = tt
  sort_by-IsSorted (x ∷ xs) = insert_by-IsSorted x (sort_by before xs) (sort_by-IsSorted xs)

abbrev pub on_agent : ℕ → Action → Bool
on_agent a x = x.agent_id == a

-- One more entry, for its agent and for the others.
pub entries_for-append_entry :
    (a b : ℕ) (e : PlanEntry) (m : List (ℕ × List PlanEntry))
    → entries_for a (append_entry b e m)
      ≡ (if b == a then entries_for a m ++ (e ∷ []) else entries_for a m)
unfolding entries_for append_entry
entries_for-append_entry a b e [] = elim (Bool-cases (b == a)) [
  | inl h ↦ rw h refl
  | inr h ↦ rw h refl
]
entries_for-append_entry a b e ((c, es) ∷ m) =
    let ih = entries_for-append_entry a b e m in
    elim (Bool-cases (c == b)) [
      | inl h ↦
          let k : (c == a) ≡ (b == a) = ap (λ n. n == a) ((==_iff c b).0 h) in
          elim (Bool-cases (b == a)) [
            | inl g ↦ simp (h, k, g, entries_for) refl
            | inr g ↦ simp (h, k, g, entries_for) refl
          ]
      | inr h ↦ elim (Bool-cases (c == a)) [
        | inl g ↦
            let n : (b == a) ≡ false = ground (arith, ==_iff c a, ==_iff c b, ==_iff b a) in
            simp (h, g, n, entries_for) refl
        | inr g ↦ simp (h, g, ih, entries_for) refl
      ]
    ]

group_lem :
    (a : ℕ) (xs : List Action) (m : List (ℕ × List PlanEntry))
    → entries_for a (group xs m) ≡ entries_for a m ++ map entry_of (keep (on_agent a) xs)
unfolding group
group_lem a [] m = sym (append-nil (entries_for a m))
group_lem a (x ∷ xs) m =
    let ih = group_lem a xs (append_entry x.agent_id (entry_of x) m) in
    let s = entries_for-append_entry a x.agent_id (entry_of x) m in
    let front : List PlanEntry → List PlanEntry = λ es. es ++ map entry_of (keep (on_agent a) xs) in
    let behind : List Action → List PlanEntry = λ ys. entries_for a m ++ map entry_of ys in
    elim (Bool-cases (x.agent_id == a)) [
      | inl h ↦
          ih
          ∙ ap front (s ∙ rw h refl)
          ∙ append_assoc (entries_for a m) (entry_of x ∷ []) (map entry_of (keep (on_agent a) xs))
          ∙ ap behind (sym (keep-true (on_agent a) x xs h))
      | inr h ↦ ih ∙ ap front (s ∙ rw h refl) ∙ ap behind (sym (keep-false (on_agent a) x xs h))
    ]

insert_by-Perm :
    {A : Type 0} (before : A → A → Bool) (a : A) (xs : List A)
    → Permᴰ (insert_by before a xs) (a ∷ xs)
unfolding insert_by
insert_by-Perm before a [] = Permᴰ.refl (a ∷ [])
insert_by-Perm before a (x ∷ xs) = elim (Bool-cases (before a x)) [
  | inl h ↦ rw h (Permᴰ.refl (a ∷ x ∷ xs))
  | inr h ↦ rw h (Permᴰ.trans (Permᴰ.cons refl (insert_by-Perm before a xs)) (Permᴰ.swap refl refl))
]

pub sort_by-Perm : {A : Type 0} (before : A → A → Bool) (xs : List A) → Permᴰ (sort_by before xs) xs
unfolding sort_by
sort_by-Perm before [] = Permᴰ.nil
sort_by-Perm before (x ∷ xs) =
    Permᴰ.trans (insert_by-Perm before x (sort_by before xs))
      (Permᴰ.cons refl (sort_by-Perm before xs))

-- `entries` are what the agent does for `actions`, in an order by sequence.
pub record IsPlanned (a : ℕ) (actions : List Action) (entries : List PlanEntry) : Type 0 where
  pub order : List Action
  pub same : Permᴰ order actions
  pub ascends : IsSorted ascending order
  pub mine : entries ≡ map entry_of (keep (on_agent a) order)

-- What build_actions_payload gives an agent are the entries of its own actions, each once, and in
-- ascending order of their sequence.
pub build_actions_payload-IsPlanned :
    (a : ℕ) (actions : List Action)
    → IsPlanned a actions (entries_for a (build_actions_payload actions))
unfolding build_actions_payload entries_for
build_actions_payload-IsPlanned a actions = record {
  order = sort_by ascending actions;
  same = sort_by-Perm ascending actions;
  ascends = sort_by-IsSorted ascending (λ x y z h k. ground arith) (λ x y h. ground arith) actions;
  mine = group_lem a (sort_by ascending actions) [];
}
