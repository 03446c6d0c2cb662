-- ===== src/Prelude/Lists.antt =====
-- Lists measured by native numbers, the Boolean quantifiers, and predicates by recursion.
use mathlib.Core.Path.{subst, sym, ◌≡◌, refl}
use lokilinux.Prelude.Tests.{if◌then◌else◌, Bool-cases}
use mathlib.Core.Bool.{false, Bool, true, ◌&&◌, ◌||◌}
use Prim.Native.Nat.{ℕ, suc, ◌+◌}
use Prim.Native.String.{String}
use mathlib.Core.List.{List, [], ◌∷◌, ◌++◌, Memᴰ}
use native.Mathlib.Omega.{arith}
use mathlib.Core.Logic.{inl, inr, ◌⊎◌}
use text.Mathlib.Text.{◌==◌ as str_eq}

module _ {ℓ} {A : Type ℓ} where
  abbrev pub length : List A → ℕ
  length [] = 0
  length (x ∷ xs) = suc (length xs)

  -- Python's `any(p(x) for x in xs)` and `all(p(x) for x in xs)`
  abbrev pub any : (A → Bool) → List A → Bool
  any p [] = false
  any p (x ∷ xs) = p x || any p xs

  abbrev pub all : (A → Bool) → List A → Bool
  all p [] = true
  all p (x ∷ xs) = p x && all p xs

  -- `[x for x in xs if p(x)]`
  abbrev pub keep : (A → Bool) → List A → List A
  keep p [] = []
  keep p (x ∷ xs) = let rest = keep p xs in elim (p x) [ true ↦ x ∷ rest | false ↦ rest ]

  abbrev pub is_empty : List A → Bool
  is_empty [] = true
  is_empty (x ∷ xs) = false

  pub length-append : (xs ys : List A) → length (xs ++ ys) ≡ length xs + length ys
  length-append [] ys = omega arith
  length-append (x ∷ xs) ys = omega (arith, length-append xs ys)

  -- the index in source order, and a way to say "every element of xs"
  abbrev pub All {κ} : (A → Type κ) → List A → Type κ
  All P [] = Unit
  All P (x ∷ xs) = P x × All P xs

-- `s in xs` for texts
abbrev pub mem_str : String → List String → Bool
mem_str s [] = false
mem_str s (t ∷ ts) = str_eq t s || mem_str s ts

module _ {ℓ} {A : Type ℓ} where
  -- `any` fails on every member, or holds of one.
  pub any-false : (p : A → Bool) (xs : List A) (x : A) → any p xs ≡ false → Memᴰ x xs → p x ≡ false
  any-false p [] x h m = elim m [ ]
  any-false p (y ∷ ys) x h (Memᴰ.head e) = ground arith
  any-false p (y ∷ ys) x h (Memᴰ.tail m) = any-false p ys x (ground arith) m

  pub any-true : (p : A → Bool) (xs : List A) → any p xs ≡ true → (x : A) × Memᴰ x xs × (p x ≡ true)
  any-true p [] h = cc
  any-true p (y ∷ ys) h = elim (Bool-cases (p y)) [
    | inl here ↦ (y, Memᴰ.head refl, here)
    | inr later ↦ let (x, m, e) = any-true p ys (rw later at h) in (x, Memᴰ.tail m, e)
  ]

module _ {ℓ} {A : Type ℓ} (p : A → Bool) (x : A) (xs : List A) where
  pub keep-true : p x ≡ true → keep p (x ∷ xs) ≡ x ∷ keep p xs
  keep-true h = rw (h, keep) refl

  pub keep-false : p x ≡ false → keep p (x ∷ xs) ≡ keep p xs
  keep-false h = rw (h, keep) refl

abbrev pub one_if : Bool → ℕ
one_if b = if b then 1 else 0

module _ {ℓ} {A : Type ℓ} where
  -- `sum(1 for x in xs if p(x))`
  abbrev pub count : (A → Bool) → List A → ℕ
  count q [] = 0
  count q (y ∷ ys) = one_if (q y) + count q ys

  pub count-keep : (q : A → Bool) (xs : List A) → count q xs ≡ length (keep q xs)
  count-keep q [] = refl
  count-keep q (y ∷ ys) =
      let ih = count-keep q ys in
      elim (Bool-cases (q y)) [
        | inl h ↦ rw (h, keep) (omega (arith, ih))
        | inr h ↦ rw (h, keep) (omega (arith, ih))
      ]

  pub count-any : (q : A → Bool) (xs : List A) → any q xs ≡ false → count q xs ≡ 0
  count-any q [] h = refl
  count-any q (y ∷ ys) h = elim (Bool-cases (q y)) [
    | inl g ↦ cc (rw g at h)
    | inr g ↦ let ih = count-any q ys (rw g at h) in rw g (omega (arith, ih))
  ]

module _ {ℓ} {A : Type ℓ} where
  pub keep-Mem :
      (q : A → Bool) (x : A) (xs : List A) → Memᴰ x (keep q xs) → Memᴰ x xs × (q x ≡ true)
  keep-Mem q x [] m = elim m [ ]
  keep-Mem q x (y ∷ ys) m = elim (Bool-cases (q y)) [
    | inr h ↦
        let (n, e) = keep-Mem q x ys (subst (Memᴰ x) (keep-false q y ys h) m) in (Memᴰ.tail n, e)
    | inl h ↦ elim (subst (Memᴰ x) (keep-true q y ys h) m) [
      | Memᴰ.head e ↦ (Memᴰ.head e, subst (λ z. q z ≡ true) (sym e) h)
      | Memᴰ.tail n ↦ let (o, e) = keep-Mem q x ys n in (Memᴰ.tail o, e)
    ]
  ]

pub Mem-snoc {ℓ} :
    {A : Type ℓ} (xs : List A) (x y : A) → Memᴰ y (xs ++ x ∷ []) → Memᴰ y xs ⊎ (y ≡ x)
Mem-snoc [] x y (Memᴰ.head e) = inr e
Mem-snoc [] x y (Memᴰ.tail m) = elim m [ ]
Mem-snoc (z ∷ zs) x y (Memᴰ.head e) = inl (Memᴰ.head e)
Mem-snoc (z ∷ zs) x y (Memᴰ.tail m) = elim (Mem-snoc zs x y m) [
  | inl k ↦ inl (Memᴰ.tail k)
  | inr e ↦ inr e
]
