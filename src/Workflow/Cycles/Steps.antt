-- ===== src/Workflow/Cycles/Steps.antt =====
-- Ways along the edges, orders of steps, and how colours change.
use lokilinux.Prelude.{
  length, ℕ, ◌+◌, ◌≤◌, ◌<◌, String, Bool, true, false, ◌≡◌, ◌≢◌, subst, List, [], ◌∷◌, Memᴰ, arith,
  eq_iff, if◌then◌else◌,
}
use lokilinux.Workflow.Cycles.{Color, white, Colors, color}

module _ (next : String → List String) where
  -- A way of one edge or more.
  pub data Reach : String → String → Type 0 where
    one : {a b : String} → Memᴰ b (next a) → Reach a b
    more : {a b c : String} → Memᴰ b (next a) → Reach b c → Reach a c

  pub Reach-end : {a b c : String} → Reach a b → Memᴰ c (next b) → Reach a c
  Reach-end (one m) k = more m (one k)
  Reach-end (more m r) k = more m (Reach-end r k)

  -- Each step comes before those that lead to it, and once.
  abbrev pub Ordered : List String → Type 0
  Ordered [] = Unit
  Ordered (x ∷ xs) = ((t : String) → Memᴰ t (next x) → Memᴰ t xs) × (Memᴰ x xs → ⊥) × Ordered xs

  Ordered-next :
      (xs : List String) → Ordered xs → {a b : String} → Memᴰ a xs → Memᴰ b (next a) → Memᴰ b xs
  Ordered-next [] o m k = elim m [ ]
  Ordered-next (x ∷ xs) (to, once, o) {a} {b} (Memᴰ.head e) k =
      Memᴰ.tail (to b (subst (λ y. Memᴰ b (next y)) e k))
  Ordered-next (x ∷ xs) (to, once, o) (Memᴰ.tail m) k = Memᴰ.tail (Ordered-next xs o m k)

  Ordered-Reach :
      (xs : List String) → Ordered xs → {a b : String} → Reach a b → Memᴰ a xs → Memᴰ b xs
  Ordered-Reach xs o (one k) m = Ordered-next xs o m k
  Ordered-Reach xs o (more k r) m = Ordered-Reach xs o r (Ordered-next xs o m k)

  first_Reach :
      (x : String) (xs : List String)
      → ((t : String) → Memᴰ t (next x) → Memᴰ t xs)
      → Ordered xs
      → {b : String} → Reach x b
      → Memᴰ b xs
  first_Reach x xs to o {b} (one m) = to b m
  first_Reach x xs to o (more {b = t} m r) = Ordered-Reach xs o r (to t m)

  -- What is ordered is on no cycle.
  pub Ordered-acyclic : (xs : List String) → Ordered xs → (a : String) → Memᴰ a xs → Reach a a → ⊥
  Ordered-acyclic [] o a m r = elim m [ ]
  Ordered-acyclic (x ∷ xs) (to, once, o) a (Memᴰ.head e) r =
      once (first_Reach x xs to o (subst (λ y. Reach y y) e r))
  Ordered-acyclic (x ∷ xs) (to, once, o) a (Memᴰ.tail m) r = Ordered-acyclic xs o a m r

pub color_self : (id : String) (k : Color) (c : Colors) → color id ((id, k) ∷ c) ≡ k
unfolding color
color_self id k c = ground (arith, eq_iff id id)

pub color_other :
    (id x : String) (k : Color) (c : Colors) → id ≢ x → color x ((id, k) ∷ c) ≡ color x c
unfolding color
color_other id x k c n = ground (arith, eq_iff id x)

abbrev pub is_white : Color → Bool
is_white white = true
is_white _ = false

-- The white steps of a list.
unfoldable pub whites : List String → Colors → ℕ
whites [] c = 0
whites (x ∷ xs) c = if is_white (color x c) then 1 + whites xs c else whites xs c

pub whites_fewer :
    (xs : List String) (c c' : Colors)
    → ((x : String) → color x c' ≡ white → color x c ≡ white)
    → whites xs c' ≤ whites xs c
unfolding whites
whites_fewer [] c c' h = omega arith
whites_fewer (x ∷ xs) c c' h = ground (arith, whites_fewer xs c c' h, h x)

pub whites_less :
    (xs : List String) (c c' : Colors) (id : String)
    → ((x : String) → color x c' ≡ white → color x c ≡ white)
    → color id c ≡ white
    → (color id c' ≡ white → ⊥)
    → Memᴰ id xs
    → whites xs c' < whites xs c
unfolding whites
whites_less [] c c' id h w n m = elim m [ ]
whites_less (x ∷ xs) c c' id h w n (Memᴰ.head e) =
    let w' : color x c ≡ white = subst (λ y. color y c ≡ white) e w in
    let n' : color x c' ≡ white → ⊥ = subst (λ y. color y c' ≡ white → ⊥) e n in
    ground (arith, w', n', whites_fewer xs c c' h)
whites_less (x ∷ xs) c c' id h w n (Memᴰ.tail m) =
    ground (arith, whites_less xs c c' id h w n m, h x)

pub whites_all : (xs : List String) (c : Colors) → whites xs c ≤ length xs
unfolding whites
whites_all [] c = omega arith
whites_all (x ∷ xs) c = ground (arith, whites_all xs c)
