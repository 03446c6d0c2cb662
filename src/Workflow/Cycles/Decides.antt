-- ===== src/Workflow/Cycles/Decides.antt =====
-- The cycle search decides whether a well-formed document has a cycle.
use lokilinux.Workflow.Compiler.{Spec, structure_issues, step_ids}
use lokilinux.Workflow.Compiler.Structure.{IsWellFormed, structure_issues-IsWellFormed}
use lokilinux.Workflow.Cycles.{
  find_cycle, white, gray, black, Colors, color, Search, found, clear, exhausted, adjacent, dfs,
  follow, search, Spec,
}
use lokilinux.Prelude.{
  length, ℕ, ◌≤◌, String, true, ◌≡◌, ◌≢◌, refl, sym, subst, List, [], ◌∷◌, Memᴰ, arith, eq_iff,
  str_eq, mem_str, keep, Bool-cases, inl, inr,
}
use lokilinux.Workflow.Cycles.Steps.{
  whites_all, Ordered-acyclic, more, Reach, whites, whites_fewer, one,
}
use lokilinux.Workflow.Types.{Edge}
use lokilinux.Workflow.Cycles.Rounds.{
  Color-cases, Order, Clears, Visited, AllBlack, CanVisit, Clears-refl, Clears-trans,
}
use lokilinux.Workflow.Cycles.Depth.{dfs-Visited}

-- What the outer loop over `xs` may give.
abbrev Searched : (String → List String) → List String → Colors → Search → Type 0
Searched next xs c (found s) = Reach next s s
Searched next xs c exhausted = ⊥
Searched next xs c (clear c') = Clears next c c' × AllBlack xs c'

module _ (next : String → List String) (ids : List String)
    (closed : (x t : String) → Memᴰ x ids → Memᴰ t (next x) → Memᴰ t ids) (n : ℕ) where
  -- Between two rounds no step is gray, and the fuel is enough.
  record CanSearch (xs : List String) (c : Colors) : Type 0 where
    pub are_steps : (x : String) → Memᴰ x xs → Memᴰ x ids
    pub no_gray : (x : String) → color x c ≢ gray
    pub fuel : whites ids c ≤ n

  CanSearch-tail :
      (x : String) (xs : List String) (c c' : Colors)
      → CanSearch (x ∷ xs) c
      → Clears next c c'
      → CanSearch xs c'
  CanSearch-tail x xs c c' p k = record {
    are_steps = λ y m. p.are_steps y (Memᴰ.tail m);
    no_gray = λ y h. p.no_gray y (k.gray_was y h);
    fuel = omega (arith, p.fuel, whites_fewer ids c c' k.white_was);
  }

  CanSearch-head :
      (x : String) (xs : List String) (c : Colors)
      → CanSearch (x ∷ xs) c
      → color x c ≡ white
      → CanVisit next ids n x c
  CanSearch-head x xs c p w = record {
    is_step = p.are_steps x (Memᴰ.head refl);
    unseen = w;
    fuel = p.fuel;
    led_to = λ y h. absurd (p.no_gray y h);
  }

  Searched-cons :
      (x : String) (xs : List String) (c c' : Colors) (s : Search)
      → Clears next c c'
      → color x c' ≡ black
      → Searched next xs c' s
      → Searched next (x ∷ xs) c s
  Searched-cons x xs c c' (found s) k b r = r
  Searched-cons x xs c c' exhausted k b r = r
  Searched-cons x xs c c' (clear c'') k b (r, all_black) = (Clears-trans next c c' c'' k r, each)
    where
      each : (y : String) → Memᴰ y (x ∷ xs) → color y c'' ≡ black
      each y (Memᴰ.head e) = subst (λ z. color z c'' ≡ black) (sym e) (r.black_stays x b)
      each y (Memᴰ.tail m) = all_black y m

  after_visit :
      (x : String) (xs : List String) (c : Colors) (s : Search)
      → Visited next x c s
      → ((c' : Colors) → Clears next c c' → Searched next xs c' (search next n xs c'))
      → Searched next (x ∷ xs) c (follow s (λ c'. search next n xs c'))
  after_visit x xs c (found s) v rest = v
  after_visit x xs c exhausted v rest = v
  after_visit x xs c (clear c') (k, b) rest =
      Searched-cons x xs c c' (search next n xs c') k b (rest c' k)

  search_white :
      (x : String) (xs : List String) (c : Colors)
      → color x c ≡ white
      → search next n (x ∷ xs) c ≡ follow (dfs next n x c) (λ c'. search next n xs c')
  unfolding search
  search_white x xs c w = rw (w, search) refl

  search_black :
      (x : String) (xs : List String) (c : Colors)
      → color x c ≡ black
      → search next n (x ∷ xs) c ≡ search next n xs c
  unfolding search
  search_black x xs c b = rw (b, search) refl

  search_nil : (c : Colors) → search next n [] c ≡ clear c
  unfolding search
  search_nil c = refl

  search-Searched :
      (xs : List String) (c : Colors) → CanSearch xs c → Searched next xs c (search next n xs c)
  search-Searched [] c p =
      subst (Searched next [] c) (sym (search_nil c)) (Clears-refl next c, λ t m. elim m [ ])
  search-Searched (x ∷ xs) c p = elim (Color-cases (color x c)) [
    | inl w ↦ subst (Searched next (x ∷ xs) c) (sym (search_white x xs c w)) (
        after_visit x xs c (dfs next n x c)
          (dfs-Visited next ids closed n x c (CanSearch-head x xs c p w))
          (λ c' k. search-Searched xs c' (CanSearch-tail x xs c c' p k)))
    | inr (inl g) ↦ absurd (p.no_gray x g)
    | inr (inr b) ↦ subst (Searched next (x ∷ xs) c) (sym (search_black x xs c b)) (
        Searched-cons x xs c c (search next n xs c) (Clears-refl next c) b
          (search-Searched xs c (CanSearch-tail x xs c c p (Clears-refl next c))))
  ]

-- Nothing is black at first.
first_Order : (next : String → List String) → Order next []
unfolding color
first_Order next = record {
  steps = [];
  ordered = tt;
  black_in = λ x h. cc h;
  in_black = λ x m. elim m [ ];
}

mem_str-Mem : (x : String) (xs : List String) → mem_str x xs ≡ true → Memᴰ x xs
mem_str-Mem x [] h = cc
mem_str-Mem x (y ∷ ys) h = elim (Bool-cases (str_eq y x)) [
  | inl e ↦ Memᴰ.head (sym ((eq_iff y x).0 e))
  | inr e ↦ Memᴰ.tail (mem_str-Mem x ys (ground arith))
]

adjacent-Mem :
    (es : List Edge) (a t : String)
    → Memᴰ t (adjacent es a)
    → (e : Edge) × Memᴰ e es × (e.source ≡ a) × (e.target ≡ t)
unfolding adjacent
adjacent-Mem [] a t m = elim m [ ]
adjacent-Mem (x ∷ es) a t m = elim (Bool-cases (str_eq x.source a)) [
  | inr k ↦
      let (e, there, f, g) = adjacent-Mem es a t (rw (k, keep) at m) in (e, Memᴰ.tail there, f, g)
  | inl k ↦ here k (λ j. adjacent-Mem es a t j) (rw (k, keep) at m)
]
  where
    here :
        str_eq x.source a ≡ true
        → (Memᴰ t (adjacent es a) → (e : Edge) × Memᴰ e es × (e.source ≡ a) × (e.target ≡ t))
        → Memᴰ t (x.target ∷ adjacent es a)
        → (e : Edge) × Memᴰ e (x ∷ es) × (e.source ≡ a) × (e.target ≡ t)
    here k ih (Memᴰ.head e) = (x, Memᴰ.head refl, (eq_iff x.source a).0 k, sym e)
    here k ih (Memᴰ.tail j) = let (e, there, f, g) = ih j in (e, Memᴰ.tail there, f, g)

-- The answer of the search, as a claim about the edges.
abbrev pub Decision : Spec → Search → Type 0
Decision spec (found s) = Reach (adjacent spec.edges) s s
Decision spec exhausted = ⊥
Decision spec (clear c) = (a : String) → Reach (adjacent spec.edges) a a → ⊥

module _ (spec : Spec) (w : IsWellFormed spec) where
  abbrev ids : List String
  ids = step_ids spec.steps

  abbrev next : String → List String
  next = adjacent spec.edges

  target_is_step : (a t : String) → Memᴰ t (next a) → Memᴰ t ids
  target_is_step a t m =
      let (e, there, f, g) = adjacent-Mem spec.edges a t m in
      subst (λ y. Memᴰ y ids) g (mem_str-Mem e.target ids (w.joined e there).1)

  source_is_step : (a t : String) → Memᴰ t (next a) → Memᴰ a ids
  source_is_step a t m =
      let (e, there, f, g) = adjacent-Mem spec.edges a t m in
      subst (λ y. Memᴰ y ids) f (mem_str-Mem e.source ids (w.joined e there).0)

  start_is_step : {a b : String} → Reach next a b → Memᴰ a ids
  start_is_step {a} {b} (one m) = source_is_step a b m
  start_is_step {a} (more {b = t} m r) = source_is_step a t m

  nothing_gray : (x : String) → color x [] ≢ gray
  unfolding color
  nothing_gray x h = cc h

  decided : (s : Search) → Searched next ids [] s → Decision spec s
  decided (found s) r = r
  decided exhausted r = r
  decided (clear c) (k, all_black) = λ a r.
      let o = k.order (first_Order next) in
      Ordered-acyclic next o.steps o.ordered a (o.black_in a (all_black a (start_is_step r))) r

  searched : Searched next ids [] (find_cycle spec)
  unfolding find_cycle
  searched =
      search-Searched next ids (λ x t m k. target_is_step x t k) (length ids) ids []
        (record { are_steps = λ x m. m; no_gray = nothing_gray; fuel = whites_all ids [] })

-- Where the first checks find nothing, the cycle search has fuel enough; the step that it names is
-- on a cycle of the edges, and where it names none there is no cycle.
pub find_cycle-Decision :
    (spec : Spec) → structure_issues spec ≡ [] → Decision spec (find_cycle spec)
find_cycle-Decision spec h =
    let w : IsWellFormed spec = (structure_issues-IsWellFormed spec).0 h in
    decided spec w (find_cycle spec) (searched spec w)
