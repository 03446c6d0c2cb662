-- ===== src/Workflow/Cycles/Depth.antt =====
-- `_dfs` itself, with fuel for the white steps.
use lokilinux.Prelude.{
  ℕ, zero, suc, ◌≤◌, String, ◌≡◌, sym, subst, ◌∙◌, List, ◌∷◌, Memᴰ, arith, inl, inr,
}
use lokilinux.Workflow.Cycles.{
  white, gray, black, Colors, color, Search, found, clear, exhausted, scan, dfs, follow,
}
use lokilinux.Workflow.Cycles.Steps.{color_self, color_other, whites, whites_less}
use lokilinux.Workflow.Cycles.Rounds.{
  str-cases, Order, Clears, Visited, Scanned, AllBlack, CanVisit, CanVisit-scan, scan-Scanned,
}

module _ (next : String → List String) (id : String) (c c' : Colors) (unseen : color id c ≡ white)
    (k : Clears next ((id, gray) ∷ c) c') (targets : AllBlack (next id) c') where
  -- The step itself is gray behind the loop.
  still_gray : color id c' ≡ gray
  still_gray = k.gray_stays id (color_self id gray c)

  abbrev ended : Colors
  ended = (id, black) ∷ c'

  was_gray : (x : String) → color x ended ≡ gray → color x c ≡ gray
  was_gray x h = elim (str-cases id x) [
    | inl e ↦ cc (subst (λ y. color y ended ≡ gray) (sym e) h, color_self id black c')
    | inr n ↦ sym (color_other id x gray c n) ∙ k.gray_was x (sym (color_other id x black c' n) ∙ h)
  ]

  stays_gray : (x : String) → color x c ≡ gray → color x ended ≡ gray
  stays_gray x h = elim (str-cases id x) [
    | inl e ↦ cc (subst (λ y. color y c ≡ gray) (sym e) h, unseen)
    | inr n ↦ color_other id x black c' n ∙ k.gray_stays x (color_other id x gray c n ∙ h)
  ]

  stays_black : (x : String) → color x c ≡ black → color x ended ≡ black
  stays_black x h = elim (str-cases id x) [
    | inl e ↦ subst (λ y. color y ended ≡ black) e (color_self id black c')
    | inr n ↦ color_other id x black c' n ∙ k.black_stays x (color_other id x gray c n ∙ h)
  ]

  was_white : (x : String) → color x ended ≡ white → color x c ≡ white
  was_white x h = elim (str-cases id x) [
    | inl e ↦ subst (λ y. color y c ≡ white) e unseen
    | inr n ↦
        sym (color_other id x gray c n) ∙ k.white_was x (sym (color_other id x black c' n) ∙ h)
  ]

  -- Turning the step gray leaves the order as it is.
  gray-Order : Order next c → Order next ((id, gray) ∷ c)
  gray-Order o = record {
    steps = o.steps;
    ordered = o.ordered;
    black_in = λ x h. elim (str-cases id x) [
      | inl e ↦ cc (subst (λ y. color y ((id, gray) ∷ c) ≡ black) (sym e) h, color_self id gray c)
      | inr n ↦ o.black_in x (sym (color_other id x gray c n) ∙ h)
    ];
    in_black = λ x m. elim (str-cases id x) [
      | inl e ↦ cc (subst (λ y. color y c ≡ black) (sym e) (o.in_black x m), unseen)
      | inr n ↦ color_other id x gray c n ∙ o.in_black x m
    ];
  }

  -- Turning it black puts it in front.
  black-Order : Order next c' → Order next ended
  black-Order o = record {
    steps = id ∷ o.steps;
    ordered =
        ((λ t m. o.black_in t (targets t m)), (λ m. cc (o.in_black id m, still_gray)), o.ordered);
    black_in = λ x h. elim (str-cases id x) [
      | inl e ↦ Memᴰ.head (sym e)
      | inr n ↦ Memᴰ.tail (o.black_in x (sym (color_other id x black c' n) ∙ h))
    ];
    in_black = in_ended;
  }
    where
      in_ended : (x : String) → Memᴰ x (id ∷ o.steps) → color x ended ≡ black
      in_ended x (Memᴰ.head e) = subst (λ y. color y ended ≡ black) (sym e) (color_self id black c')
      in_ended x (Memᴰ.tail m) = elim (str-cases id x) [
        | inl e ↦ subst (λ y. color y ended ≡ black) e (color_self id black c')
        | inr n ↦ color_other id x black c' n ∙ o.in_black x m
      ]

  ended-Clears : Clears next c ended
  ended-Clears = record {
    gray_stays = stays_gray;
    gray_was = was_gray;
    black_stays = stays_black;
    white_was = was_white;
    order = λ o. black-Order (k.order (gray-Order o));
  }

module _ (next : String → List String) (ids : List String)
    (closed : (x t : String) → Memᴰ x ids → Memᴰ t (next x) → Memᴰ t ids) where
  blackened :
      (id : String) (c : Colors) (s : Search)
      → color id c ≡ white
      → Scanned next (next id) ((id, gray) ∷ c) s
      → Visited next id c (follow s (λ c'. clear ((id, black) ∷ c')))
  blackened id c (found s) w r = r
  blackened id c exhausted w r = r
  blackened id c (clear c') w (k, targets) =
      (ended-Clears next id c c' w k targets, color_self id black c')

  no_whites :
      (xs : List String) (c : Colors) (id : String)
      → Memᴰ id xs
      → color id c ≡ white
      → whites xs c ≤ 0
      → ⊥
  no_whites xs c id m w z =
      let h =
        whites_less xs c ((id, gray) ∷ c) id
          (λ x e. elim (str-cases id x) [
            | inl f ↦ subst (λ y. color y c ≡ white) f w
            | inr n ↦ sym (color_other id x gray c n) ∙ e
          ])
          w (λ e. cc (color_self id gray c, e)) m in
      omega (arith, h, z)

  pub dfs-Visited :
      (n : ℕ) (id : String) (c : Colors)
      → CanVisit next ids n id c
      → Visited next id c (dfs next n id c)
  unfolding dfs
  dfs-Visited zero id c p = absurd (no_whites ids c id p.is_step p.unseen p.fuel)
  dfs-Visited (suc n) id c p =
      blackened id c (scan (dfs next n) (next id) ((id, gray) ∷ c)) p.unseen (
        scan-Scanned next ids n id (dfs next n) (λ t c'. dfs-Visited n t c') (next id)
          ((id, gray) ∷ c) (CanVisit-scan next ids closed n id c p))
