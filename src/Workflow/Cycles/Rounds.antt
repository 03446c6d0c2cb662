-- ===== src/Workflow/Cycles/Rounds.antt =====
-- One call of `_dfs`: it does not run out of fuel, what it finds is on a cycle, and otherwise the
-- step and all that it leads to are black, in an order of their own.
use lokilinux.Workflow.Cycles.{
  follow, Color, white, gray, black, Colors, color, Search, found, clear, exhausted, scan,
}
use lokilinux.Workflow.Cycles.Steps.{
  whites_less, color_self, color_other, Reach, one, Reach-end, Ordered, whites, whites_fewer,
}
use lokilinux.Prelude.{
  str_eq, suc, ◌<◌, ◌∙◌, eq_iff, Bool-cases, ℕ, ◌≤◌, String, ◌≡◌, ◌≢◌, ◌⊎◌, refl, sym, subst, List,
  [], ◌∷◌, Memᴰ, arith, inl, inr,
}

pub Color-cases : (k : Color) → (k ≡ white) ⊎ (k ≡ gray) ⊎ (k ≡ black)
Color-cases white = inl refl
Color-cases gray = inr (inl refl)
Color-cases black = inr (inr refl)

pub str-cases : (a b : String) → (a ≡ b) ⊎ (a ≢ b)
str-cases a b = elim (Bool-cases (str_eq a b)) [
  | inl e ↦ inl ((eq_iff a b).0 e)
  | inr e ↦ inr (λ k. ground (arith, e, (eq_iff a b).1 k))
]

-- The black steps in an order of the steps that they lead to.
pub record Order (next : String → List String) (c : Colors) : Type 0 where
  pub steps : List String
  pub ordered : Ordered next steps
  pub black_in : (x : String) → color x c ≡ black → Memᴰ x steps
  pub in_black : (x : String) → Memᴰ x steps → color x c ≡ black

-- What a search that finds nothing does to the colours.
pub record Clears (next : String → List String) (c c' : Colors) : Type 0 where
  pub gray_stays : (x : String) → color x c ≡ gray → color x c' ≡ gray
  pub gray_was : (x : String) → color x c' ≡ gray → color x c ≡ gray
  pub black_stays : (x : String) → color x c ≡ black → color x c' ≡ black
  pub white_was : (x : String) → color x c' ≡ white → color x c ≡ white
  pub order : Order next c → Order next c'

pub Clears-refl : (next : String → List String) (c : Colors) → Clears next c c
Clears-refl next c = record {
  gray_stays = λ x h. h;
  gray_was = λ x h. h;
  black_stays = λ x h. h;
  white_was = λ x h. h;
  order = λ o. o;
}

pub Clears-trans :
    (next : String → List String) (a b c : Colors)
    → Clears next a b
    → Clears next b c
    → Clears next a c
Clears-trans next a b c p q = record {
  gray_stays = λ x h. q.gray_stays x (p.gray_stays x h);
  gray_was = λ x h. p.gray_was x (q.gray_was x h);
  black_stays = λ x h. q.black_stays x (p.black_stays x h);
  white_was = λ x h. p.white_was x (q.white_was x h);
  order = λ o. q.order (p.order o);
}

-- What a call of `_dfs` for the white step `id` may give.
abbrev pub Visited : (String → List String) → String → Colors → Search → Type 0
Visited next id c (found s) = Reach next s s
Visited next id c exhausted = ⊥
Visited next id c (clear c') = Clears next c c' × (color id c' ≡ black)

abbrev pub AllBlack : List String → Colors → Type 0
AllBlack ts c = (t : String) → Memᴰ t ts → color t c ≡ black

-- What the loop over the targets `ts` may give.
abbrev pub Scanned : (String → List String) → List String → Colors → Search → Type 0
Scanned next ts c (found s) = Reach next s s
Scanned next ts c exhausted = ⊥
Scanned next ts c (clear c') = Clears next c c' × AllBlack ts c'

module _ (next : String → List String) (ids : List String) where
  -- A call with fuel `n`, for a white step that every gray one leads to.
  pub record CanVisit (n : ℕ) (id : String) (c : Colors) : Type 0 where
    pub is_step : Memᴰ id ids
    pub unseen : color id c ≡ white
    pub fuel : whites ids c ≤ n
    pub led_to : (x : String) → color x c ≡ gray → Reach next x id

  -- The loop at the step `id` with fuel `n` for each call.
  pub record CanScan (n : ℕ) (id : String) (ts : List String) (c : Colors) : Type 0 where
    pub targets : (t : String) → Memᴰ t ts → Memᴰ t (next id) × Memᴰ t ids
    pub fuel : whites ids c ≤ n
    pub led_to : (x : String) → color x c ≡ gray → (x ≡ id) ⊎ Reach next x id

  module _ (n : ℕ) (id : String) (visit : String → Colors → Search)
      (ih : (t : String) (c : Colors) → CanVisit n t c → Visited next t c (visit t c)) where
    led_on : (x t : String) → (x ≡ id) ⊎ Reach next x id → Memᴰ t (next id) → Reach next x t
    led_on x t (inl e) m = subst (λ y. Reach next y t) (sym e) (one m)
    led_on x t (inr r) m = Reach-end next r m

    CanScan-tail :
        (t : String) (ts : List String) (c c' : Colors)
        → CanScan n id (t ∷ ts) c
        → Clears next c c'
        → CanScan n id ts c'
    CanScan-tail t ts c c' p k = record {
      targets = λ x m. p.targets x (Memᴰ.tail m);
      fuel = omega (arith, p.fuel, whites_fewer ids c c' k.white_was);
      led_to = λ x h. p.led_to x (k.gray_was x h);
    }

    CanScan-head :
        (t : String) (ts : List String) (c : Colors)
        → CanScan n id (t ∷ ts) c
        → color t c ≡ white
        → CanVisit n t c
    CanScan-head t ts c p w = record {
      is_step = (p.targets t (Memᴰ.head refl)).1;
      unseen = w;
      fuel = p.fuel;
      led_to = λ x h. led_on x t (p.led_to x h) (p.targets t (Memᴰ.head refl)).0;
    }

    -- A target that is black, and what the rest of the loop gives.
    Scanned-cons :
        (t : String) (ts : List String) (c c' : Colors) (s : Search)
        → Clears next c c'
        → color t c' ≡ black
        → Scanned next ts c' s
        → Scanned next (t ∷ ts) c s
    Scanned-cons t ts c c' (found s) k b r = r
    Scanned-cons t ts c c' exhausted k b r = r
    Scanned-cons t ts c c' (clear c'') k b (r, all_black) = (Clears-trans next c c' c'' k r, each)
      where
        each : (x : String) → Memᴰ x (t ∷ ts) → color x c'' ≡ black
        each x (Memᴰ.head e) = subst (λ y. color y c'' ≡ black) (sym e) (r.black_stays t b)
        each x (Memᴰ.tail m) = all_black x m

    after_visit :
        (t : String) (ts : List String) (c : Colors) (s : Search)
        → Visited next t c s
        → ((c' : Colors) → Clears next c c' → Scanned next ts c' (scan visit ts c'))
        → Scanned next (t ∷ ts) c (follow s (λ c'. scan visit ts c'))
    after_visit t ts c (found s) v rest = v
    after_visit t ts c exhausted v rest = v
    after_visit t ts c (clear c') (k, b) rest =
        Scanned-cons t ts c c' (scan visit ts c') k b (rest c' k)

    scan_white :
        (t : String) (ts : List String) (c : Colors)
        → color t c ≡ white
        → scan visit (t ∷ ts) c ≡ follow (visit t c) (λ c'. scan visit ts c')
    unfolding scan
    scan_white t ts c w = rw (w, scan) refl

    scan_gray :
        (t : String) (ts : List String) (c : Colors)
        → color t c ≡ gray
        → scan visit (t ∷ ts) c ≡ found t
    unfolding scan
    scan_gray t ts c g = rw (g, scan) refl

    scan_black :
        (t : String) (ts : List String) (c : Colors)
        → color t c ≡ black
        → scan visit (t ∷ ts) c ≡ scan visit ts c
    unfolding scan
    scan_black t ts c b = rw (b, scan) refl

    scan_nil : (c : Colors) → scan visit [] c ≡ clear c
    unfolding scan
    scan_nil c = refl

    pub scan-Scanned :
        (ts : List String) (c : Colors) → CanScan n id ts c → Scanned next ts c (scan visit ts c)
    scan-Scanned [] c p =
        subst (Scanned next [] c) (sym (scan_nil c)) (Clears-refl next c, λ t m. elim m [ ])
    scan-Scanned (t ∷ ts) c p = elim (Color-cases (color t c)) [
      | inl w ↦ subst (Scanned next (t ∷ ts) c) (sym (scan_white t ts c w)) (
          after_visit t ts c (visit t c) (ih t c (CanScan-head t ts c p w))
            (λ c' k. scan-Scanned ts c' (CanScan-tail t ts c c' p k)))
      | inr (inl g) ↦
          subst (Scanned next (t ∷ ts) c) (sym (scan_gray t ts c g))
            (led_on t t (p.led_to t g) (p.targets t (Memᴰ.head refl)).0)
      | inr (inr b) ↦ subst (Scanned next (t ∷ ts) c) (sym (scan_black t ts c b)) (
          Scanned-cons t ts c c (scan visit ts c) (Clears-refl next c) b
            (scan-Scanned ts c (CanScan-tail t ts c c p (Clears-refl next c))))
    ]

  module _ (closed : (x t : String) → Memᴰ x ids → Memᴰ t (next x) → Memᴰ t ids) where
    pub CanVisit-scan :
        (n : ℕ) (id : String) (c : Colors)
        → CanVisit (suc n) id c
        → CanScan n id (next id) ((id, gray) ∷ c)
    CanVisit-scan n id c p = record {
      targets = λ t m. (m, closed id t p.is_step m);
      fuel = omega (arith, p.fuel, fewer);
      led_to = led;
    }
      where
        was_white : (x : String) → color x ((id, gray) ∷ c) ≡ white → color x c ≡ white
        was_white x h = elim (str-cases id x) [
          | inl e ↦ subst (λ y. color y c ≡ white) e p.unseen
          | inr ne ↦ sym (color_other id x gray c ne) ∙ h
        ]

        fewer : whites ids ((id, gray) ∷ c) < whites ids c
        fewer =
            whites_less ids c ((id, gray) ∷ c) id was_white p.unseen
              (λ h. cc (color_self id gray c, h)) p.is_step

        led : (x : String) → color x ((id, gray) ∷ c) ≡ gray → (x ≡ id) ⊎ Reach next x id
        led x h = elim (str-cases id x) [
          | inl e ↦ inl (sym e)
          | inr ne ↦ inr (p.led_to x (sym (color_other id x gray c ne) ∙ h))
        ]
