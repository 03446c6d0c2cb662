-- ===== src/Correlation/Suppression/Cyclic.antt =====
-- A suppression window is a stretch of the week, also across its end.
use lokilinux.Prelude.{
  ℕ, ◌+◌, ◌-◌, ◌%◌, ◌≤◌, ◌<◌, String, Bool, true, ◌≡◌, ◌↔◌, arith, inl, inr, sym, ap, ◌∙◌, subst,
  List, [], ◌∷◌, Memᴰ, any, any-true,
}
use lokilinux.Prelude.Int.{ℤ, pos}
use lokilinux.Python.{Value, ok, Result-cases}
use lokilinux.Correlation.Suppression.{covers, point_of, is_in_window, is_suppressed}

-- The minutes of a week.
abbrev pub week : ℕ
week = 10080

covers_iff :
    (s e n : ℕ)
    → s < week
    → e < week
    → n < week
    → (covers (pos s) (pos e) n ≡ true) ↔ ((n + week - s) % week ≤ (e + week - s) % week)
unfolding covers
covers_iff s e n hs he hn = ground arith

-- The point of the window under `key`, where it can be read, lies in the week.
pub record IsPoint (w : Value) (key : String) (z : ℤ) : Type 0 where
  pub minute : ℕ
  pub is_minute : z ≡ pos minute
  pub in_week : minute < week

-- Where the points of the window can be read, they lie in the week.
pub record IsRegular (w : Value) : Type 0 where
  pub starts : (z : ℤ) → point_of w "from" ≡ ok z → IsPoint w "from" z
  pub ends : (z : ℤ) → point_of w "to" ≡ ok z → IsPoint w "to" z

-- Going round the week from the start of the window, `now` comes no later than its end.
pub record IsCovered (now : ℕ) (w : Value) : Type 0 where
  pub start : ℕ
  pub end : ℕ
  pub from_start : point_of w "from" ≡ ok (pos start)
  pub to_end : point_of w "to" ≡ ok (pos end)
  pub inside : (now + week - start) % week ≤ (end + week - start) % week

in_window-IsCovered :
    (w : Value) (now : ℕ) → IsRegular w → now < week → is_in_window w now ≡ true → IsCovered now w
unfolding is_in_window
in_window-IsCovered w now r n h = elim (Result-cases (point_of w "from")) [
  | inr (e, f) ↦ cc (rw (f, is_in_window) at h)
  | inl (s, f) ↦ elim (Result-cases (point_of w "to")) [
    | inr (e, t) ↦ cc (rw (f, t, is_in_window) at h)
    | inl (e, t) ↦
        let p = r.starts s f in
        let q = r.ends e t in
        let c : covers s e now ≡ true = rw (f, t, is_in_window) at h in
        let d : covers (pos p.minute) (pos q.minute) now ≡ true =
          subst (λ x. covers (pos p.minute) x now ≡ true) q.is_minute
            (subst (λ x. covers x e now ≡ true) p.is_minute c) in
        record {
          start = p.minute;
          end = q.minute;
          from_start = f ∙ ap ok p.is_minute;
          to_end = t ∙ ap ok q.is_minute;
          inside = (covers_iff p.minute q.minute now p.in_week q.in_week n).0 d;
        }
  ]
]

pos_injective : (m n : ℕ) → pos m ≡ pos n → m ≡ n
pos_injective m n h = cc

in_week_lem : (w : Value) (key : String) (n : ℕ) → IsPoint w key (pos n) → n < week
in_week_lem w key n p = subst (λ m. m < week) (sym (pos_injective n p.minute p.is_minute)) p.in_week

covered-in_window :
    (w : Value) (now : ℕ) → IsRegular w → now < week → IsCovered now w → is_in_window w now ≡ true
unfolding is_in_window
covered-in_window w now r n c =
    let f = c.from_start in
    let t = c.to_end in
    let s : c.start < week = in_week_lem w "from" c.start (r.starts (pos c.start) f) in
    let e : c.end < week = in_week_lem w "to" c.end (r.ends (pos c.end) t) in
    simp (f, t, is_in_window) ((covers_iff c.start c.end now s e n).1 c.inside)

any-Mem :
    (p : Value → Bool) (ws : List Value) (w : Value) → Memᴰ w ws → p w ≡ true → any p ws ≡ true
any-Mem p [] w m h = elim m [ ]
any-Mem p (x ∷ xs) w (Memᴰ.head e) h =
    let g : p x ≡ true = subst (λ z. p z ≡ true) e h in ground arith
any-Mem p (x ∷ xs) w (Memᴰ.tail m) h = let ih = any-Mem p xs w m h in ground arith

-- A rule is suppressed at a minute of the week exactly where one of its windows can be read and
-- covers the minute, going round the week from its start to its end, the end included; windows that
-- cannot be read suppress nothing, and those that can are to have their points in the week.
pub is_suppressed-IsCovered :
    (ws : List Value) (now : ℕ)
    → ((w : Value) → Memᴰ w ws → IsRegular w)
    → now < week
    → (is_suppressed ws now ≡ true) ↔ ((w : Value) × Memᴰ w ws × IsCovered now w)
unfolding is_suppressed
is_suppressed-IsCovered ws now r n = (
  λ h.
      let (w, m, g) = any-true (λ w. is_in_window w now) ws h in
      (w, m, in_window-IsCovered w now (r w m) n g),
  λ (w, m, c). any-Mem (λ w. is_in_window w now) ws w m (covered-in_window w now (r w m) n c),
)
