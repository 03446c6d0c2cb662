-- ===== src/Correlation/Suppression.antt =====
-- correlation/suppression.py: the weekly windows in which a rule is suppressed. A point of the week is
-- a minute, with Monday 00:00 as 0; texts are lists of code points.
pub mod Cyclic
use lokilinux.Prelude.{
  ℕ, suc, ◌+◌, ◌*◌, String, Bool, true, false, ◌&&◌, ◌||◌, Option, none, some, List, [], ◌∷◌,
  if◌then◌else◌, any, ◌==◌, leb,
}
use lokilinux.Prelude.Int.{ℤ, pos, pos_part, neg_part, leb_ℤ, diff_ℕ}
use lokilinux.Python.{
  Value, Fields, get, codes, str, list, dict, Items, nil, cons, Result, ok, raised, value_error,
  type_error, key_error, int_of_codes, ◌>>=◌,
}

-- What stands before the first `k`, and what behind; none without a `k`.
unfoldable pub split_at : ℕ → List ℕ → Option (List ℕ × List ℕ)
split_at k [] = none
split_at k (c ∷ cs) =
    let rest = split_at k cs in
    if c == k then some ([], cs) else elim rest [ none ↦ none | some (a, b) ↦ some (c ∷ a, b) ]

-- `a, b = s.split(k, 1)`
unfoldable pub split_once : ℕ → List ℕ → Result (List ℕ × List ℕ)
unfolding split_at
split_once k cs = elim (split_at k cs) [ none ↦ raised value_error | some p ↦ ok p ]

-- `a, b = s.split(k)`: there is one `k`
unfoldable pub split_in_two : ℕ → List ℕ → Result (List ℕ × List ℕ)
unfolding split_at
split_in_two k cs = elim (split_at k cs) [
  | none ↦ raised value_error
  | some (a, b) ↦ elim (split_at k b) [ none ↦ ok (a, b) | some p ↦ raised value_error ]
]

abbrev pub same_codes : List ℕ → List ℕ → Bool
same_codes [] [] = true
same_codes (c ∷ cs) (d ∷ ds) = c == d && same_codes cs ds
same_codes _ _ = false

-- `_DAYS.index(day)`, from `n` on
unfoldable pub day_index : ℕ → List String → List ℕ → Result ℕ
day_index n [] day = raised value_error
day_index n (d ∷ ds) day =
    let rest = day_index (suc n) ds day in if same_codes (codes d) day then ok n else rest

-- `_DAYS`
abbrev pub days : List String
days = "Mon" ∷ "Tue" ∷ "Wed" ∷ "Thu" ∷ "Fri" ∷ "Sat" ∷ "Sun" ∷ []

-- `day * 1440 + hours * 60 + minutes`
abbrev pub minute_of : ℕ → ℤ → ℤ → ℤ
minute_of day h m =
    diff_ℕ (day * 1440 + pos_part h * 60 + pos_part m) (neg_part h * 60 + neg_part m)

-- `_parse_point`
unfoldable pub parse_point : List ℕ → Result ℤ
unfolding split_once split_in_two day_index
parse_point point = split_once 32 point >>= λ (day, hh_mm).
    split_in_two 58 hh_mm >>= λ (hours, minutes). day_index 0 days day >>= λ d.
    int_of_codes hours >>= λ h. int_of_codes minutes >>= λ m. ok (minute_of d h m)

-- The test of a window whose points are read.
unfoldable pub covers : ℤ → ℤ → ℕ → Bool
covers start end now =
    if leb_ℤ start end
    then leb_ℤ start (pos now) && leb_ℤ (pos now) end
    else leb_ℤ start (pos now) || leb_ℤ (pos now) end

-- `window[key]` of a dict, which is a text; anything else raises an exception that is caught.
unfoldable pub point_of : Value → String → Result ℤ
unfolding parse_point
point_of (dict fs) key = elim (get fs key) [ str s ↦ parse_point (codes s) | _ ↦ raised type_error ]
point_of _ key = raised type_error

-- The body of the loop; a malformed entry does not suppress.
unfoldable pub is_in_window : Value → ℕ → Bool
unfolding point_of covers
is_in_window w now = elim (point_of w "from") [
  | raised e ↦ false
  | ok start ↦ elim (point_of w "to") [ raised e ↦ false | ok end ↦ covers start end now ]
]

-- `is_suppressed`, of a list of windows and the minute of the week
unfoldable pub is_suppressed : List Value → ℕ → Bool
unfolding is_in_window
is_suppressed windows now = any (λ w. is_in_window w now) windows
