-- ===== src/Correlation/Tests.antt =====
-- The theorem about suppression windows, at a weekend.
use lokilinux.Prelude.{◌∙◌, true, ◌≡◌, ◌↔◌, refl, sym, subst, [], ◌∷◌, Memᴰ, arith}
use lokilinux.Prelude.Int.{pos}
use lokilinux.Python.{Value, dict, end, field, str, ok, ok_injective, get, int_of_codes}
use lokilinux.Correlation.Suppression.{point_of, is_suppressed}
use lokilinux.Correlation.Suppression.Cyclic.{IsRegular, IsCovered, is_suppressed-IsCovered}

abbrev weekend : Value
weekend = dict (field "from" (str "Fri 22:00") (field "to" (str "Mon 06:00") end))

weekend_starts : point_of weekend "from" ≡ ok (pos 7080)
unfolding point_of get int_of_codes
weekend_starts = refl

weekend_ends : point_of weekend "to" ≡ ok (pos 360)
unfolding point_of get int_of_codes
weekend_ends = refl

weekend-IsRegular : IsRegular weekend
weekend-IsRegular = record {
  starts = λ z h. record {
    minute = 7080;
    is_minute = ok_injective z (pos 7080) (sym h ∙ weekend_starts);
    in_week = omega arith;
  };
  ends = λ z h. record {
    minute = 360;
    is_minute = ok_injective z (pos 360) (sym h ∙ weekend_ends);
    in_week = omega arith;
  };
}

only_weekend : (w : Value) → Memᴰ w (weekend ∷ []) → IsRegular w
only_weekend w (Memᴰ.head e) = subst IsRegular (sym e) weekend-IsRegular
only_weekend w (Memᴰ.tail m) = elim m [ ]

is_suppressed-IsCovered_example :
    (is_suppressed (weekend ∷ []) 0 ≡ true) ↔ ((w : Value) × Memᴰ w (weekend ∷ []) × IsCovered 0 w)
is_suppressed-IsCovered_example =
    is_suppressed-IsCovered (weekend ∷ []) 0 only_weekend (omega arith)
