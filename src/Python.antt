-- ===== src/Python.antt =====
-- Python values as the backend reads them out of JSON columns: `dict.get`, truth, `or`, `int()`.
-- Floats do not occur among the configuration keys that are read, and are left out.
use Prim.Native.Char.{code}
use lokilinux.Prelude.{
  ℕ, zero, ◌+◌, ◌-◌, ◌*◌, String, Bool, true, false, ◌&&◌, ◌||◌, Option, none, some, List, [], ◌∷◌,
  ◌≡◌, refl, if◌then◌else◌, leb, map, ◌==◌, str_eq, ◌⊎◌, inl, inr,
}
use lokilinux.Prelude.Int.{ℤ, pos, neg_ℕ}

-- The code points of a text.
abbrev pub codes : String → List ℕ
codes String.[] = []
codes (String.◌∷◌ c s) = code c ∷ codes s

mutual
  pub data Value : Type 0 where
    null : Value
    bool : Bool → Value
    int : ℤ → Value
    str : String → Value
    list : Items → Value
    dict : Fields → Value

  pub data Items : Type 0 where
    nil : Items
    cons : Value → Items → Items

  pub data Fields : Type 0 where
    end : Fields
    field : String → Value → Fields → Fields

-- `d.get(k)`: None for a key that is missing
unfoldable pub get : Fields → String → Value
get end k = null
get (field j v fs) k = if str_eq j k then v else get fs k

-- `k in d`
unfoldable pub has_key : Fields → String → Bool
has_key end k = false
has_key (field j v fs) k = str_eq j k || has_key fs k

-- `bool(v)`
abbrev pub truthy : Value → Bool
truthy null = false
truthy (bool b) = b
truthy (int (ℤ.pos zero)) = false
truthy (int _) = true
truthy (str String.[]) = false
truthy (str _) = true
truthy (list nil) = false
truthy (list _) = true
truthy (dict end) = false
truthy (dict _) = true

-- `v or d`
abbrev pub or_else : Value → Value → Value
or_else v d = if truthy v then v else d

-- `v == "s"`
abbrev pub is_text : Value → String → Bool
is_text (str t) s = str_eq t s
is_text _ s = false

-- The exceptions that conversions, lookups and queries raise.
pub data Exc : Type 0 where
  value_error type_error key_error permission_error multiple_results integrity_error run_error
        missing_greenlet :
      Exc

pub data Result {ℓ} (A : Type ℓ) : Type ℓ where
  ok : A → Result A
  raised : Exc → Result A

infixl 5 ◌>>=◌
abbrev pub ◌>>=◌ {ℓ κ} : {A : Type ℓ} {B : Type κ} → Result A → (A → Result B) → Result B
ok a >>= f = f a
raised e >>= f = raised e

-- The zeros of the decimal digits beyond ASCII in Unicode 14, the one of Python 3.11: each is
-- followed by the other nine digits of its script.
abbrev zeros : List ℕ
zeros =
    1632 ∷ 1776 ∷ 1984 ∷ 2406 ∷ 2534 ∷ 2662 ∷ 2790 ∷ 2918 ∷ 3046 ∷ 3174 ∷ 3302 ∷ 3430 ∷ 3558 ∷ 3664
    ∷ 3792 ∷ 3872 ∷ 4160 ∷ 4240 ∷ 6112 ∷ 6160 ∷ 6470 ∷ 6608 ∷ 6784 ∷ 6800 ∷ 6992 ∷ 7088 ∷ 7232
    ∷ 7248 ∷ 42528 ∷ 43216 ∷ 43264 ∷ 43472 ∷ 43504 ∷ 43600 ∷ 44016 ∷ 65296 ∷ 66720 ∷ 68912 ∷ 69734
    ∷ 69872 ∷ 69942 ∷ 70096 ∷ 70384 ∷ 70736 ∷ 70864 ∷ 71248 ∷ 71360 ∷ 71472 ∷ 71904 ∷ 72016 ∷ 72784
    ∷ 73040 ∷ 73120 ∷ 92768 ∷ 92864 ∷ 93008 ∷ 120782 ∷ 120792 ∷ 120802 ∷ 120812 ∷ 120822 ∷ 123200
    ∷ 123632 ∷ 125264 ∷ 130032 ∷ []

-- The white space beyond ASCII.
abbrev is_wide_space : ℕ → Bool
is_wide_space c =
    c == 133
    || c == 160
    || c == 5760
    || (leb 8192 c && leb c 8202)
    || c == 8232
    || c == 8233
    || c == 8239
    || c == 8287
    || c == 12288

-- The ASCII digit of a decimal digit, if the character is one.
digit_in : List ℕ → ℕ → ℕ
digit_in [] c = 63
digit_in (z ∷ zs) c =
    let rest = digit_in zs c in if leb z c && leb c (z + 9) then 48 + (c - z) else rest

-- What `int` makes of a character first: digits and spaces become those of ASCII, all else that is
-- not ASCII a question mark, at which it fails.
to_ascii : ℕ → ℕ
unfolding digit_in
to_ascii c = if leb c 127 then c else if is_wide_space c then 32 else digit_in zeros c

is_space : ℕ → Bool
is_space c = (leb 9 c && leb c 13) || c == 32

drop_spaces : List ℕ → List ℕ
unfolding is_space
drop_spaces [] = []
drop_spaces (c ∷ cs) = let rest = drop_spaces cs in if is_space c then rest else c ∷ cs

is_digit : ℕ → Bool
is_digit c = leb b'0' c && leb c b'9'

all_spaces : List ℕ → Bool
unfolding is_space
all_spaces [] = true
all_spaces (c ∷ cs) = is_space c && all_spaces cs

-- The digits left, the value of those read, and whether the last character was a digit: one `_` may
-- stand between two digits, and spaces may follow the last.
digits : List ℕ → ℕ → Bool → Option ℕ
unfolding is_digit all_spaces
digits [] n after_digit = if after_digit then some n else none
digits (c ∷ cs) n after_digit =
    let more = digits cs (n * 10 + (c - 48)) true in
    let gap = digits cs n false in
    if is_digit c
    then more
    else if c == b'_' && after_digit
    then gap
    else if after_digit && all_spaces (c ∷ cs)
    then some n
    else none

signed : List ℕ → Option ℤ
unfolding digits
signed [] = none
signed (c ∷ cs) =
    if c == b'-'
    then elim (digits cs 0 false) [ none ↦ none | some n ↦ some (neg_ℕ n) ]
    else if c == b'+'
    then elim (digits cs 0 false) [ none ↦ none | some n ↦ some (pos n) ]
    else elim (digits (c ∷ cs) 0 false) [ none ↦ none | some n ↦ some (pos n) ]

of_option : Option ℤ → Result ℤ
of_option none = raised value_error
of_option (some z) = ok z

-- `int(s)` of a text, as its code points
unfoldable pub int_of_codes : List ℕ → Result ℤ
unfolding to_ascii drop_spaces signed of_option
int_of_codes cs = of_option (signed (drop_spaces (map to_ascii cs)))

-- `int(v)`
unfoldable pub py_int : Value → Result ℤ
unfolding int_of_codes
py_int (int z) = ok z
py_int (bool b) = ok (if b then pos 1 else pos 0)
py_int (str s) = int_of_codes (codes s)
py_int _ = raised type_error

pub Result-cases {ℓ} :
    {A : Type ℓ} (m : Result A) → ((a : A) × (m ≡ ok a)) ⊎ ((e : Exc) × (m ≡ raised e))
Result-cases (ok a) = inl (a, refl)
Result-cases (raised e) = inr (e, refl)

pub ok_injective {ℓ} : {A : Type ℓ} (a b : A) → (ok a) ≡ (ok b) → a ≡ b
ok_injective a b h = cc
