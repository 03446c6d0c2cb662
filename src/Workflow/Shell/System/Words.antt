-- ===== src/Workflow/Shell/System/Words.antt =====
-- Numbers, delays and sysctl settings as the shell reads them.
use lokilinux.Prelude.{
  inl, inr, Bool-cases, ◌∙◌, sym, ap, ℕ, zero, suc, ◌+◌, ◌/◌, ◌%◌, ◌<◌, String, Bool, true, ◌≡◌,
  refl, none, some, List, [], ◌∷◌, ◌++◌, all, ltb, arith,
}
use lokilinux.Python.{codes}
use lokilinux.Workflow.Shell.{quote, is_safe}
use lokilinux.Workflow.Shell.Commands.{named}
use lokilinux.Workflow.Shell.System.{int_str, digits_of}
use lokilinux.Workflow.Shell.Quoting.{lex-safe, lex-quote}
use mathlib.Core.List.{append-nil}
use lokilinux.Prelude.Int.{ℤ, pos, negsuc}
use lokilinux.Workflow.Shell.Lexer.{Token, Mode, lex, tokens}

digit-is_safe : (n : ℕ) → n < 10 → is_safe (48 + n) ≡ true
unfolding is_safe
digit-is_safe n h = ground arith

all-append :
    (p : ℕ → Bool) (xs ys : List ℕ) → all p xs ≡ true → all p ys ≡ true → all p (xs ++ ys) ≡ true
all-append p [] ys h k = k
all-append p (x ∷ xs) ys h k = let ih = all-append p xs ys (ground arith) k in ground arith

digits_of-is_safe : (rounds n : ℕ) → all is_safe (digits_of rounds n) ≡ true
unfolding digits_of
digits_of-is_safe zero n = refl
digits_of-is_safe (suc rounds) n =
    let ih = digits_of-is_safe rounds (n / 10) in
    elim (Bool-cases (ltb n 10)) [
      | inl h ↦ let d = digit-is_safe n (ground arith) in rw (h, d) refl
      | inr h ↦
          let d = digit-is_safe (n % 10) (omega arith) in
          let e : all is_safe ((48 + n % 10) ∷ []) ≡ true = rw d refl in
          rw h (all-append is_safe (digits_of rounds (n / 10)) ((48 + n % 10) ∷ []) ih e)
    ]

minus_safe : (cs : List ℕ) → all is_safe cs ≡ true → all is_safe (45 ∷ cs) ≡ true
unfolding is_safe
minus_safe cs h = h

int_str-is_safe : (z : ℤ) → all is_safe (int_str z) ≡ true
unfolding int_str
int_str-is_safe (pos n) = digits_of-is_safe (suc n) n
int_str-is_safe (negsuc n) =
    minus_safe (digits_of (suc (suc n)) (suc n)) (digits_of-is_safe (suc (suc n)) (suc n))

-- The delay as it stands in the option.
abbrev pub delay_word : ℤ → List ℕ
delay_word z = (codes "--on-active=" ++ int_str z) ++ codes "s"

pub power_tokens :
    (z : ℤ) (verb : List ℕ) (rest : String)
    → lex Mode.plain none (codes rest) ≡ some (Token.word verb ∷ [])
    → tokens
        (codes "systemd-run --on-active=" ++ (int_str z ++ (codes "s systemctl " ++ codes rest)))
      ≡ some (
          named "systemd-run"
          ∷ Token.word (delay_word z)
          ∷ named "systemctl"
          ∷ Token.word verb
          ∷ [])
unfolding tokens lex
power_tokens z verb rest h =
    rw
      (
        lex-safe (int_str z) (codes "--on-active=") (codes "s systemctl " ++ codes rest)
            (int_str-is_safe z),
        h,
      )
      refl

pub sysctl_tokens :
    (k v : List ℕ)
    → tokens (codes "sysctl -w " ++ (quote k ++ (codes "=" ++ quote v)))
      ≡ some (named "sysctl" ∷ named "-w" ∷ Token.word ((k ++ codes "=") ++ v) ∷ [])
unfolding tokens lex
sysctl_tokens k v =
    let e = append-nil (quote v) in
    let f = lex-quote v (some (k ++ codes "=")) [] in
    let g : lex Mode.plain (some (k ++ codes "=")) (quote v)
        ≡ some (Token.word ((k ++ codes "=") ++ v) ∷ []) =
      ap (lex Mode.plain (some (k ++ codes "="))) (sym e) ∙ f in
    rw (lex-quote k none (codes "=" ++ quote v), g) refl
