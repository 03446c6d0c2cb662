-- ===== src/Workflow/Shell/Quoting.antt =====
-- The shell reads a quoted value back as one word.
use mathlib.Core.List.{append-nil, append_assoc}
use lokilinux.Prelude.{
  ◌∙◌, sym, ap, ==_iff, Bool-cases, inl, inr, none, some, Option, ◌==◌, ℕ, true, false, not, ◌≡◌,
  refl, subst, List, [], ◌∷◌, ◌++◌, any, all, arith,
}
use lokilinux.Workflow.Shell.{quote, is_safe, escape}
use lokilinux.Workflow.Shell.Lexer.{
  Token, word_of, tokens, Mode, Kind, kind, blanks, operator_signs, expansions, lex,
}

-- A safe character is in no class of unsafe ones.
not_in :
    (ks : List ℕ) (c : ℕ)
    → all (λ k. not (is_safe k)) ks ≡ true
    → is_safe c ≡ true
    → any (λ k. k == c) ks ≡ false
not_in [] c h s = refl
not_in (k ∷ ks) c h s = elim (Bool-cases (k == c)) [
  | inl e ↦
      let w : is_safe k ≡ true = subst (λ n. is_safe n ≡ true) (sym ((==_iff k c).0 e)) s in
      ground arith
  | inr e ↦ let ih = not_in ks c (ground arith) s in ground arith
]

unsafe_blanks : all (λ k. not (is_safe k)) blanks ≡ true
unfolding is_safe
unsafe_blanks = refl

unsafe_operators : all (λ k. not (is_safe k)) operator_signs ≡ true
unfolding is_safe
unsafe_operators = refl

unsafe_single : all (λ k. not (is_safe k)) (39 ∷ []) ≡ true
unfolding is_safe
unsafe_single = refl

unsafe_double : all (λ k. not (is_safe k)) (34 ∷ []) ≡ true
unfolding is_safe
unsafe_double = refl

unsafe_expansions : all (λ k. not (is_safe k)) expansions ≡ true
unfolding is_safe
unsafe_expansions = refl

kind-is_safe : (c : ℕ) → is_safe c ≡ true → kind c ≡ Kind.literal
unfolding kind
kind-is_safe c s =
    rw
      (
        not_in blanks c unsafe_blanks s,
        not_in operator_signs c unsafe_operators s,
        not_in (39 ∷ []) c unsafe_single s,
        not_in (34 ∷ []) c unsafe_double s,
        not_in expansions c unsafe_expansions s,
      )
      refl

-- A run of safe characters goes on with the word.
pub lex-safe :
    (s : List ℕ) (w rest : List ℕ)
    → all is_safe s ≡ true
    → lex Mode.plain (some w) (s ++ rest) ≡ lex Mode.plain (some (w ++ s)) rest
unfolding lex
lex-safe [] w rest h = ap (λ v. lex Mode.plain (some v) rest) (sym (append-nil w))
lex-safe (c ∷ cs) w rest h =
    let k = kind-is_safe c (ground arith) in
    let ih = lex-safe cs (w ++ (c ∷ [])) rest (ground arith) in
    rw (k, lex) ih ∙ ap (λ v. lex Mode.plain (some v) rest) (append_assoc w (c ∷ []) cs)

-- Inside single quotes, an escaped text goes on with the word as it was.
lex-escape :
    (s : List ℕ) (w rest : List ℕ)
    → lex Mode.single (some w) (escape s ++ (39 ∷ rest)) ≡ lex Mode.plain (some (w ++ s)) rest
unfolding lex escape
lex-escape [] w rest = ap (λ v. lex Mode.plain (some v) rest) (sym (append-nil w))
lex-escape (c ∷ cs) w rest =
    let ih = lex-escape cs (w ++ (c ∷ [])) rest in
    let back = ap (λ v. lex Mode.plain (some v) rest) (append_assoc w (c ∷ []) cs) in
    elim (Bool-cases (c == 39)) [
      | inl h ↦
          let e : c ≡ 39 = (==_iff c 39).0 h in
          let seen : lex Mode.single (some w) (escape (c ∷ cs) ++ (39 ∷ rest))
              ≡ lex Mode.single (some (w ++ (39 ∷ []))) (escape cs ++ (39 ∷ rest)) =
            rw h refl in
          seen
          ∙ ap (λ n. lex Mode.single (some (w ++ (n ∷ []))) (escape cs ++ (39 ∷ rest))) (sym e)
          ∙ ih
          ∙ back
      | inr h ↦
          let seen : lex Mode.single (some w) (escape (c ∷ cs) ++ (39 ∷ rest))
              ≡ lex Mode.single (some (w ++ (c ∷ []))) (escape cs ++ (39 ∷ rest)) =
            rw (h, h, lex) refl in
          seen ∙ ih ∙ back
    ]

-- Whatever has begun, a quoted text goes on with the word by exactly that text.
pub lex-quote :
    (s : List ℕ) (w : Option (List ℕ)) (rest : List ℕ)
    → lex Mode.plain w (quote s ++ rest) ≡ lex Mode.plain (some (word_of w ++ s)) rest
unfolding quote lex
lex-quote [] w rest = ap (λ v. lex Mode.plain (some v) rest) (sym (append-nil (word_of w)))
lex-quote (c ∷ cs) w rest = elim (Bool-cases (all is_safe (c ∷ cs))) [
  | inl h ↦
      let k = kind-is_safe c (ground arith) in
      let safe = lex-safe cs (word_of w ++ (c ∷ [])) rest (ground arith) in
      let back = ap (λ v. lex Mode.plain (some v) rest) (append_assoc (word_of w) (c ∷ []) cs) in
      rw (h, k, lex) (safe ∙ back)
  | inr h ↦ rw h (
      ap (lex Mode.single (some (word_of w))) (append_assoc (escape (c ∷ cs)) (39 ∷ []) rest)
      ∙ lex-escape (c ∷ cs) (word_of w) rest)
]

-- The shell reads a quoted text back as one word, which is that text, whatever characters it has.
pub tokens-quote : (s : List ℕ) → tokens (quote s) ≡ some (Token.word s ∷ [])
unfolding tokens lex
tokens-quote s = ap (lex Mode.plain none) (sym (append-nil (quote s))) ∙ lex-quote s none []
