-- ===== src/Workflow/Shell/Lexer.antt =====
-- How a POSIX shell splits a command line into words and operators, as far as no expansion takes
-- place: at a character that starts one outside of quotes, or that keeps a meaning inside double
-- quotes, the reading ends without a result.
use lokilinux.Prelude.{
  ℕ, Bool, true, false, Option, none, some, List, [], ◌∷◌, ◌++◌, any, ◌==◌, if◌then◌else◌,
}
use lokilinux.Python.{codes}

pub data Token : Type 0 where
  word : List ℕ → Token
  operator : ℕ → Token

pub data Mode : Type 0 where
  plain single double : Mode

pub data Kind : Type 0 where
  blank operator_sign single_quote double_quote expanding literal : Kind

abbrev in_class : List ℕ → ℕ → Bool
in_class ks c = any (λ k. k == c) ks

abbrev pub blanks : List ℕ
blanks = 32 ∷ 9 ∷ []

abbrev pub operator_signs : List ℕ
operator_signs = 10 ∷ codes ";&|<>()"

abbrev pub expansions : List ℕ
expansions = 92 ∷ codes "$`*?[]{}~#!^"

unfoldable pub kind : ℕ → Kind
kind c =
    if in_class blanks c
    then Kind.blank
    else if in_class operator_signs c
    then Kind.operator_sign
    else if in_class (39 ∷ []) c
    then Kind.single_quote
    else if in_class (34 ∷ []) c
    then Kind.double_quote
    else if in_class expansions c
    then Kind.expanding
    else Kind.literal

-- What a character is inside double quotes.
unfoldable pub double_kind : ℕ → Kind
double_kind c =
    if c == 34
    then Kind.double_quote
    else if in_class (92 ∷ codes "$`!") c
    then Kind.expanding
    else Kind.literal

-- The word that has begun, if one has.
abbrev pub word_of : Option (List ℕ) → List ℕ
word_of none = []
word_of (some w) = w

abbrev pub push : Token → Option (List Token) → Option (List Token)
push t none = none
push t (some ts) = some (t ∷ ts)

-- The end of the word, if one has begun.
abbrev pub flush : Option (List ℕ) → Option (List Token) → Option (List Token)
flush none ts = ts
flush (some w) ts = push (word w) ts

unfoldable pub lex : Mode → Option (List ℕ) → List ℕ → Option (List Token)
unfolding kind double_kind
lex Mode.plain w [] = flush w (some [])
lex Mode.single w [] = none
lex Mode.double w [] = none
lex Mode.plain w (c ∷ cs) = elim (kind c) [
  | Kind.blank ↦ flush w (lex Mode.plain none cs)
  | Kind.operator_sign ↦ flush w (push (operator c) (lex Mode.plain none cs))
  | Kind.single_quote ↦ lex Mode.single (some (word_of w)) cs
  | Kind.double_quote ↦ lex Mode.double (some (word_of w)) cs
  | Kind.expanding ↦ none
  | Kind.literal ↦ lex Mode.plain (some (word_of w ++ c ∷ [])) cs
]
lex Mode.single w (c ∷ cs) = elim (c == 39) [
  | true ↦ lex Mode.plain w cs
  | false ↦ lex Mode.single (some (word_of w ++ c ∷ [])) cs
]
lex Mode.double w (c ∷ cs) = elim (double_kind c) [
  | Kind.double_quote ↦ lex Mode.plain w cs
  | Kind.expanding ↦ none
  | _ ↦ lex Mode.double (some (word_of w ++ c ∷ [])) cs
]

-- The words and operators of a command line.
unfoldable pub tokens : List ℕ → Option (List Token)
unfolding lex
tokens cs = lex Mode.plain none cs
