-- ===== src/Workflow/Shell/Commands.antt =====
-- Quoted arguments as the shell reads them, and required values.
use lokilinux.Python.{ok_injective, Value, Fields, get, is_text, codes, ok}
use lokilinux.Prelude.{
  ◌||◌, ◌∙◌, Bool-cases, inl, inr, String, refl, ◌++◌, ℕ, ◌≡◌, none, some, List, [], ◌∷◌,
}
use lokilinux.Workflow.Shell.{quote, require_value, is_null}
use lokilinux.Workflow.Shell.Lexer.{Token, Mode, lex, tokens, push}
use lokilinux.Workflow.Shell.Quoting.{lex-quote, tokens-quote}

pub lex_last : (s : List ℕ) → lex Mode.plain none (quote s) ≡ some (Token.word s ∷ [])
unfolding tokens
lex_last s = tokens-quote s

-- A quoted argument, a blank, and what follows.
pub lex_argument :
    (s rest : List ℕ)
    → lex Mode.plain none (quote s ++ (codes " " ++ rest))
      ≡ push (Token.word s) (lex Mode.plain none rest)
unfolding lex
lex_argument s rest = lex-quote s none (codes " " ++ rest) ∙ refl

abbrev pub named : String → Token
named s = Token.word (codes s)

pub require_value_lem :
    (config : Fields) (key : String) (v : Value)
    → require_value config key ≡ ok v
    → get config key ≡ v
unfolding require_value
require_value_lem config key v h =
    elim (Bool-cases (is_null (get config key) || is_text (get config key) "")) [
      | inl n ↦ cc (rw n at h)
      | inr n ↦ ok_injective (get config key) v (rw n at h)
    ]
