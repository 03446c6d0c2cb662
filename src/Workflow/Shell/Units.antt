-- ===== src/Workflow/Shell/Units.antt =====
-- What the shell reads in the command of a service step.
use lokilinux.Prelude.{
  subst, sym, inl, inr, Bool-cases, String, true, ◌≡◌, refl, ap, some, List, [], ◌∷◌, ◌++◌, ℕ,
  eq_iff, arith,
}
use lokilinux.Python.{get, ok, Result-cases, ok_injective, Value, str, is_text, codes, Fields}
use lokilinux.Workflow.Shell.{quote, require_value, is_service_action, compile_service, py_str, q}
use lokilinux.Workflow.Shell.Commands.{lex_argument, lex_last, require_value_lem, named}
use lokilinux.Workflow.Shell.Files.{text_of}
use lokilinux.Workflow.Shell.Lexer.{Token, lex, tokens}

is_text_lem : (v : Value) (s : String) → is_text v s ≡ true → v ≡ str s
is_text_lem (str t) s h = ap str ((eq_iff t s).0 h)
is_text_lem (Value.null) s h = cc
is_text_lem (Value.bool b) s h = cc
is_text_lem (Value.int z) s h = cc
is_text_lem (Value.list vs) s h = cc
is_text_lem (Value.dict fs) s h = cc

module _ (other_str : Value → List ℕ) where
  -- `action` as the shell reads it, between the command and the name.
  abbrev Reads : Value → Type 0
  unfolding q py_str
  Reads action =
      (v : Value)
      → tokens (codes "systemctl " ++ (py_str other_str action ++ (codes " " ++ q other_str v)))
        ≡ some (
            named "systemctl"
            ∷ Token.word (py_str other_str action)
            ∷ Token.word (py_str other_str v)
            ∷ [])

  -- A text that needs no quotes is read as it stands.
  Reads-safe : (s : String) → quote (codes s) ≡ codes s → Reads (str s)
  unfolding tokens lex py_str q
  Reads-safe s h v =
      let rest = quote (py_str other_str v) in
      subst
        (λ a.
          tokens (codes "systemctl " ++ (a ++ (codes " " ++ rest)))
          ≡ some (named "systemctl" ∷ Token.word (codes s) ∷ Token.word (py_str other_str v) ∷ []))
        h (rw (lex_argument (codes s) rest, lex_last (py_str other_str v)) refl)

  Reads-one :
      (action : Value) (s : String)
      → is_text action s ≡ true
      → quote (codes s) ≡ codes s
      → Reads action
  Reads-one action s h safe = subst Reads (sym (is_text_lem action s h)) (Reads-safe s safe)

  service-Reads : (action : Value) → is_service_action action ≡ true → Reads action
  unfolding quote
  service-Reads action h = elim (Bool-cases (is_text action "start")) [
    | inl a ↦ Reads-one action "start" a refl
    | inr a ↦ elim (Bool-cases (is_text action "stop")) [
      | inl b ↦ Reads-one action "stop" b refl
      | inr b ↦ elim (Bool-cases (is_text action "restart")) [
        | inl c ↦ Reads-one action "restart" c refl
        | inr c ↦ elim (Bool-cases (is_text action "reload")) [
          | inl d ↦ Reads-one action "reload" d refl
          | inr d ↦ elim (Bool-cases (is_text action "enable")) [
            | inl e ↦ Reads-one action "enable" e refl
            | inr e ↦ Reads-one action "disable" (ground arith) refl
          ]
        ]
      ]
    ]
  ]

  -- The shell reads a command that _compile_service makes as three words: systemctl, the action and
  -- the configured name, whatever characters that has.
  pub compile_service-tokens :
      (config : Fields) (cmd : List ℕ)
      → compile_service other_str config ≡ ok cmd
      → tokens cmd
        ≡ some (
            named "systemctl"
            ∷ Token.word (text_of other_str config "action")
            ∷ Token.word (text_of other_str config "name")
            ∷ [])
  unfolding compile_service
  compile_service-tokens config cmd h =
      elim (Bool-cases (is_service_action (get config "action"))) [
        | inr n ↦ cc (rw n at h)
        | inl n ↦ elim (Result-cases (require_value config "name")) [
          | inr (e, m) ↦ cc (rw (n, m) at h)
          | inl (v, m) ↦
              let k = require_value_lem config "name" v m in
              subst
                (λ c.
                  tokens c
                  ≡ some (
                      named "systemctl"
                      ∷ Token.word (text_of other_str config "action")
                      ∷ Token.word (text_of other_str config "name")
                      ∷ []))
                (ok_injective _ cmd (rw (n, m) at h))
                (rw k (service-Reads (get config "action") n v))
        ]
      ]
