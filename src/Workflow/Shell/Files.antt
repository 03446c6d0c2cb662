-- ===== src/Workflow/Shell/Files.antt =====
-- What the shell reads in the command of a file step, by its action.
use lokilinux.Python.{
  raised, run_error, str, or_else, truthy, Result-cases, ok_injective, Value, Fields, get, is_text,
  codes, ok,
}
use lokilinux.Prelude.{
  if◌then◌else◌, subst, sym, ◌||◌, ◌∙◌, Bool-cases, inl, inr, is_empty, false, String, true, refl,
  ◌++◌, ℕ, ◌≡◌, some, List, [], ◌∷◌,
}
use lokilinux.Workflow.Shell.{
  quote, py_str, q, require_value, compile_create, owner_spec, two_arguments, compile_chown,
  file_command, compile_file,
}
use mathlib.Core.List.{append_assoc}
use lokilinux.Workflow.Shell.Lexer.{Token, lex, tokens}
use lokilinux.Workflow.Shell.Commands.{named, lex_last, lex_argument, require_value_lem}

delete_tokens :
    (path : List ℕ)
    → tokens (codes "rm -f " ++ quote path) ≡ some (named "rm" ∷ named "-f" ∷ Token.word path ∷ [])
unfolding tokens lex
delete_tokens path = rw (lex_last path) refl

copy_tokens :
    (source path : List ℕ)
    → tokens (codes "cp " ++ (quote source ++ (codes " " ++ quote path)))
      ≡ some (named "cp" ∷ Token.word source ∷ Token.word path ∷ [])
unfolding tokens lex
copy_tokens source path = rw (lex_argument source (quote path), lex_last path) refl

chmod_tokens :
    (mode path : List ℕ)
    → tokens (codes "chmod " ++ (quote mode ++ (codes " " ++ quote path)))
      ≡ some (named "chmod" ∷ Token.word mode ∷ Token.word path ∷ [])
unfolding tokens lex
chmod_tokens mode path = rw (lex_argument mode (quote path), lex_last path) refl

chown_tokens :
    (spec path : List ℕ)
    → tokens (codes "chown " ++ (quote spec ++ (codes " " ++ quote path)))
      ≡ some (named "chown" ∷ Token.word spec ∷ Token.word path ∷ [])
unfolding tokens lex
chown_tokens spec path = rw (lex_argument spec (quote path), lex_last path) refl

-- The command of `create` without a mode.
abbrev write : List ℕ → List ℕ → List ℕ
write content path = codes "printf '%s' " ++ (quote content ++ (codes " > " ++ quote path))

tokens-write :
    (content path : List ℕ)
    → tokens (write content path)
      ≡ some (
          named "printf"
          ∷ named "%s"
          ∷ Token.word content
          ∷ Token.operator 62
          ∷ Token.word path
          ∷ [])
unfolding tokens lex
tokens-write content path = rw (lex_argument content (codes "> " ++ quote path), lex_last path) refl

write_mode_tokens :
    (content path mode : List ℕ)
    → tokens
        (write content path ++ (codes " && chmod " ++ (quote mode ++ (codes " " ++ quote path))))
      ≡ some (
          named "printf"
          ∷ named "%s"
          ∷ Token.word content
          ∷ Token.operator 62
          ∷ Token.word path
          ∷ Token.operator 38
          ∷ Token.operator 38
          ∷ named "chmod"
          ∷ Token.word mode
          ∷ Token.word path
          ∷ [])
unfolding tokens lex
write_mode_tokens content path mode =
    let rest = codes "&& chmod " ++ (quote mode ++ (codes " " ++ quote path)) in
    let c = append_assoc (quote content) (codes " > " ++ quote path) (codes " " ++ rest) in
    rw
      (
        c,
        lex_argument content (codes "> " ++ (quote path ++ (codes " " ++ rest))),
        lex_argument path rest,
        lex_argument mode (quote path),
        lex_last path,
      )
      refl

chown_cases :
    (owner path cmd : List ℕ)
    → (if is_empty owner
        then raised run_error
        else ok (codes "chown " ++ (quote owner ++ (codes " " ++ path))))
      ≡ ok cmd
    → codes "chown " ++ (quote owner ++ (codes " " ++ path)) ≡ cmd
chown_cases [] path cmd h = cc
chown_cases (c ∷ cs) path cmd h = ok_injective _ cmd h

module _ (other_str : Value → List ℕ) (config : Fields) where
  -- The text of a configured value.
  abbrev pub text_of : String → List ℕ
  unfolding py_str
  text_of key = py_str other_str (get config key)

  -- The texts of the content and of the owner, which may be missing.
  abbrev pub content : List ℕ
  unfolding py_str
  content = py_str other_str (or_else (get config "content") (str ""))

  abbrev pub spec : List ℕ
  unfolding owner_spec
  spec = owner_spec other_str (get config "owner") (get config "group")

  -- What a file step does, as the words and operators that the shell reads: each configured value
  -- is one word of its own.
  pub data IsFileCommand : List Token → Type 0 where
    deletes :
        is_text (get config "action") "delete" ≡ true
        → IsFileCommand (named "rm" ∷ named "-f" ∷ Token.word (text_of "path") ∷ [])
    copies :
        is_text (get config "action") "copy" ≡ true
        → IsFileCommand
            (named "cp" ∷ Token.word (text_of "source") ∷ Token.word (text_of "path") ∷ [])
    sets_mode :
        is_text (get config "action") "chmod" ≡ true
        → IsFileCommand
            (named "chmod" ∷ Token.word (text_of "mode") ∷ Token.word (text_of "path") ∷ [])
    sets_owner :
        is_text (get config "action") "chown" ≡ true
        → IsFileCommand (named "chown" ∷ Token.word spec ∷ Token.word (text_of "path") ∷ [])
    writes :
        (is_text (get config "action") "create" || is_text (get config "action") "template") ≡ true
        → truthy (get config "mode") ≡ false
        → IsFileCommand (
            named "printf"
            ∷ named "%s"
            ∷ Token.word content
            ∷ Token.operator 62
            ∷ Token.word (text_of "path")
            ∷ [])
    writes_with_mode :
        (is_text (get config "action") "create" || is_text (get config "action") "template") ≡ true
        → truthy (get config "mode") ≡ true
        → IsFileCommand (
            named "printf"
            ∷ named "%s"
            ∷ Token.word content
            ∷ Token.operator 62
            ∷ Token.word (text_of "path")
            ∷ Token.operator 38
            ∷ Token.operator 38
            ∷ named "chmod"
            ∷ Token.word (text_of "mode")
            ∷ Token.word (text_of "path")
            ∷ [])

  -- A command that the shell reads as one of these.
  pub record IsRead (cmd : List ℕ) : Type 0 where
    pub words : List Token
    pub reads : tokens cmd ≡ some words
    pub does : IsFileCommand words

  two_lem :
      (command : List ℕ) (key : String) (cmd : List ℕ)
      → two_arguments other_str command config key (get config "path") ≡ ok cmd
      → cmd ≡ command ++ (quote (text_of key) ++ (codes " " ++ quote (text_of "path")))
  unfolding two_arguments q
  two_lem command key cmd h = elim (Result-cases (require_value config key)) [
    | inr (e, n) ↦ cc (rw (n, two_arguments) at h)
    | inl (v, n) ↦
        let k = require_value_lem config key v n in
        sym (ok_injective _ cmd (rw (n, two_arguments) at h)) ∙ rw k refl
  ]

  read : (cmd : List ℕ) (ts : List Token) → tokens cmd ≡ some ts → IsFileCommand ts → IsRead cmd
  read cmd ts e d = record { words = ts; reads = e; does = d }

  chown_lem :
      (cmd : List ℕ)
      → compile_chown other_str config (get config "path") ≡ ok cmd
      → codes "chown " ++ (quote spec ++ (codes " " ++ quote (text_of "path"))) ≡ cmd
  unfolding compile_chown q
  chown_lem cmd h = chown_cases spec (q other_str (get config "path")) cmd h

  create_IsRead :
      (is_text (get config "action") "create" || is_text (get config "action") "template") ≡ true
      → IsRead (compile_create other_str config (get config "path"))
  unfolding compile_create q
  create_IsRead a = elim (Bool-cases (truthy (get config "mode"))) [
    | inl m ↦ rw m (
        read _ _ (write_mode_tokens content (text_of "path") (text_of "mode"))
          (writes_with_mode a m))
    | inr m ↦ rw m (read _ _ (tokens-write content (text_of "path")) (writes a m))
  ]

  file_command-IsRead :
      (cmd : List ℕ) → file_command other_str config (get config "path") ≡ ok cmd → IsRead cmd
  unfolding file_command q
  file_command-IsRead cmd h =
      let action = get config "action" in
      let path = text_of "path" in
      elim (Bool-cases (is_text action "create" || is_text action "template")) [
        | inl a ↦ subst IsRead (ok_injective _ cmd (rw a at h)) (create_IsRead a)
        | inr a ↦ elim (Bool-cases (is_text action "delete")) [
          | inl b ↦
              subst IsRead (ok_injective _ cmd (rw (a, b) at h))
                (read _ _ (delete_tokens path) (deletes b))
          | inr b ↦ elim (Bool-cases (is_text action "copy")) [
            | inl c ↦
                subst IsRead (sym (two_lem (codes "cp ") "source" cmd (rw (a, b, c) at h)))
                  (read _ _ (copy_tokens (text_of "source") path) (copies c))
            | inr c ↦ elim (Bool-cases (is_text action "chmod")) [
              | inl d ↦
                  subst IsRead (sym (two_lem (codes "chmod ") "mode" cmd (rw (a, b, c, d) at h)))
                    (read _ _ (chmod_tokens (text_of "mode") path) (sets_mode d))
              | inr d ↦ elim (Bool-cases (is_text action "chown")) [
                | inl e ↦
                    subst IsRead (chown_lem cmd (rw (a, b, c, d, e) at h))
                      (read _ _ (chown_tokens spec path) (sets_owner e))
                | inr e ↦ cc (rw (a, b, c, d, e) at h)
              ]
            ]
          ]
        ]
      ]

  -- The shell reads a command that _compile_file makes as the command of the configured action, in
  -- which the path, source, mode, owner and content are one word each, whatever characters they
  -- have; no other operators stand in it than those of the redirection and of `&&`.
  pub compile_file-IsRead : (cmd : List ℕ) → compile_file other_str config ≡ ok cmd → IsRead cmd
  unfolding compile_file
  compile_file-IsRead cmd h = elim (Result-cases (require_value config "path")) [
    | inr (e, n) ↦ cc (rw n at h)
    | inl (v, n) ↦
        let k = require_value_lem config "path" v n in file_command-IsRead cmd (rw k (rw n at h))
  ]
