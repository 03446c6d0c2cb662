-- ===== src/Workflow/Shell.antt =====
-- utils/shell.py: `q`, which is Python's `shlex.quote` of `str(value)`; and services/workflow_engine.py:
-- the commands that `_compile_service` and `_compile_file` make of a step's configuration. Commands
-- are lists of code points. What `str` makes of a value that is not a text is a parameter.
pub mod Lexer
pub mod Quoting
pub mod Commands
pub mod Files
mod Units
pub mod System
pub mod Steps
mod Tests
use lokilinux.Prelude.{
  ℕ, String, Bool, true, false, not, ◌&&◌, ◌||◌, List, [], ◌∷◌, ◌++◌, if◌then◌else◌, leb, ◌==◌, any,
  all, is_empty,
}
use lokilinux.Python.{
  Value, Fields, null, str, get, truthy, or_else, is_text, codes, run_error, Result, ok, raised,
  ◌>>=◌,
}

-- `k == c` for one of the `ks`
abbrev pub one_of : List ℕ → ℕ → Bool
one_of ks c = any (λ k. k == c) ks

-- A character that the pattern `[^\w@%+=:,./-]` of shlex, on ASCII, does not find.
unfoldable pub is_safe : ℕ → Bool
is_safe c =
    (leb 48 c && leb c 57)
    || (leb 65 c && leb c 90)
    || (leb 97 c && leb c 122)
    || one_of (codes "_@%+=:,./-") c

-- `s.replace("'", "'\"'\"'")`
unfoldable pub escape : List ℕ → List ℕ
escape [] = []
escape (c ∷ cs) =
    let rest = escape cs in if c == 39 then 39 ∷ 34 ∷ 39 ∷ 34 ∷ 39 ∷ rest else c ∷ rest

-- `shlex.quote`
unfoldable pub quote : List ℕ → List ℕ
unfolding is_safe escape
quote s =
    if is_empty s then 39 ∷ 39 ∷ [] else if all is_safe s then s else 39 ∷ (escape s ++ 39 ∷ [])

-- `value is None`
abbrev pub is_null : Value → Bool
is_null null = true
is_null _ = false

-- `_require`, of which every use here is quoted
unfoldable pub require_value : Fields → String → Result Value
require_value config key =
    let v = get config key in if is_null v || is_text v "" then raised run_error else ok v

abbrev pub is_service_action : Value → Bool
is_service_action v =
    is_text v "start"
    || is_text v "stop"
    || is_text v "restart"
    || is_text v "reload"
    || is_text v "enable"
    || is_text v "disable"

module _ (other_str : Value → List ℕ) where
  -- `str(value)`
  unfoldable pub py_str : Value → List ℕ
  py_str (str s) = codes s
  py_str v = other_str v

  -- `q`
  unfoldable pub q : Value → List ℕ
  unfolding quote py_str
  q v = quote (py_str v)

  -- `_compile_service`
  unfoldable pub compile_service : Fields → Result (List ℕ)
  unfolding require_value q
  compile_service config =
      let action = get config "action" in
      if is_service_action action
      then (do
        name ← require_value config "name"
        ok (codes "systemctl " ++ (py_str action ++ (codes " " ++ q name))))
      else raised run_error

  -- The command of `create` and `template`.
  unfoldable pub compile_create : Fields → Value → List ℕ
  unfolding q
  compile_create config path =
      let mode = get config "mode" in
      let write =
        codes "printf '%s' "
        ++ (q (or_else (get config "content") (str "")) ++ (codes " > " ++ q path)) in
      if truthy mode
      then write ++ (codes " && chmod " ++ (q mode ++ (codes " " ++ q path)))
      else write

  -- `f"{owner}:{group}" if group else owner`, of texts
  unfoldable pub owner_spec : Value → Value → List ℕ
  unfolding py_str
  owner_spec owner group =
      let o = py_str (or_else owner (str "")) in
      let g = py_str (or_else group (str "")) in if truthy group then o ++ (codes ":" ++ g) else o

  -- A command of two arguments, the first of which is required.
  unfoldable pub two_arguments : List ℕ → Fields → String → Value → Result (List ℕ)
  unfolding require_value q
  two_arguments command config key path = do
    v ← require_value config key
    ok (command ++ (q v ++ (codes " " ++ q path)))

  -- The command of `chown`.
  unfoldable pub compile_chown : Fields → Value → Result (List ℕ)
  unfolding q quote owner_spec
  compile_chown config path =
      let spec = owner_spec (get config "owner") (get config "group") in
      if is_empty spec
      then raised run_error
      else ok (codes "chown " ++ (quote spec ++ (codes " " ++ q path)))

  -- The command of one action on `path`.
  unfoldable pub file_command : Fields → Value → Result (List ℕ)
  unfolding q compile_create two_arguments compile_chown
  file_command config path =
      let action = get config "action" in
      if is_text action "create" || is_text action "template"
      then ok (compile_create config path)
      else if is_text action "delete"
      then ok (codes "rm -f " ++ q path)
      else if is_text action "copy"
      then two_arguments (codes "cp ") config "source" path
      else if is_text action "chmod"
      then two_arguments (codes "chmod ") config "mode" path
      else if is_text action "chown"
      then compile_chown config path
      else raised run_error

  -- `_compile_file`
  unfoldable pub compile_file : Fields → Result (List ℕ)
  unfolding require_value file_command
  compile_file config = require_value config "path" >>= λ path. file_command config path
