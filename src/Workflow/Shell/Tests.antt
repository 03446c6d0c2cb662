-- ===== src/Workflow/Shell/Tests.antt =====
-- The theorems about generated commands, at a quoted text and a file step.
use lokilinux.Prelude.{ℕ, ◌≡◌, refl, some, List, []}
use lokilinux.Workflow.Types.{NodeType}
use lokilinux.Workflow.Shell.Steps.{command_of, IsStepCommand, command_of-IsStepCommand}
use lokilinux.Python.{get, Value, Fields, end, field, str, codes, ok}
use lokilinux.Workflow.Shell.{quote, compile_file, require_value, file_command, q, py_str}
use lokilinux.Workflow.Shell.Lexer.{Token, tokens}

abbrev nothing : Value → List ℕ
nothing v = []

abbrev step : Fields
step = field "action" (str "delete") (field "path" (str "/tmp/a b") end)

makes : command_of nothing NodeType.file step ≡ ok (codes "rm -f '/tmp/a b'")
unfolding command_of compile_file require_value file_command q quote py_str get
makes = refl

command_of-IsStepCommand_example :
    (ts : List Token) × (tokens (codes "rm -f '/tmp/a b'") ≡ some ts)
    × IsStepCommand nothing step NodeType.file ts
command_of-IsStepCommand_example =
    command_of-IsStepCommand nothing step NodeType.file (codes "rm -f '/tmp/a b'") makes
