-- ===== src/Workflow/Shell/Steps.antt =====
-- services/workflow_engine.py: the command line of `_dispatch_step` for the step types whose commands are
-- modelled, where the agents have no native module for them.
use lokilinux.Prelude.{ℕ, ◌≡◌, some, List, [], ◌∷◌}
use lokilinux.Python.{Value, Fields, run_error, Result, ok, raised}
use lokilinux.Workflow.Types.{NodeType}
use lokilinux.Workflow.Shell.{compile_service, compile_file}
use lokilinux.Workflow.Shell.Lexer.{Token, tokens}
use lokilinux.Workflow.Shell.Commands.{named}
use lokilinux.Workflow.Shell.Files.{text_of, IsFileCommand, compile_file-IsRead}
use lokilinux.Workflow.Shell.Units.{compile_service-tokens}
use lokilinux.Workflow.Shell.System.{compile_system}
use lokilinux.Workflow.Shell.System.Reads.{IsSystemCommand, compile_system-IsRead}

module _ (other_str : Value → List ℕ) where
  unfoldable pub command_of : NodeType → Fields → Result (List ℕ)
  unfolding compile_service compile_system compile_file
  command_of NodeType.service config = compile_service other_str config
  command_of NodeType.system config = compile_system other_str config
  command_of NodeType.file config = compile_file other_str config
  command_of _ config = raised run_error

  module _ (config : Fields) where
    -- What a step does, as the words and operators that the shell reads: each configured value is a
    -- word of its own, or in `sysctl` a side of one.
    pub data IsStepCommand : NodeType → List Token → Type 0 where
      service_command : IsStepCommand NodeType.service (
          named "systemctl"
          ∷ Token.word (text_of other_str config "action")
          ∷ Token.word (text_of other_str config "name")
          ∷ [])
      system_command :
          (ts : List Token) → IsSystemCommand other_str config ts → IsStepCommand NodeType.system ts
      file_step_command :
          (ts : List Token) → IsFileCommand other_str config ts → IsStepCommand NodeType.file ts

    -- The shell reads the command line of a service, system or file step as the command of its
    -- configured action, in which each configured value is one word, or in `sysctl` one side of a
    -- word, whatever characters it has; the only operators are those of the redirection and of `&&`.
    pub command_of-IsStepCommand :
        (t : NodeType) (cmd : List ℕ)
        → command_of t config ≡ ok cmd
        → (ts : List Token) × (tokens cmd ≡ some ts) × IsStepCommand t ts
    unfolding command_of
    command_of-IsStepCommand NodeType.service cmd h =
        (_, compile_service-tokens other_str config cmd h, service_command)
    command_of-IsStepCommand NodeType.system cmd h =
        let r = compile_system-IsRead other_str config cmd h in
        (r.words, r.reads, system_command r.words r.does)
    command_of-IsStepCommand NodeType.file cmd h =
        let r = compile_file-IsRead other_str config cmd h in
        (r.words, r.reads, file_step_command r.words r.does)
    command_of-IsStepCommand _ cmd h = cc
