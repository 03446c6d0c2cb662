-- ===== src/Workflow/Shell/System.antt =====
-- services/workflow_engine.py: `_compile_system`, and which step makes a command line where the agents
-- have no native module for it.
pub mod Words
pub mod Reads
use lokilinux.Prelude.{
  ℕ, zero, suc, ◌+◌, ◌/◌, ◌%◌, String, Bool, true, false, List, [], ◌∷◌, ◌++◌, if◌then◌else◌, ltb,
}
use lokilinux.Prelude.Int.{ℤ, pos, negsuc}
use lokilinux.Python.{
  Value, Fields, get, int, or_else, is_text, codes, py_int, run_error, Result, ok, raised, ◌>>=◌,
}
use lokilinux.Workflow.Types.{NodeType}
use lokilinux.Workflow.Shell.{q, require_value, compile_service, compile_file}

-- The decimal digits of a number; `suc n` rounds are enough for `n`.
unfoldable pub digits_of : ℕ → ℕ → List ℕ
digits_of zero n = []
digits_of (suc rounds) n =
    let rest = digits_of rounds (n / 10) in
    if ltb n 10 then (48 + n) ∷ [] else rest ++ ((48 + n % 10) ∷ [])

-- `str(z)` of an integer
unfoldable pub int_str : ℤ → List ℕ
unfolding digits_of
int_str (pos n) = digits_of (suc n) n
int_str (negsuc n) = 45 ∷ digits_of (suc (suc n)) (suc n)

-- The command that reboots or powers off after a delay.
unfoldable pub compile_power : Fields → String → Result (List ℕ)
unfolding int_str
compile_power config verb = do
  delay ← py_int (or_else (get config "delay_seconds") (int (pos 5)))
  ok (codes "systemd-run --on-active=" ++ (int_str delay ++ (codes "s systemctl " ++ codes verb)))

module _ (other_str : Value → List ℕ) where
  -- A command with one required argument.
  unfoldable pub one_argument : List ℕ → Fields → String → Result (List ℕ)
  unfolding require_value q
  one_argument command config key = do v ← require_value config key; ok (command ++ q other_str v)

  unfoldable pub compile_sysctl : Fields → Result (List ℕ)
  unfolding require_value q
  compile_sysctl config = do
    k ← require_value config "key"
    v ← require_value config "value"
    ok (codes "sysctl -w " ++ (q other_str k ++ (codes "=" ++ q other_str v)))

  -- `_compile_system`
  unfoldable pub compile_system : Fields → Result (List ℕ)
  unfolding compile_power one_argument compile_sysctl
  compile_system config =
      let action = get config "action" in
      if is_text action "reboot"
      then compile_power config "reboot"
      else if is_text action "shutdown"
      then compile_power config "poweroff"
      else if is_text action "hostname"
      then one_argument (codes "hostnamectl set-hostname ") config "value"
      else if is_text action "timezone"
      then one_argument (codes "timedatectl set-timezone ") config "value"
      else if is_text action "sysctl"
      then compile_sysctl config
      else raised run_error
