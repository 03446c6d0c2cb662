-- ===== src/Workflow/Shell/System/Reads.antt =====
-- The command of a system step, by its action.
use lokilinux.Prelude.{
  inl, inr, Bool-cases, subst, ℕ, String, true, ◌≡◌, refl, none, some, List, [], ◌∷◌, ◌++◌,
}
use lokilinux.Python.{
  Value, Fields, get, int, or_else, is_text, codes, py_int, ok, Result-cases, ok_injective,
}
use lokilinux.Workflow.Shell.{quote, py_str, q, require_value}
use lokilinux.Workflow.Shell.Commands.{named, lex_last, require_value_lem}
use lokilinux.Workflow.Shell.System.{compile_power, one_argument, compile_sysctl, compile_system}
use lokilinux.Prelude.Int.{ℤ, pos}
use lokilinux.Workflow.Shell.Lexer.{Token, Mode, lex, tokens}
use lokilinux.Workflow.Shell.System.Words.{delay_word, power_tokens, sysctl_tokens}

module _ (other_str : Value → List ℕ) (config : Fields) where
  abbrev pub value_of : String → List ℕ
  unfolding py_str
  value_of key = py_str other_str (get config key)

  -- What a system step does, as the words that the shell reads: each configured value is a word of
  -- its own, or in `sysctl` a side of one.
  pub data IsSystemCommand : List Token → Type 0 where
    reboots :
        (z : ℤ)
        → is_text (get config "action") "reboot" ≡ true
        → py_int (or_else (get config "delay_seconds") (int (pos 5))) ≡ ok z
        → IsSystemCommand (
            named "systemd-run"
            ∷ Token.word (delay_word z)
            ∷ named "systemctl"
            ∷ named "reboot"
            ∷ [])
    powers_off :
        (z : ℤ)
        → is_text (get config "action") "shutdown" ≡ true
        → py_int (or_else (get config "delay_seconds") (int (pos 5))) ≡ ok z
        → IsSystemCommand (
            named "systemd-run"
            ∷ Token.word (delay_word z)
            ∷ named "systemctl"
            ∷ named "poweroff"
            ∷ [])
    sets_hostname :
        is_text (get config "action") "hostname" ≡ true
        → IsSystemCommand
            (named "hostnamectl" ∷ named "set-hostname" ∷ Token.word (value_of "value") ∷ [])
    sets_timezone :
        is_text (get config "action") "timezone" ≡ true
        → IsSystemCommand
            (named "timedatectl" ∷ named "set-timezone" ∷ Token.word (value_of "value") ∷ [])
    sets_parameter :
        is_text (get config "action") "sysctl" ≡ true
        → IsSystemCommand (
            named "sysctl"
            ∷ named "-w"
            ∷ Token.word ((value_of "key" ++ codes "=") ++ value_of "value")
            ∷ [])

  -- A command that the shell reads as one of these.
  pub record IsSystemRead (cmd : List ℕ) : Type 0 where
    pub words : List Token
    pub reads : tokens cmd ≡ some words
    pub does : IsSystemCommand words

  power_cases :
      (verb : String) (cmd : List ℕ)
      → lex Mode.plain none (codes verb) ≡ some (named verb ∷ [])
      → ((z : ℤ)
          → py_int (or_else (get config "delay_seconds") (int (pos 5))) ≡ ok z
          → IsSystemCommand (
              named "systemd-run"
              ∷ Token.word (delay_word z)
              ∷ named "systemctl"
              ∷ named verb
              ∷ []))
      → compile_power config verb ≡ ok cmd
      → IsSystemRead cmd
  unfolding compile_power
  power_cases verb cmd v d h =
      elim (Result-cases (py_int (or_else (get config "delay_seconds") (int (pos 5))))) [
        | inr (e, n) ↦ cc (rw (n, compile_power) at h)
        | inl (z, n) ↦
            subst IsSystemRead (ok_injective _ cmd (rw (n, compile_power) at h))
              (record { words = _; reads = power_tokens z (codes verb) verb v; does = d z n })
      ]

  one_lem :
      (command : List ℕ) (key : String) (cmd : List ℕ)
      → one_argument other_str command config key ≡ ok cmd
      → command ++ quote (value_of key) ≡ cmd
  unfolding one_argument q
  one_lem command key cmd h = elim (Result-cases (require_value config key)) [
    | inr (e, n) ↦ cc (rw (n, one_argument) at h)
    | inl (v, n) ↦
        let k = require_value_lem config key v n in
        rw k (ok_injective _ cmd (rw (n, one_argument) at h))
  ]

  sysctl_lem :
      (cmd : List ℕ)
      → compile_sysctl other_str config ≡ ok cmd
      → codes "sysctl -w " ++ (quote (value_of "key") ++ (codes "=" ++ quote (value_of "value")))
        ≡ cmd
  unfolding compile_sysctl q
  sysctl_lem cmd h = elim (Result-cases (require_value config "key")) [
    | inr (e, n) ↦ cc (rw (n, compile_sysctl) at h)
    | inl (k, n) ↦ elim (Result-cases (require_value config "value")) [
      | inr (e, m) ↦ cc (rw (n, m, compile_sysctl) at h)
      | inl (v, m) ↦
          let a = require_value_lem config "key" k n in
          let b = require_value_lem config "value" v m in
          rw (a, b) (ok_injective _ cmd (rw (n, m, compile_sysctl) at h))
    ]
  ]

  hostname_tokens :
      (v : List ℕ)
      → tokens (codes "hostnamectl set-hostname " ++ quote v)
        ≡ some (named "hostnamectl" ∷ named "set-hostname" ∷ Token.word v ∷ [])
  unfolding tokens lex
  hostname_tokens v = rw (lex_last v) refl

  timezone_tokens :
      (v : List ℕ)
      → tokens (codes "timedatectl set-timezone " ++ quote v)
        ≡ some (named "timedatectl" ∷ named "set-timezone" ∷ Token.word v ∷ [])
  unfolding tokens lex
  timezone_tokens v = rw (lex_last v) refl

  -- The shell reads a command that _compile_system makes as the command of the configured action.
  pub compile_system-IsRead :
      (cmd : List ℕ) → compile_system other_str config ≡ ok cmd → IsSystemRead cmd
  unfolding compile_system lex
  compile_system-IsRead cmd h =
      let action = get config "action" in
      elim (Bool-cases (is_text action "reboot")) [
        | inl a ↦ power_cases "reboot" cmd refl (λ z n. reboots z a n) (rw a at h)
        | inr a ↦ elim (Bool-cases (is_text action "shutdown")) [
          | inl b ↦ power_cases "poweroff" cmd refl (λ z n. powers_off z b n) (rw (a, b) at h)
          | inr b ↦ elim (Bool-cases (is_text action "hostname")) [
            | inl c ↦
                subst IsSystemRead
                  (one_lem (codes "hostnamectl set-hostname ") "value" cmd (rw (a, b, c) at h))
                  (record {
                    words = _;
                    reads = hostname_tokens (value_of "value");
                    does = sets_hostname c;
                  })
            | inr c ↦ elim (Bool-cases (is_text action "timezone")) [
              | inl d ↦
                  subst IsSystemRead
                    (one_lem (codes "timedatectl set-timezone ") "value" cmd (rw (a, b, c, d) at h))
                    (record {
                      words = _;
                      reads = timezone_tokens (value_of "value");
                      does = sets_timezone d;
                    })
              | inr d ↦ elim (Bool-cases (is_text action "sysctl")) [
                | inl e ↦ subst IsSystemRead (sysctl_lem cmd (rw (a, b, c, d, e) at h)) (record {
                  words = _;
                  reads = sysctl_tokens (value_of "key") (value_of "value");
                  does = sets_parameter e;
                })
                | inr e ↦ cc (rw (a, b, c, d, e) at h)
              ]
            ]
          ]
        ]
      ]
