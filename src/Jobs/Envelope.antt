-- ===== src/Jobs/Envelope.antt =====
-- services/job_envelope.py: `required_capabilities`, the capabilities that an envelope and an
-- approval claim name. It is not the function of that name in utils/capability_rbac.py, which decides
-- who may create a job.
pub mod Within
use lokilinux.Prelude.{ℕ, true, ◌==◌, Option, none, some, List, [], ◌∷◌, ◌++◌, if◌then◌else◌, any}
use lokilinux.Python.{
  Value, Items, Fields, bool, int, list, dict, nil, cons, field, get, truthy, type_error, Result,
  ok, raised, ◌>>=◌,
}
use lokilinux.Jobs.Types.{JobType}
use lokilinux.Jobs.Access.{Capability, step_capability, step_type}

-- A number for each capability, by which they are compared.
abbrev pub rank : Capability → ℕ
rank Capability.read_system = 0
rank Capability.read_logs = 1
rank Capability.service_control = 2
rank Capability.package_management = 3
rank Capability.file_write = 4
rank Capability.security_remediation = 5
rank Capability.reboot_host = 6
rank Capability.firewall_configuration = 7
rank Capability.exec_bash = 8
rank Capability.exec_python = 9
rank Capability.exec_ansible = 10
rank Capability.plugin_install = 11

-- `_STEP_TYPE_TO_CAP.get(st or "")`: a list or an object cannot be a key.
unfoldable pub step_cap : Value → Result (Option Capability)
unfolding step_capability
step_cap (list (cons v vs)) = raised type_error
step_cap (dict (field k v fs)) = raised type_error
step_cap v = ok (step_capability v)

-- `if cap and cap not in caps: caps.append(cap)`
unfoldable pub append_cap : List Capability → Option Capability → List Capability
append_cap caps none = caps
append_cap caps (some c) = if any (λ d. rank d == rank c) caps then caps else caps ++ c ∷ []

-- The loop over the steps.
unfoldable pub collect_caps : List Capability → Items → Result (List Capability)
unfolding step_cap append_cap step_type
collect_caps caps nil = ok caps
collect_caps caps (cons v vs) = do
  cap ← step_cap (step_type v)
  collect_caps (append_cap caps cap) vs

-- `params.get("steps") or []`, as the loop runs through it: the entries of a text and of an object
-- are texts, which give nothing; a number cannot be run through.
unfoldable pub steps_of : Value → Result Items
steps_of (list vs) = ok vs
steps_of (bool true) = raised type_error
steps_of (int z) = if truthy (int z) then raised type_error else ok nil
steps_of _ = ok nil

-- `caps or ["EXEC_BASH"]`
unfoldable pub or_bash : List Capability → List Capability
or_bash [] = Capability.exec_bash ∷ []
or_bash (c ∷ cs) = c ∷ cs

-- `_CAPABILITY_REGISTRY`: the job types that are missing in it demand nothing.
unfoldable pub required_capabilities : JobType → Fields → Result (List Capability)
unfolding collect_caps steps_of or_bash
required_capabilities JobType.workflow_steps params = do
  steps ← steps_of (get params "steps")
  caps ← collect_caps [] steps
  ok (or_bash caps)
required_capabilities JobType.heartbeat params = ok (Capability.read_system ∷ [])
required_capabilities JobType.file_read params = ok (Capability.read_system ∷ [])
required_capabilities JobType.log_read params = ok (Capability.read_logs ∷ [])
required_capabilities JobType.service params = ok (Capability.service_control ∷ [])
required_capabilities JobType.file params = ok (Capability.file_write ∷ [])
required_capabilities JobType.package_update params = ok (Capability.package_management ∷ [])
required_capabilities JobType.compliance_remediate params =
    ok (Capability.security_remediation ∷ [])
required_capabilities JobType.firewall_change params = ok (Capability.firewall_configuration ∷ [])
required_capabilities JobType.reboot params = ok (Capability.reboot_host ∷ [])
required_capabilities JobType.custom_command params = ok (Capability.exec_bash ∷ [])
required_capabilities JobType.ansible_playbook params = ok (Capability.exec_ansible ∷ [])
required_capabilities JobType.plugin_install params = ok (Capability.plugin_install ∷ [])
required_capabilities JobType.inventory_scan params = ok []
required_capabilities JobType.cve_scan params = ok []
required_capabilities JobType.security_patch params = ok []
required_capabilities JobType.remediation params = ok []
required_capabilities (JobType.other name) params = ok []
