-- ===== src/Jobs/Access.antt =====
-- utils/capability_rbac.py: which role may create which job.
use lokilinux.Prelude.{
  Bool, true, false, not, ◌&&◌, Option, none, some, List, [], ◌∷◌, if◌then◌else◌, keep, is_empty,
}
use lokilinux.Python.{
  Value, Items, Fields, dict, list, nil, cons, null, get, has_key, is_text, permission_error,
  Result, ok, raised,
}
use lokilinux.Jobs.Types.{JobType}

-- The role of a caller: the platform's five, `SYSTEM_ROLE`, and any other text or none.
pub data Role : Type 0 where
  viewer manager operator admin auditor system unknown : Role

pub data Capability : Type 0 where
  read_system read_logs service_control package_management file_write : Capability
  security_remediation reboot_host firewall_configuration : Capability
  exec_bash exec_python exec_ansible plugin_install : Capability

abbrev is_staff : Role → Bool
is_staff Role.operator = true
is_staff Role.manager = true
is_staff Role.admin = true
is_staff _ = false

abbrev is_manager : Role → Bool
is_manager Role.manager = true
is_manager Role.admin = true
is_manager _ = false

abbrev is_admin : Role → Bool
is_admin Role.admin = true
is_admin _ = false

abbrev is_platform : Role → Bool
is_platform Role.system = false
is_platform Role.unknown = false
is_platform _ = true

-- `role in CAPABILITY_MIN_ROLES[cap]`; every capability has an entry.
unfoldable pub allowed : Capability → Role → Bool
allowed Capability.read_system r = is_platform r
allowed Capability.read_logs r = is_platform r
allowed Capability.service_control r = is_staff r
allowed Capability.package_management r = is_staff r
allowed Capability.file_write r = is_staff r
allowed Capability.security_remediation r = is_manager r
allowed Capability.reboot_host r = is_manager r
allowed Capability.firewall_configuration r = is_manager r
allowed Capability.exec_bash r = is_admin r
allowed Capability.exec_python r = is_admin r
allowed Capability.exec_ansible r = is_admin r
allowed Capability.plugin_install r = is_admin r

-- `_STEP_TYPE_TO_CAPABILITY.get(st or "")`
unfoldable pub step_capability : Value → Option Capability
step_capability v =
    if is_text v "command"
    then some Capability.exec_bash
    else if is_text v "package"
    then some Capability.package_management
    else if is_text v "service"
    then some Capability.service_control
    else if is_text v "system"
    then some Capability.reboot_host
    else if is_text v "file"
    then some Capability.file_write
    else if is_text v "ansible"
    then some Capability.exec_ansible
    else none

-- `step.get("type") if isinstance(step, dict) else None`
unfoldable pub step_type : Value → Value
step_type (dict fs) = get fs "type"
step_type _ = null

-- The loop over `params["steps"]`, of which each entry's "type" is a text or something falsy.
unfoldable pub steps_capabilities : Items → List Capability
unfolding step_capability step_type
steps_capabilities nil = []
steps_capabilities (cons v vs) =
    let rest = steps_capabilities vs in
    elim (step_capability (step_type v)) [ none ↦ rest | some c ↦ c ∷ rest ]

-- `params.get("steps") or []`, a list or something falsy. (The source raises a TypeError at a number.)
unfoldable pub items_of : Value → Items
items_of (list vs) = vs
items_of _ = nil

-- `required_capabilities`: a set, here a list that may repeat.
unfoldable pub required_capabilities : JobType → Fields → List Capability
unfolding steps_capabilities items_of
required_capabilities JobType.workflow_steps params =
    Capability.exec_bash ∷ steps_capabilities (items_of (get params "steps"))
required_capabilities JobType.heartbeat params = Capability.read_system ∷ []
required_capabilities JobType.file_read params = Capability.read_system ∷ []
required_capabilities JobType.log_read params = Capability.read_logs ∷ []
required_capabilities JobType.inventory_scan params = Capability.read_system ∷ []
required_capabilities JobType.cve_scan params = Capability.read_system ∷ []
required_capabilities JobType.service params = Capability.service_control ∷ []
required_capabilities JobType.file params = Capability.file_write ∷ []
required_capabilities JobType.package_update params = Capability.package_management ∷ []
required_capabilities JobType.security_patch params = Capability.package_management ∷ []
required_capabilities JobType.compliance_remediate params = Capability.security_remediation ∷ []
required_capabilities JobType.remediation params = Capability.security_remediation ∷ []
required_capabilities JobType.reboot params = Capability.reboot_host ∷ []
required_capabilities JobType.firewall_change params = Capability.firewall_configuration ∷ []
required_capabilities JobType.custom_command params = Capability.exec_bash ∷ []
required_capabilities JobType.ansible_playbook params = Capability.exec_ansible ∷ []
required_capabilities JobType.plugin_install params = Capability.plugin_install ∷ []
required_capabilities (JobType.other name) params = Capability.exec_bash ∷ []

-- `unauthorized_capabilities`, unsorted
unfoldable pub unauthorized_capabilities : Role → List Capability → List Capability
unauthorized_capabilities role caps = keep (λ c. not (allowed c role)) caps

abbrev pub is_system : Role → Bool
is_system Role.system = true
is_system _ = false

-- `assert_can_create`
unfoldable pub assert_can_create : Role → JobType → Fields → Result (Unit {0})
unfolding unauthorized_capabilities
assert_can_create role job_type params =
    if is_system role
    then ok tt
    else if is_empty (unauthorized_capabilities role (required_capabilities job_type params))
    then ok tt
    else raised permission_error

-- `job_type in _COMMAND_PARAM_JOB_TYPES`
unfoldable pub is_shell_job : JobType → Bool
is_shell_job JobType.custom_command = true
is_shell_job _ = false

-- `assert_no_smuggled_command`
unfoldable pub assert_no_smuggled_command : JobType → Fields → Result (Unit {0})
unfolding is_shell_job
assert_no_smuggled_command job_type params =
    if has_key params "command" && not (is_shell_job job_type)
    then raised permission_error
    else ok tt
