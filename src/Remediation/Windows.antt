-- ===== src/Remediation/Windows.antt =====
-- services/remediation_service.py: `_is_window_open` and `agent_matches_window_scope`.
-- croniter and zoneinfo are outside: a window carries their answer. The entries of a selector that
-- the source reads, and the tags and facts of an agent, are texts or absent.
use lokilinux.Prelude.{
  ℕ, ◌+◌, ◌*◌, String, Bool, true, false, not, ◌&&◌, ◌||◌, Option, none, some, List, if◌then◌else◌,
  leb, is_str, is_some, str_eq, mem_str,
}

pub data Scope : Type 0 where
  global os role environment datacenter cluster application other : Scope

-- `window.scope_selector or {}`: whether it has no entries, whether "all" is True, and its texts.
pub record Selector : Type 0 where
  pub has_none : Bool
  pub has_all : Bool
  pub distro : Option String
  pub version : Option String
  pub role : Option String
  pub environment : Option String
  pub datacenter : Option String
  pub cluster : Option String
  pub application : Option String

-- `previous now`: the last occurrence of the cron expression at `now`; none where croniter or
-- zoneinfo raise.
pub record Window : Type 0 where
  pub scope_type : Scope
  pub scope_selector : Selector
  pub has_cron : Bool
  pub previous : ℕ → Option ℕ
  pub duration_minutes : ℕ
  pub is_enabled : Bool

-- The attributes of an agent that a scope reads.
pub record Agent : Type 0 where
  pub id : ℕ
  pub os_distro : Option String
  pub os_version : Option String
  pub roles : List String
  pub tag_datacenter : Option String
  pub tag_cluster : Option String
  pub fact_datacenter : Option String
  pub fact_cluster : Option String
  pub category_name : Option String
  pub project_name : Option String

-- Microseconds in a minute.
abbrev pub minute : ℕ
minute = 60000000

unfoldable pub is_window_open : Window → ℕ → Bool
is_window_open w now =
    if w.has_cron
    then elim (w.previous now) [
      | none ↦ false
      | some prev ↦ leb prev now && leb now (prev + w.duration_minutes * minute)
    ]
    else false

-- `a == b` for two texts that may be None
abbrev pub same_text : Option String → Option String → Bool
same_text none none = true
same_text none (some t) = false
same_text (some s) o = is_str o s

-- `bool(s)`
abbrev pub is_given : Option String → Bool
is_given none = false
is_given (some s) = not (str_eq s "")

-- `a or b`
abbrev pub text_or : Option String → Option String → Option String
text_or a b = if is_given a then a else b

-- `role in agent_roles`, of a role that is given
abbrev pub has_role : Option String → List String → Bool
has_role none rs = false
has_role (some r) rs = mem_str r rs

unfoldable pub agent_matches_window_scope : Agent → Window → Bool
agent_matches_window_scope a w =
    let sel = w.scope_selector in
    elim w.scope_type [
      | Scope.global ↦ sel.has_none || sel.has_all
      | Scope.os ↦
          same_text sel.distro a.os_distro
          && (not (is_some sel.version) || same_text sel.version a.os_version)
      | Scope.role ↦ is_given sel.role && has_role sel.role a.roles
      | Scope.environment ↦ is_some sel.environment && same_text a.category_name sel.environment
      | Scope.datacenter ↦
          is_given sel.datacenter
          && same_text (text_or a.fact_datacenter a.tag_datacenter) sel.datacenter
      | Scope.cluster ↦
          is_given sel.cluster && same_text (text_or a.fact_cluster a.tag_cluster) sel.cluster
      | Scope.application ↦ is_some sel.application && same_text a.project_name sel.application
      | Scope.other ↦ false
    ]
