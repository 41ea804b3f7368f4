-- ===== src/Gateway/Principal.antt =====
-- The roles of security.py and `TelemetryPrincipal` of telemetry_gateway.py. A role is taken after
-- `strip`, `casefold` and the replacement of blanks, which are Python's own.
use text.Mathlib.Text.{◌==◌ as str_eq}
use mikrotik_openvpn_gui.Common.{
  String, Bool, ◌&&◌, ◌||◌, Option, none, some, List, [], ◌∷◌, if◌then◌else◌,
}
use mikrotik_openvpn_gui.Common.Dict.{Dict, lookup, contains}
use mikrotik_openvpn_gui.Gateway.Limits.{among}

abbrev pub role_aliases : Dict String
role_aliases =
    ("operator", "administrator")
    ∷ ("viewer", "read_only")
    ∷ ("read", "read_only")
    ∷ ("readonly", "read_only")
    ∷ ("read-only", "read_only")
    ∷ ("security-operator", "security_operator")
    ∷ ("security", "security_operator")
    ∷ ("audit", "auditor")
    ∷ []

abbrev pub read_capabilities : List String
read_capabilities =
    "health.read" ∷ "users.read" ∷ "profiles.read" ∷ "sessions.read" ∷ "policies.read" ∷ []

abbrev pub auditor_capabilities : List String
auditor_capabilities =
    "health.read" ∷ "users.read" ∷ "profiles.read" ∷ "sessions.read" ∷ "audit.read"
    ∷ "policies.read" ∷ []

abbrev pub administrator_capabilities : List String
administrator_capabilities =
    "health.read" ∷ "users.read" ∷ "profiles.read" ∷ "sessions.read" ∷ "audit.read"
    ∷ "policies.read" ∷ "users.manage" ∷ "profiles.manage" ∷ "policies.manage" ∷ "backup.manage"
    ∷ "session.manage" ∷ "alert.manage" ∷ []

abbrev pub security_operator_capabilities : List String
security_operator_capabilities =
    "health.read" ∷ "users.read" ∷ "profiles.read" ∷ "sessions.read" ∷ "audit.read"
    ∷ "policies.read" ∷ "security.manage" ∷ "device.manage" ∷ "profiles.manage" ∷ "session.manage"
    ∷ []

abbrev pub capability_table : Dict (List String)
capability_table =
    ("owner", "*" ∷ [])
    ∷ ("security_operator", security_operator_capabilities)
    ∷ ("administrator", administrator_capabilities)
    ∷ ("auditor", auditor_capabilities)
    ∷ ("read_only", read_capabilities)
    ∷ []

abbrev pub alias_of : String → String
alias_of candidate = elim (lookup candidate role_aliases) [ none ↦ candidate | some r ↦ r ]

unfoldable pub normalize_role : String → String
normalize_role candidate =
    let role = alias_of candidate in if contains role capability_table then role else "read_only"

unfoldable pub role_capabilities : String → List String
unfolding normalize_role
role_capabilities role = elim (lookup (normalize_role role) capability_table) [
  | none ↦ []
  | some names ↦ names
]

unfoldable pub has_capability : String → String → Bool
unfolding role_capabilities
has_capability role capability =
    let names = role_capabilities role in among "*" names || among capability names

pub record TelemetryPrincipal : Type 0 where
  pub authenticated : Bool
  pub auth_method : String
  pub role : String
  pub capabilities : Option (List String)

unfoldable pub can_read_sessions : TelemetryPrincipal → Bool
unfolding has_capability
can_read_sessions p = elim p.capabilities [
  | some names ↦ among "sessions.read" names || among "*" names
  | none ↦ has_capability p.role "sessions.read"
]

unfoldable pub may_stream : TelemetryPrincipal → Bool
unfolding can_read_sessions
may_stream p = p.authenticated && (str_eq p.auth_method "routeros" && can_read_sessions p)
