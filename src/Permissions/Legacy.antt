-- ===== src/Permissions/Legacy.antt =====
-- internal/domain/permissions: the conversions between the two formats are inverse to one another.
use lark_bridge_agent_sdk.Base.{Option, ◌>>=◌, ◌≡◌, none, some, arith, ok}
use lark_bridge_agent_sdk.Permissions.{
  from_permissions, from_sandbox, ClaudePermissionConfig, PermissionConfig,
  PartialClaudePermissionConfig, PartialPermissionConfig, LegacySandbox, LegacySandboxInput,
  access_order, is_access_mode, assert_access_pair,
}
use lark_bridge_agent_sdk.Permissions.Convert.{permissions_to_legacy_sandbox}
use lark_bridge_agent_sdk.Permissions.Normalise.{
  normalize_permissions, normalize_base, normalize_over, default_permissions, has_legacy_sandbox,
  normalize_legacy_sandbox_permissions, normalize_canonical_permissions, checked_access,
  check_claude, normalize_claude_permissions,
}
use lark_bridge_agent_sdk.Permissions.Bounds.{IsValid}

-- A printed legacy sandbox read back as a configuration file.
abbrev pub legacy_input : LegacySandbox → LegacySandboxInput
legacy_input s = record {
  default = some s.default;
  max = some s.max;
  default_mode = some s.default_mode;
  max_mode = some s.max_mode;
}

-- A valid configuration that is printed as a legacy sandbox and normalised again has the same two
-- access modes; only its Claude override is lost.
pub legacy_sandbox_roundtrip :
    (c : PermissionConfig)
    → IsValid c
    → (permissions_to_legacy_sandbox c >>= λ s.
        normalize_permissions (record { permissions = none; sandbox = some (legacy_input s) }))
      ≡ ok (record { permissions = record c { claude = none }; source = from_sandbox })
unfolding permissions_to_legacy_sandbox normalize_permissions normalize_base normalize_over
    has_legacy_sandbox normalize_legacy_sandbox_permissions is_access_mode access_order
legacy_sandbox_roundtrip c v = ground arith

abbrev pub partial_claude : Option ClaudePermissionConfig → Option PartialClaudePermissionConfig
partial_claude none = none
partial_claude (some k) = some (record { permission_mode = some k.permission_mode })

-- A configuration written out in full.
abbrev pub full_input : PermissionConfig → PartialPermissionConfig
full_input c = record {
  default_access = some c.default_access;
  max_access = some c.max_access;
  claude = partial_claude c.claude;
}

-- A valid configuration written out in full is a fixed point of the normalisation.
pub normalize_permissions-full_input :
    (c : PermissionConfig)
    → IsValid c
    → normalize_permissions (record { permissions = some (full_input c); sandbox = none })
      ≡ ok (record { permissions = c; source = from_permissions })
unfolding normalize_permissions normalize_base normalize_over default_permissions
    normalize_canonical_permissions checked_access check_claude normalize_claude_permissions
    is_access_mode access_order assert_access_pair
normalize_permissions-full_input c v = ground arith
