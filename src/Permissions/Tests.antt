-- ===== src/Permissions/Tests.antt =====
-- internal/domain/permissions: runs at concrete configurations.
use lark_bridge_agent_sdk.Base.{◌≡◌, refl, none, some, arith, ok}
use lark_bridge_agent_sdk.Permissions.{
  read_only, workspace, plan, accept_edits, from_permissions, PermissionConfig, NormalizeInput,
  access_order, access_of_mode, is_access_mode, assert_access_pair, is_claude_permission_mode,
}
use lark_bridge_agent_sdk.Permissions.Normalise.{
  normalize_permissions, normalize_base, normalize_over, normalize_canonical_permissions,
  normalize_claude_permissions, checked_access, check_claude, default_permissions,
}
use lark_bridge_agent_sdk.Permissions.Bounds.{IsValid, normalize_permissions-IsValid}

abbrev guarded : PermissionConfig
guarded = record {
  default_access = read_only;
  max_access = workspace;
  claude = some (record { permission_mode = accept_edits });
}

guarded-IsValid : IsValid guarded
unfolding is_access_mode access_order is_claude_permission_mode access_of_mode
guarded-IsValid = ground arith

abbrev lowering : NormalizeInput
lowering = record {
  permissions = some (record {
    default_access = none;
    max_access = some workspace;
    claude = some (record { permission_mode = some plan });
  });
  sandbox = none;
}

lowered_default :
    normalize_permissions lowering
    ≡ ok (record {
      permissions = record {
        default_access = workspace;
        max_access = workspace;
        claude = some (record { permission_mode = plan });
      };
      source = from_permissions;
    })
unfolding normalize_permissions normalize_base normalize_over normalize_canonical_permissions
    normalize_claude_permissions checked_access check_claude default_permissions access_order
    assert_access_pair is_access_mode
lowered_default = refl

normalize_permissions-IsValid_example : IsValid (record {
  default_access = workspace;
  max_access = workspace;
  claude = some (record { permission_mode = plan });
})
normalize_permissions-IsValid_example = normalize_permissions-IsValid lowering _ lowered_default
