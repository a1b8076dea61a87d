-- ===== src/Permissions/Convert.antt =====
-- internal/domain/permissions: the conversions between access modes and the agents' own modes.
use lark_bridge_agent_sdk.Base.{Option, none, some, leb, if◌then◌else◌, Result, ok, err, ◌>>=◌}
use lark_bridge_agent_sdk.Permissions.{
  AccessMode, read_only, workspace, full, other_access, CodexSandboxMode, sandbox_read_only,
  workspace_write, danger_full_access, other_sandbox, ClaudePermissionMode, accept_edits,
  bypass_permissions, plan, ClaudePermissionConfig, PermissionConfig, LegacySandbox,
  PermissionError, invalid_sandbox, invalid_access, access_order, claude_permission_access,
}

unfoldable pub codex_sandbox_to_access : CodexSandboxMode → Result PermissionError AccessMode
codex_sandbox_to_access sandbox_read_only = ok read_only
codex_sandbox_to_access workspace_write = ok workspace
codex_sandbox_to_access danger_full_access = ok full
codex_sandbox_to_access (other_sandbox s) = err invalid_sandbox

unfoldable pub access_to_codex_sandbox : AccessMode → Result PermissionError CodexSandboxMode
access_to_codex_sandbox read_only = ok sandbox_read_only
access_to_codex_sandbox workspace = ok workspace_write
access_to_codex_sandbox full = ok danger_full_access
access_to_codex_sandbox (other_access s) = err invalid_access

unfoldable pub access_to_default_claude_permission_mode : AccessMode → ClaudePermissionMode
access_to_default_claude_permission_mode read_only = plan
access_to_default_claude_permission_mode workspace = accept_edits
access_to_default_claude_permission_mode full = bypass_permissions
access_to_default_claude_permission_mode (other_access s) = plan

-- The test on the override that a configuration carries.
claude_override : AccessMode → ClaudePermissionMode → Option AccessMode → ClaudePermissionMode
unfolding access_order access_to_default_claude_permission_mode
claude_override access override none = access_to_default_claude_permission_mode access
claude_override access override (some override_access) =
    if leb (access_order override_access) (access_order access)
    then override
    else access_to_default_claude_permission_mode access

claude_override_of : AccessMode → Option ClaudePermissionConfig → ClaudePermissionMode
unfolding claude_override claude_permission_access
claude_override_of access none = access_to_default_claude_permission_mode access
claude_override_of access (some claude) =
    claude_override access claude.permission_mode (claude_permission_access claude.permission_mode)

-- `none` is the nil pointer.
unfoldable pub access_to_claude_permission_mode :
    AccessMode → Option PermissionConfig → ClaudePermissionMode
unfolding claude_override_of
access_to_claude_permission_mode access none = access_to_default_claude_permission_mode access
access_to_claude_permission_mode access (some permissions) =
    claude_override_of access permissions.claude

unfoldable pub permissions_to_legacy_sandbox :
    PermissionConfig → Result PermissionError LegacySandbox
unfolding access_to_codex_sandbox
permissions_to_legacy_sandbox permissions = do
  default_mode ← access_to_codex_sandbox permissions.default_access
  max_mode ← access_to_codex_sandbox permissions.max_access
  ok (record {
    default = default_mode;
    max = max_mode;
    default_mode = default_mode;
    max_mode = max_mode;
  })
