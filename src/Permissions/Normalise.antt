-- ===== src/Permissions/Normalise.antt =====
-- internal/domain/permissions: `NormalizePermissions` and the helpers of the two formats.
use lark_bridge_agent_sdk.Base.{
  Bool, false, ◌||◌, Option, none, some, ltb, if◌then◌else◌, is_some, Result, ok, err, ◌>>=◌, ◌>>◌,
}
use lark_bridge_agent_sdk.Permissions.{
  AccessMode, full, CodexSandboxMode, danger_full_access, ClaudePermissionMode, from_permissions,
  from_sandbox, from_default, ClaudePermissionConfig, PermissionConfig,
  PartialClaudePermissionConfig, PartialPermissionConfig, LegacySandboxInput, NormalizeInput,
  NormalizedPermissions, PermissionError, invalid_default_access, invalid_max_access,
  invalid_max_mode, invalid_default_mode, invalid_claude_mode, claude_exceeds_max, access_order,
  is_access_mode, is_codex_sandbox_mode, is_claude_permission_mode, access_of_mode,
  assert_access_pair,
}
use lark_bridge_agent_sdk.Permissions.Convert.{codex_sandbox_to_access}

unfoldable pub default_permissions : PermissionConfig
default_permissions = record { default_access = full; max_access = full; claude = none }

unfoldable pub assert_claude_permission_within_access :
    ClaudePermissionMode → AccessMode → Result PermissionError (Unit {0})
unfolding access_order access_of_mode
assert_claude_permission_within_access mode max_access =
    if ltb (access_order max_access) (access_order (access_of_mode mode))
    then err claude_exceeds_max
    else ok tt

unfoldable pub normalize_claude_mode :
    Option ClaudePermissionMode → Result PermissionError (Option ClaudePermissionConfig)
unfolding is_claude_permission_mode
normalize_claude_mode none = ok none
normalize_claude_mode (some mode) =
    if is_claude_permission_mode mode
    then ok (some (record { permission_mode = mode }))
    else err invalid_claude_mode

unfoldable pub normalize_claude_permissions :
    Option PartialClaudePermissionConfig → Result PermissionError (Option ClaudePermissionConfig)
unfolding normalize_claude_mode
normalize_claude_permissions none = ok none
normalize_claude_permissions (some input) = normalize_claude_mode input.permission_mode

-- An explicit access mode must be one of the three; without one the second argument counts.
unfoldable pub checked_access :
    PermissionError → Option AccessMode → AccessMode → Result PermissionError AccessMode
unfolding is_access_mode
checked_access e none fallback = ok fallback
checked_access e (some mode) fallback = if is_access_mode mode then ok mode else err e

unfoldable pub check_claude :
    Option ClaudePermissionConfig → AccessMode → Result PermissionError (Unit {0})
unfolding assert_claude_permission_within_access
check_claude none max_access = ok tt
check_claude (some claude) max_access =
    assert_claude_permission_within_access claude.permission_mode max_access

unfoldable pub normalize_canonical_permissions :
    PartialPermissionConfig → PermissionConfig → Result PermissionError PermissionConfig
normalize_canonical_permissions input base = do
  max_access ← checked_access invalid_max_access input.max_access base.max_access
  let lowered =
      if ltb (access_order max_access) (access_order base.default_access)
      then max_access
      else base.default_access
  default_access ← checked_access invalid_default_access input.default_access lowered
  assert_access_pair default_access max_access from_permissions
  claude ← normalize_claude_permissions input.claude
  check_claude claude max_access
  ok (record { default_access = default_access; max_access = max_access; claude = claude })

-- The first mode that is given, checked; the last argument if none is.
unfoldable pub pick_mode :
    PermissionError
    → Option CodexSandboxMode
    → Option CodexSandboxMode
    → CodexSandboxMode
    → Result PermissionError CodexSandboxMode
unfolding is_codex_sandbox_mode
pick_mode e (some mode) second fallback = if is_codex_sandbox_mode mode then ok mode else err e
pick_mode e none (some mode) fallback = if is_codex_sandbox_mode mode then ok mode else err e
pick_mode e none none fallback = ok fallback

unfoldable pub normalize_legacy_sandbox_permissions :
    LegacySandboxInput → Result PermissionError PermissionConfig
unfolding pick_mode codex_sandbox_to_access assert_access_pair
normalize_legacy_sandbox_permissions input = do
  max_mode ← pick_mode invalid_max_mode input.max input.max_mode danger_full_access
  default_mode ← pick_mode invalid_default_mode input.default input.default_mode max_mode
  default_access ← codex_sandbox_to_access default_mode
  max_access ← codex_sandbox_to_access max_mode
  assert_access_pair default_access max_access from_sandbox
  ok (record { default_access = default_access; max_access = max_access; claude = none })

unfoldable pub has_legacy_sandbox : Option LegacySandboxInput → Bool
has_legacy_sandbox none = false
has_legacy_sandbox (some input) =
    is_some input.default
    || is_some input.max
    || is_some input.default_mode
    || is_some input.max_mode

-- The base that the canonical format starts from.
unfoldable pub normalize_base : Option LegacySandboxInput → Result PermissionError PermissionConfig
normalize_base none = ok default_permissions
normalize_base (some input) =
    if has_legacy_sandbox (some input)
    then normalize_legacy_sandbox_permissions input
    else ok default_permissions

unfoldable pub normalize_over :
    Bool
    → Option PartialPermissionConfig
    → PermissionConfig
    → Result PermissionError NormalizedPermissions
normalize_over has_sandbox (some input) base = do
  normalized ← normalize_canonical_permissions input base
  ok (record { permissions = normalized; source = from_permissions })
normalize_over has_sandbox none base =
    ok (record { permissions = base; source = if has_sandbox then from_sandbox else from_default })

unfoldable pub normalize_permissions : NormalizeInput → Result PermissionError NormalizedPermissions
normalize_permissions input = do
  base ← normalize_base input.sandbox
  normalize_over (has_legacy_sandbox input.sandbox) input.permissions base
