-- ===== src/Permissions.antt =====
-- internal/domain/permissions: access modes, the sandbox and Claude modes that they stand for, and
-- the normalisation of the two configuration formats. Go's string types become data types whose
-- last constructor is any string that is not one of the named constants, the empty one included.
pub mod Convert
pub mod Normalise
pub mod Bounds
pub mod Legacy
mod Tests
use lark_bridge_agent_sdk.Base.{
  ℕ, ◌+◌, ◌≤◌, ◌≡◌, String, Bool, true, false, Option, none, some, arith, leb, ltb, if◌then◌else◌,
  Result, ok, err,
}

pub data AccessMode : Type 0 where
  read_only workspace full : AccessMode
  other_access : String → AccessMode

pub data CodexSandboxMode : Type 0 where
  sandbox_read_only workspace_write danger_full_access : CodexSandboxMode
  other_sandbox : String → CodexSandboxMode

pub data ClaudePermissionMode : Type 0 where
  default_mode accept_edits bypass_permissions plan : ClaudePermissionMode
  other_permission : String → ClaudePermissionMode

pub data PermissionSource : Type 0 where
  from_permissions from_sandbox from_default : PermissionSource

pub record ClaudePermissionConfig : Type 0 where
  pub permission_mode : ClaudePermissionMode

pub record PermissionConfig : Type 0 where
  pub default_access : AccessMode
  pub max_access : AccessMode
  pub claude : Option ClaudePermissionConfig

pub record PartialClaudePermissionConfig : Type 0 where
  pub permission_mode : Option ClaudePermissionMode

pub record PartialPermissionConfig : Type 0 where
  pub default_access : Option AccessMode
  pub max_access : Option AccessMode
  pub claude : Option PartialClaudePermissionConfig

pub record LegacySandboxInput : Type 0 where
  pub default : Option CodexSandboxMode
  pub max : Option CodexSandboxMode
  pub default_mode : Option CodexSandboxMode
  pub max_mode : Option CodexSandboxMode

pub record LegacySandbox : Type 0 where
  pub default : CodexSandboxMode
  pub max : CodexSandboxMode
  pub default_mode : CodexSandboxMode
  pub max_mode : CodexSandboxMode

pub record NormalizeInput : Type 0 where
  pub permissions : Option PartialPermissionConfig
  pub sandbox : Option LegacySandboxInput

pub record NormalizedPermissions : Type 0 where
  pub permissions : PermissionConfig
  pub source : PermissionSource

-- The messages of `fmt.Errorf`, one constructor each.
pub data PermissionError : Type 0 where
  invalid_default_access invalid_max_access : PermissionError
  default_exceeds_max : PermissionSource → PermissionError
  invalid_sandbox invalid_access invalid_max_mode invalid_default_mode : PermissionError
  invalid_claude_mode claude_exceeds_max : PermissionError

-- `accessOrder[mode]`: a mode that is not in the map reads as 0.
unfoldable pub access_order : AccessMode → ℕ
access_order read_only = 0
access_order workspace = 1
access_order full = 2
access_order (other_access s) = 0

unfoldable pub is_access_mode : AccessMode → Bool
is_access_mode (other_access s) = false
is_access_mode _ = true

pub is_codex_sandbox_mode : CodexSandboxMode → Bool
is_codex_sandbox_mode (other_sandbox s) = false
is_codex_sandbox_mode _ = true

-- `claudePermissionAccess`, with `none` for a mode that is not in the map.
pub claude_permission_access : ClaudePermissionMode → Option AccessMode
claude_permission_access plan = some read_only
claude_permission_access default_mode = some workspace
claude_permission_access accept_edits = some workspace
claude_permission_access bypass_permissions = some full
claude_permission_access (other_permission s) = none

pub is_claude_permission_mode : ClaudePermissionMode → Bool
unfolding claude_permission_access
is_claude_permission_mode mode = elim (claude_permission_access mode) [
  | none ↦ false
  | some a ↦ true
]

-- The empty string is what Go reads for a mode that is not in the map.
pub access_of_mode : ClaudePermissionMode → AccessMode
unfolding claude_permission_access
access_of_mode mode = elim (claude_permission_access mode) [ none ↦ other_access "" | some a ↦ a ]

pub assert_access_pair :
    AccessMode → AccessMode → PermissionSource → Result PermissionError (Unit {0})
unfolding is_access_mode access_order
assert_access_pair default_access max_access source =
    if is_access_mode default_access
    then (if is_access_mode max_access
        then (if ltb (access_order max_access) (access_order default_access)
            then err (default_exceeds_max source)
            else ok tt)
        else err invalid_max_access)
    else err invalid_default_access

unfoldable pub clamp_access : AccessMode → AccessMode → AccessMode → AccessMode
unfolding access_order
clamp_access default_access profile_max capability_max =
    let max_allowed =
      if ltb (access_order capability_max) (access_order profile_max)
      then capability_max
      else profile_max in
    if leb (access_order default_access) (access_order max_allowed)
    then default_access
    else max_allowed
