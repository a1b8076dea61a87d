-- ===== src/Profile.antt =====
-- internal/domain/profile and internal/domain/capability: the settings that the policies read.
-- Sizes and times are natural numbers.
use lark_bridge_agent_sdk.Base.{
  ℕ, ◌*◌, String, Bool, true, false, Option, List, [], ◌∷◌, ◌==◌, if◌then◌else◌,
}
use lark_bridge_agent_sdk.Permissions.{
  AccessMode, full, other_access, PermissionConfig, PermissionSource,
}

pub data AgentKind : Type 0 where
  agent_claude agent_codex : AgentKind
  other_agent : String → AgentKind

pub record Access : Type 0 where
  pub allowed_users : List String
  pub allowed_chats : List String
  pub admins : List String
  pub require_mention_in_group : Bool

-- `binaryPath` and the provenance fields are carried along and read by no policy.
pub record CodexConfig : Type 0 where
  pub binary_path : String
  pub realpath : String
  pub version : String
  pub sha256 : String
  pub owner : Option ℕ
  pub mode : Option ℕ
  pub codex_home : String
  pub inherit_codex_home : Bool
  pub ignore_user_config : Bool
  pub ignore_rules : Bool

pub record AttachmentConfig : Type 0 where
  pub max_count : ℕ
  pub max_bytes : ℕ
  pub max_file_bytes : ℕ
  pub image_max_bytes : ℕ
  pub cache_ttl_ms : ℕ
  pub cache_max_bytes : ℕ

pub data LarkCliIdentityPreset : Type 0 where
  bot_only user_default : LarkCliIdentityPreset
  other_preset : String → LarkCliIdentityPreset

pub record Config : Type 0 where
  pub schema_version : ℕ
  pub agent_kind : AgentKind
  pub access : Access
  pub default_workspace : String
  pub permissions : PermissionConfig
  pub permission_source : PermissionSource
  pub codex : Option CodexConfig
  pub attachments : AttachmentConfig
  pub identity_preset : LarkCliIdentityPreset

unfoldable pub default_attachment_config : AttachmentConfig
default_attachment_config = record {
  max_count = 10;
  max_bytes = 100 * 1024 * 1024;
  max_file_bytes = 25 * 1024 * 1024;
  image_max_bytes = 25 * 1024 * 1024;
  cache_ttl_ms = 24 * 60 * 60 * 1000;
  cache_max_bytes = 512 * 1024 * 1024;
}

pub data SessionKind : Type 0 where
  claude_session codex_thread : SessionKind

pub data PromptInjectionMode : Type 0 where
  append_system_prompt stdin_prefix : PromptInjectionMode

pub data AgentId : Type 0 where
  id_claude id_codex : AgentId
  other_id : String → AgentId

pub record Callback : Type 0 where
  pub marker : String
  pub legacy_markers : List String

pub record Capability : Type 0 where
  pub agent_id : AgentId
  pub session_kind : SessionKind
  pub prompt_injection : PromptInjectionMode
  pub system_prompt : String
  pub supports_native_history : Bool
  pub callback : Callback
  pub max_access : AccessMode

-- The empty string stands for full access.
unfoldable pub or_full : AccessMode → AccessMode
or_full (other_access s) = if s == "" then full else other_access s
or_full mode = mode

unfoldable pub claude_capability : AccessMode → String → Capability
unfolding or_full
claude_capability max_access system_prompt = record {
  agent_id = id_claude;
  session_kind = claude_session;
  prompt_injection = append_system_prompt;
  system_prompt = system_prompt;
  supports_native_history = true;
  callback = record { marker = "__bridge_cb"; legacy_markers = "__claude_cb" ∷ [] };
  max_access = or_full max_access;
}

unfoldable pub codex_capability : AccessMode → String → Capability
unfolding or_full
codex_capability max_access system_prompt = record {
  agent_id = id_codex;
  session_kind = codex_thread;
  prompt_injection = stdin_prefix;
  system_prompt = system_prompt;
  supports_native_history = false;
  callback = record { marker = "__bridge_cb"; legacy_markers = [] };
  max_access = or_full max_access;
}
