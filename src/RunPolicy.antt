-- ===== src/RunPolicy.antt =====
-- internal/domain/runpolicy: what a run may do, or why it may not start. Times are milliseconds;
-- the zero time to live stands for every one that is not positive.
mod Canonical
pub mod Fingerprint
pub mod Evaluate
pub mod Laws
mod Tests
use lark_bridge_agent_sdk.Base.{ℕ, String, Bool, List}
use lark_bridge_agent_sdk.Access.{Decision}
use lark_bridge_agent_sdk.Permissions.{AccessMode, CodexSandboxMode, ClaudePermissionMode}
use lark_bridge_agent_sdk.Profile.{Config, Capability}

pub data Source : Type 0 where
  source_im source_card source_comment : Source
  other_source : String → Source

pub data ResourceBindingKind : Type 0 where
  binding_doc binding_folder : ResourceBindingKind
  other_binding : String → ResourceBindingKind

pub record ResourceBinding : Type 0 where
  pub kind : ResourceBindingKind
  pub id : String
  pub verified : Bool

pub record ScopeContext : Type 0 where
  pub source : Source
  pub chat_id : String
  pub thread_id : String
  pub actor_id : String
  pub comment_scope_id : String
  pub resource_bindings : List ResourceBinding

pub data AttachmentRequiredness : Type 0 where
  attachment_required attachment_optional : AttachmentRequiredness
  other_requiredness : String → AttachmentRequiredness

pub data AttachmentDecision : Type 0 where
  attachment_accepted attachment_rejected attachment_skipped : AttachmentDecision
  other_decision : String → AttachmentDecision

pub record AgentAttachment : Type 0 where
  pub kind : String
  pub requiredness : AttachmentRequiredness
  pub decision : AttachmentDecision
  pub rejection_reason : String
  pub original_name : String
  pub size : ℕ
  pub hash : String
  pub path : String

pub data RejectCode : Type 0 where
  access_denied folder_allowlist_unverified required_attachment_rejected : RejectCode

pub record Input : Type 0 where
  pub scope : ScopeContext
  pub attachments : List AgentAttachment
  pub prompt : String
  pub requested_cwd : String
  pub cwd_realpath : String
  pub access : Decision
  pub capability : Capability
  pub profile_config : Config
  pub codex_home : String
  pub inherit_codex_home : Bool
  pub ttl : ℕ

pub record Allow : Type 0 where
  pub prompt : String
  pub requested_cwd : String
  pub cwd_realpath : String
  pub access_mode : AccessMode
  pub sandbox : CodexSandboxMode
  pub permission_mode : ClaudePermissionMode
  pub access : Decision
  pub attachments : List AgentAttachment
  pub policy_fingerprint : String
  pub expires_at : ℕ

-- The outcomes of `Evaluate`: its error, a rejection, or a policy.
pub data Evaluation : Type 0 where
  invalid : Evaluation
  rejected : RejectCode → Evaluation
  allowed : Allow → Evaluation
