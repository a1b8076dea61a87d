-- ===== src/RunPolicy/Fingerprint.antt =====
-- internal/domain/runpolicy/fingerprint.go: digests of what a policy depends on. `sha` is the
-- shortened SHA-256 of a text, in base64, and `itoa` the decimal text of a number.
use lark_bridge_agent_sdk.Base.{ℕ, String, Bool, List, [], ◌∷◌, ◌==◌, if◌then◌else◌}
use lark_bridge_agent_sdk.Base.Json.{
  Json, Items, null, bool, num, str, arr, obj, no_items, item, no_fields, field,
}
use lark_bridge_agent_sdk.Access.{Decision, comment_mention}
use lark_bridge_agent_sdk.Permissions.{
  CodexSandboxMode, sandbox_read_only, workspace_write, danger_full_access, other_sandbox,
}
use lark_bridge_agent_sdk.Profile.{Access, AttachmentConfig}
use lark_bridge_agent_sdk.RunPolicy.{
  Source, source_im, source_card, source_comment, other_source, ResourceBinding, ScopeContext,
}
use lark_bridge_agent_sdk.RunPolicy.Canonical.{sorted_strings, canonicalize_jcs}

-- The standard library's part.
pub record Digests : Type 0 where
  pub quote : String → String
  pub sha : String → String
  pub itoa : ℕ → String

pub record FingerprintInput : Type 0 where
  pub cwd_realpath : String
  pub sandbox : CodexSandboxMode
  pub access_policy_digest : String
  pub resource_scope_digest : String
  pub attachment_policy_shape_digest : String
  pub codex_home : String
  pub inherit_codex_home : Bool

abbrev pub sandbox_text : CodexSandboxMode → String
sandbox_text sandbox_read_only = "read-only"
sandbox_text workspace_write = "workspace-write"
sandbox_text danger_full_access = "danger-full-access"
sandbox_text (other_sandbox s) = s

abbrev pub source_text : Source → String
source_text source_im = "im"
source_text source_card = "card"
source_text source_comment = "comment"
source_text (other_source s) = s

abbrev pub nullable_string : String → Json
nullable_string s = if s == "" then null else str s

abbrev pub strings : List String → Items
strings [] = no_items
strings (s ∷ ss) = item (str s) (strings ss)

abbrev pub binding_ids : List ResourceBinding → List String
binding_ids [] = []
binding_ids (binding ∷ bindings) = binding.id ∷ binding_ids bindings

unfoldable pub fingerprint_json : FingerprintInput → Json
fingerprint_json input = obj (
    field "version" (num "2") (
      field "cwdRealpath" (str input.cwd_realpath) (
        field "sandbox" (str (sandbox_text input.sandbox)) (
          field "accessPolicyDigest" (str input.access_policy_digest) (
            field "resourceScopeDigest" (str input.resource_scope_digest) (
              field "attachmentPolicyShapeDigest" (str input.attachment_policy_shape_digest) (
                field "codexHome" (nullable_string input.codex_home)
                  (field "inheritCodexHome" (bool input.inherit_codex_home) no_fields))))))))

module _ (d : Digests) where
  unfoldable pub digest_canonical : Json → String
  digest_canonical value = d.sha (canonicalize_jcs d.quote value)

  unfoldable pub policy_fingerprint : FingerprintInput → String
  unfolding fingerprint_json
  policy_fingerprint input = digest_canonical (fingerprint_json input)

  unfoldable pub access_policy_digest : Access → String
  access_policy_digest input = digest_canonical (
      obj (
        field "admins" (arr (strings (sorted_strings input.admins))) (
          field "allowedChats" (arr (strings (sorted_strings input.allowed_chats))) (
            field "allowedUsers" (arr (strings (sorted_strings input.allowed_users)))
              (field "requireMentionInGroup" (bool input.require_mention_in_group) no_fields)))))

  unfoldable pub resource_scope_digest : ScopeContext → String
  resource_scope_digest input = digest_canonical (
      obj (
        field "source" (str (source_text input.source)) (
          field "chatId" (nullable_string input.chat_id) (
            field "threadId" (nullable_string input.thread_id) (
              field "commentScopeId" (nullable_string input.comment_scope_id) (
                field "resourceBindings"
                  (arr (strings (sorted_strings (binding_ids input.resource_bindings))))
                  no_fields))))))

  unfoldable pub attachment_policy_config_digest : AttachmentConfig → String
  attachment_policy_config_digest input = digest_canonical (
      obj (
        field "maxCount" (num (d.itoa input.max_count)) (
          field "maxBytes" (num (d.itoa input.max_bytes)) (
            field "maxFileBytes" (num (d.itoa input.max_file_bytes))
              (field "imageMaxBytes" (num (d.itoa input.image_max_bytes)) no_fields)))))

unfoldable pub comment_mention_access_digest : Decision → String
comment_mention_access_digest decision = elim decision.reason [
  | comment_mention ↦ "comment-mention"
  | _ ↦ ""
]
