-- ===== src/RunPolicy/Evaluate.antt =====
-- internal/domain/runpolicy/run_policy.go: `Evaluate`.
use lark_bridge_agent_sdk.Base.{
  ℕ, ◌+◌, ◌*◌, String, Bool, true, false, not, ◌&&◌, ◌||◌, Option, none, some, any, ◌==◌, nat_eq,
  Result, ok, err, if◌then◌else◌,
}
use lark_bridge_agent_sdk.Permissions.{AccessMode, PermissionError, CodexSandboxMode, clamp_access}
use lark_bridge_agent_sdk.Permissions.Convert.{
  access_to_codex_sandbox, access_to_claude_permission_mode,
}
use lark_bridge_agent_sdk.Profile.{CodexConfig}
use lark_bridge_agent_sdk.RunPolicy.{
  Source, source_comment, ResourceBindingKind, binding_folder, ResourceBinding,
  AttachmentRequiredness, attachment_required, AttachmentDecision, attachment_accepted,
  AgentAttachment, Input, Evaluation, invalid, rejected, allowed, access_denied,
  folder_allowlist_unverified, required_attachment_rejected,
}
use lark_bridge_agent_sdk.RunPolicy.Fingerprint.{
  Digests, policy_fingerprint, access_policy_digest, resource_scope_digest,
  attachment_policy_config_digest, comment_mention_access_digest,
}

abbrev pub default_ttl : ℕ
default_ttl = 5 * 60 * 1000

abbrev pub is_folder : ResourceBindingKind → Bool
is_folder binding_folder = true
is_folder _ = false

abbrev pub is_required : AttachmentRequiredness → Bool
is_required attachment_required = true
is_required _ = false

abbrev pub is_accepted : AttachmentDecision → Bool
is_accepted attachment_accepted = true
is_accepted _ = false

abbrev pub is_comment : Source → Bool
is_comment source_comment = true
is_comment _ = false

unfoldable pub is_unverified_folder : ResourceBinding → Bool
is_unverified_folder binding = is_folder binding.kind && not binding.verified

unfoldable pub is_missing : AgentAttachment → Bool
is_missing attachment = is_required attachment.requiredness && not (is_accepted attachment.decision)

abbrev home_of : Option CodexConfig → String
home_of none = ""
home_of (some codex) = codex.codex_home

abbrev inherits_of : Option CodexConfig → Bool
inherits_of none = false
inherits_of (some codex) = codex.inherit_codex_home

unfoldable pub access_mode_of : Input → AccessMode
access_mode_of input =
    clamp_access input.profile_config.permissions.default_access
      input.profile_config.permissions.max_access input.capability.max_access

module _ (d : Digests) where
  unfoldable pub access_digest : Input → String
  access_digest input =
      let mention = comment_mention_access_digest input.access in
      if mention == "" || not (is_comment input.scope.source)
      then access_policy_digest d input.profile_config.access
      else mention

  unfoldable pub fingerprint_of : Input → CodexSandboxMode → String
  unfolding access_digest
  fingerprint_of input sandbox = policy_fingerprint d (record {
    cwd_realpath = input.cwd_realpath;
    sandbox = sandbox;
    access_policy_digest = access_digest input;
    resource_scope_digest = resource_scope_digest d input.scope;
    attachment_policy_shape_digest =
        attachment_policy_config_digest d input.profile_config.attachments;
    codex_home =
        if input.codex_home == "" then home_of input.profile_config.codex else input.codex_home;
    inherit_codex_home = input.inherit_codex_home || inherits_of input.profile_config.codex;
  })

  unfoldable pub evaluated : Input → ℕ → Result PermissionError CodexSandboxMode → Evaluation
  unfolding fingerprint_of access_mode_of
  evaluated input now (err e) = invalid
  evaluated input now (ok sandbox) = allowed (record {
    prompt = input.prompt;
    requested_cwd = input.requested_cwd;
    cwd_realpath = input.cwd_realpath;
    access_mode = access_mode_of input;
    sandbox = sandbox;
    permission_mode =
        access_to_claude_permission_mode (access_mode_of input)
          (some input.profile_config.permissions);
    access = input.access;
    attachments = input.attachments;
    policy_fingerprint = fingerprint_of input sandbox;
    expires_at = now + (if nat_eq input.ttl 0 then default_ttl else input.ttl);
  })

  unfoldable pub evaluate : Input → ℕ → Evaluation
  unfolding evaluated is_unverified_folder is_missing
  evaluate input now =
      if not input.access.allowed
      then rejected access_denied
      else if any is_unverified_folder input.scope.resource_bindings
      then rejected folder_allowlist_unverified
      else if any is_missing input.attachments
      then rejected required_attachment_rejected
      else evaluated input now (access_to_codex_sandbox (access_mode_of input))
