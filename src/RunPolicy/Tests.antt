-- ===== src/RunPolicy/Tests.antt =====
-- internal/domain/runpolicy: a request in a chat, whose default access exceeds the maximum.
use lark_bridge_agent_sdk.Base.{
  none, some, ◌≤◌, ◌<◌, ◌≡◌, refl, true, false, ok, [], ◌∷◌, any, arith,
}
use lark_bridge_agent_sdk.Permissions.{
  workspace, full, workspace_write, access_order, access_of_mode, clamp_access, is_access_mode,
}
use lark_bridge_agent_sdk.Permissions.Bounds.{IsValid}
use lark_bridge_agent_sdk.Permissions.Convert.{
  access_to_codex_sandbox, access_to_claude_permission_mode,
}
use lark_bridge_agent_sdk.RunPolicy.{Input, Allow}
use lark_bridge_agent_sdk.RunPolicy.Evaluate.{
  is_unverified_folder, is_missing, access_mode_of, fingerprint_of, evaluated, evaluate,
}
use lark_bridge_agent_sdk.RunPolicy.Laws.{evaluate-allowed}
use lark_bridge_agent_sdk.Samples.{profile, agent, chat, picture, known_user, toy_digests}

abbrev request : Input
request = record {
  scope = chat;
  attachments = picture ∷ [];
  prompt = "hello";
  requested_cwd = "/work";
  cwd_realpath = "/work";
  access = known_user;
  capability = agent;
  profile_config = record profile {
    permissions = record { default_access = workspace; max_access = full; claude = none };
  };
  codex_home = "";
  inherit_codex_home = false;
  ttl = 0;
}

abbrev policy : Allow
policy = record {
  prompt = "hello";
  requested_cwd = "/work";
  cwd_realpath = "/work";
  access_mode = workspace;
  sandbox = workspace_write;
  permission_mode =
      access_to_claude_permission_mode workspace (some request.profile_config.permissions);
  access = known_user;
  attachments = picture ∷ [];
  policy_fingerprint = fingerprint_of toy_digests request workspace_write;
  expires_at = 300100;
}

evaluate-allowed_example :
    (known_user.allowed ≡ true)
    × (any is_unverified_folder chat.resource_bindings ≡ false)
    × (any is_missing (picture ∷ []) ≡ false)
    × (access_order workspace ≤ access_order workspace)
    × (access_order workspace ≤ access_order full)
    × (access_order workspace ≤ access_order full)
    × (access_to_codex_sandbox workspace ≡ ok workspace_write)
    × (access_order (access_of_mode policy.permission_mode) ≤ access_order workspace)
    × (100 < 300100)
unfolding evaluate any is_unverified_folder is_missing evaluated access_mode_of
    access_to_codex_sandbox clamp_access access_order
evaluate-allowed_example = evaluate-allowed toy_digests request 100 policy refl

request-IsValid : IsValid request.profile_config.permissions
unfolding is_access_mode access_order
request-IsValid = ground arith
