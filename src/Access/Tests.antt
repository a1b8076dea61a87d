-- ===== src/Access/Tests.antt =====
-- internal/domain/access: a profile with one user, one chat and one admin.
use lark_bridge_agent_sdk.Base.{true, none, [], ◌∷◌}
use lark_bridge_agent_sdk.Permissions.{full, from_default}
use lark_bridge_agent_sdk.Profile.{Config, agent_codex, bot_only}
use lark_bridge_agent_sdk.Access.{RuntimeControls, refresh_ok}

abbrev team : Config
team = record {
  schema_version = 2;
  agent_kind = agent_codex;
  access = record {
    allowed_users = "ou_user" ∷ [];
    allowed_chats = "oc_team" ∷ [];
    admins = "ou_admin" ∷ [];
    require_mention_in_group = true;
  };
  default_workspace = "";
  permissions = record { default_access = full; max_access = full; claude = none };
  permission_source = from_default;
  codex = none;
  attachments = record {
    max_count = 10;
    max_bytes = 1000;
    max_file_bytes = 100;
    image_max_bytes = 100;
    cache_ttl_ms = 1000;
    cache_max_bytes = 1000;
  };
  identity_preset = bot_only;
}

abbrev controls : RuntimeControls
controls = record {
  bot_owner_id = "ou_owner";
  owner_refresh_state = refresh_ok;
  owner_refreshed_at = 1;
  owner_refresh_error = "";
}
