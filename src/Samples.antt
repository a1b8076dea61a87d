-- ===== src/Samples.antt =====
-- Concrete values that the Tests modules of several components share: a team's profile, its agent
-- and an idle executor.
use Prim.Native.String
use lark_bridge_agent_sdk.Base.{true, false, none, some, [], ◌∷◌}
use lark_bridge_agent_sdk.Base.{String}
use lark_bridge_agent_sdk.Base.Json.{null}
use lark_bridge_agent_sdk.CardState.{EventType, Event, text, other_phase, normal}
use lark_bridge_agent_sdk.Permissions.{full, workspace, from_default}
use lark_bridge_agent_sdk.Profile.{
  Config, Capability, agent_claude, bot_only, id_claude, claude_session, append_system_prompt,
}
use lark_bridge_agent_sdk.Access.{Decision, allowed_user}
use lark_bridge_agent_sdk.RunPolicy.{
  ScopeContext, AgentAttachment, source_im, binding_doc, attachment_required, attachment_accepted,
}
use lark_bridge_agent_sdk.RunPolicy.Fingerprint.{Digests}
use lark_bridge_agent_sdk.Execution.Submit.{Env, World}

abbrev pub profile : Config
profile = record {
  schema_version = 2;
  agent_kind = agent_claude;
  access = record {
    allowed_users = "ou_b" ∷ "ou_a" ∷ [];
    allowed_chats = [];
    admins = [];
    require_mention_in_group = true;
  };
  default_workspace = "/work";
  permissions = record { default_access = full; max_access = workspace; claude = none };
  permission_source = from_default;
  codex = none;
  attachments = record {
    max_count = 10;
    max_bytes = 1000;
    max_file_bytes = 100;
    image_max_bytes = 100;
    cache_ttl_ms = 1000;
    cache_max_bytes = 1000;
  };
  identity_preset = bot_only;
}

abbrev pub agent : Capability
agent = record {
  agent_id = id_claude;
  session_kind = claude_session;
  prompt_injection = append_system_prompt;
  system_prompt = "";
  supports_native_history = true;
  callback = record { marker = "__bridge_cb"; legacy_markers = [] };
  max_access = full;
}

abbrev pub chat : ScopeContext
chat = record {
  source = source_im;
  chat_id = "oc";
  thread_id = "";
  actor_id = "ou_a";
  comment_scope_id = "";
  resource_bindings = record { kind = binding_doc; id = "doc"; verified = true } ∷ [];
}

abbrev pub picture : AgentAttachment
picture = record {
  kind = "image";
  requiredness = attachment_required;
  decision = attachment_accepted;
  rejection_reason = "";
  original_name = "a.png";
  size = 10;
  hash = "h";
  path = "/tmp/a.png";
}

abbrev pub known_user : Decision
known_user = record { allowed = true; reason = allowed_user }

-- Quotes without escapes, and no hashing.
abbrev pub toy_digests : Digests
toy_digests = record {
  quote = λ s. String.◌++◌ "'" (String.◌++◌ s "'");
  sha = λ s. s;
  itoa = λ n. "1";
}

abbrev pub idle : World
idle = record {
  runs = record {
    handles = [];
    reservations = [];
    pause_depth = 0;
    pause_reason = "";
    interrupted = [];
  };
  pool = record { active = 0; waiters = [] };
  effects = [];
}

abbrev pub quiet : Env
quiet = record {
  has_agent = true;
  now = 100;
  capacity = 1;
  others = λ k a. a;
  waiter = 0;
  wait = λ p. none;
  prepare_fails = false;
  cancelled_after_prepare = false;
  spawned = some 7;
  cancelled_after_spawn = false;
}

abbrev pub event : EventType → Event
event type = record {
  type = type;
  at = some 10;
  run_id = none;
  scope = none;
  session_id = none;
  thread_id = none;
  cwd = none;
  model = none;
  delta = none;
  phase = other_phase "";
  id = none;
  name = none;
  input = null;
  output = none;
  is_error = none;
  input_tokens = none;
  output_tokens = none;
  cached_input_tokens = none;
  reasoning_output_tokens = none;
  cost_usd = none;
  message = none;
  termination_reason = normal;
}

abbrev pub says : String → Event
says delta = record (event text) { delta = some delta }
