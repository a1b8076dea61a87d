-- ===== src/Intake/Scope/Tests.antt =====
-- internal/app/intake/scope.go: a card in a thread of a group, and a comment.
use lark_bridge_agent_sdk.Base.{none, []}
use lark_bridge_agent_sdk.Base.Json.{null, no_fields}
use lark_bridge_agent_sdk.Intake.Types.{
  Actor, MessageInput, CardActionInput, group_chat, other_mode, user_sender,
}
use mathlib.Core.Bool.{false}

abbrev user : Actor
user = record { open_id = "ou_1"; user_id = ""; union_id = ""; name = "Ann" }

abbrev msg : MessageInput
msg = record {
  message_id = "om_1";
  chat_id = "oc_1";
  chat_type = group_chat;
  resolved_mode = other_mode "";
  thread_id = "omt_1";
  root_id = "";
  parent_id = "";
  reply_to_message_id = "";
  sender = user;
  sender_type = user_sender;
  content = "hi";
  raw_content_type = "text";
  raw_content = null;
  resources = [];
  mentions = [];
  mention_all = false;
  mentioned_bot = false;
  create_time = none;
  metadata = no_fields;
}

abbrev card : CardActionInput
card = record {
  event_id = "e1";
  message_id = "om_2";
  chat_id = "oc_1";
  chat_type = group_chat;
  resolved_mode = other_mode "";
  thread_id = "omt_1";
  operator = user;
  action_value = no_fields;
  form_value = no_fields;
  raw_content = null;
  create_time = none;
  explicit_scope = "";
  inherit_scope = "";
  metadata = no_fields;
}
