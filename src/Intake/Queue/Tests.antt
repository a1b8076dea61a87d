-- ===== src/Intake/Queue/Tests.antt =====
-- internal/app/intake/queue.go: two messages, a block between them, and a flush.
use lark_bridge_agent_sdk.Base.{◌≡◌, refl, false, none, List, [], ◌∷◌, ◌++◌, any}
use lark_bridge_agent_sdk.Base.Map.{lookup, insert, delete}
use lark_bridge_agent_sdk.Intake.Types.{
  NormalizedEvent, Scope, message, im_source, group_chat, group_mode, not_self,
}
use lark_bridge_agent_sdk.Intake.Queue.{new_queue, push, pushed, block, unblock, drain, arms}
use lark_bridge_agent_sdk.Intake.Queue.Trace.{
  Call, pushes, blocks, unblocks, flushes, call, calls, handed_out, all_handed_out, all_taken_in,
  waiting,
}
use lark_bridge_agent_sdk.Intake.Queue.Delivery.{calls_deliver}
use lark_bridge_agent_sdk.Intake.Queue.Timers.{TimedAt, new_queue-TimedAt}

abbrev chat : Scope
chat = record {
  key = "chat";
  source = im_source;
  chat_id = "chat";
  chat_type = group_chat;
  chat_mode = group_mode;
  thread_id = "";
  actor_id = "user";
  parent_key = "";
  file_token = "";
  file_type = "";
  comment_id = "";
  comment_scope_key = "";
  document_scope_key = "";
}

abbrev hello : NormalizedEvent
hello = record {
  kind = message;
  scope = chat;
  self = record { drop = false; reason = not_self };
  message = none;
  comment = none;
  card_action = none;
  reconnect = none;
  keepalive = none;
  disconnect = none;
}

abbrev history : List Call
history =
    pushes hello
    ∷ blocks "chat"
    ∷ pushes hello
    ∷ flushes "chat"
    ∷ unblocks "chat"
    ∷ pushes hello
    ∷ []

batch_of_two : all_handed_out "chat" history (new_queue 5) ≡ hello ∷ hello ∷ []
unfolding all_handed_out handed_out call push pushed block unblock drain new_queue lookup insert
    delete arms
batch_of_two = refl

calls_deliver_example :
    all_handed_out "chat" history (new_queue 5) ++ waiting "chat" (calls history (new_queue 5))
    ≡ waiting "chat" (new_queue 5) ++ all_taken_in "chat" history (new_queue 5)
unfolding any
calls_deliver_example = calls_deliver "chat" history (new_queue 5) refl

new_queue-TimedAt_example : TimedAt "chat" (calls history (new_queue 5))
new_queue-TimedAt_example = new_queue-TimedAt 5 "chat" history
