-- ===== src/Intake/Queue/Workers/Tests.antt =====
-- internal/app/intake/queue.go: two batches of a scope, the second of which is given up.
use lark_bridge_agent_sdk.Base.{◌≡◌, refl, some, List, [], ◌∷◌, ◌++◌}
use lark_bridge_agent_sdk.Base.Map.{lookup, insert}
use lark_bridge_agent_sdk.Intake.Types.{Scope, im_source, group_chat, group_mode}
use lark_bridge_agent_sdk.Intake.Queue.{Batch}
use lark_bridge_agent_sdk.Intake.Queue.Workers.{
  Submission, waiting, new_workers, Move, submits, goes_on, context_ends, takes, answers, moves,
}
use lark_bridge_agent_sdk.Intake.Queue.Workers.Orders.{line, all_enter, moves-line}

abbrev chat : Scope
chat = record {
  key = "chat";
  source = im_source;
  chat_id = "chat";
  chat_type = group_chat;
  chat_mode = group_mode;
  thread_id = "";
  actor_id = "user";
  parent_key = "";
  file_token = "";
  file_type = "";
  comment_id = "";
  comment_scope_key = "";
  document_scope_key = "";
}

abbrev batch : Batch
batch = record { scope = chat; events = [] }

abbrev history : List Move
history =
    submits batch
    ∷ submits batch
    ∷ goes_on 0
    ∷ goes_on 0
    ∷ goes_on 1
    ∷ goes_on 1
    ∷ takes "chat"
    ∷ context_ends 1
    ∷ answers "chat" (some "failed")
    ∷ takes "chat"
    ∷ []

abbrev first : Submission
first = record { key = "chat"; batch = batch; phase = waiting; answer = some (some "failed") }

both_in_order : line "chat" (moves history new_workers) ≡ 0 ∷ 1 ∷ []
unfolding lookup moves insert
both_in_order = refl

moves-line_example :
    line "chat" (moves history new_workers)
    ≡ line "chat" new_workers ++ all_enter "chat" history new_workers
moves-line_example = moves-line "chat" history new_workers
