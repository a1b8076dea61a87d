-- ===== src/Intake/Scope.antt =====
-- internal/app/intake/scope.go: the conversation that an event belongs to. `digest` is the first
-- sixteen hexadecimal digits of SHA-256, which Go's standard library computes.
pub mod Laws
mod Tests
use Prim.Native.String
use lark_bridge_agent_sdk.Base.{String, Bool, true, false, ◌==◌, if◌then◌else◌}
use lark_bridge_agent_sdk.Intake.Types.{
  ChatType, p2p_chat, group_chat, other_chat, ChatMode, p2p_mode, group_mode, topic_mode,
  other_mode, MessageInput, CommentInput, CardActionInput, ScopeSource, im_source, card_source,
  comment_source, reconnect_source, keepalive_source, disconnect_source, Scope,
}

abbrev append_text : String → String → String
append_text s t = String.◌++◌ s t

pub chat_scope_key : String → String → String
chat_scope_key chat_id thread_id =
    if thread_id == "" then chat_id else append_text chat_id (append_text ":" thread_id)

default_mode_of : ChatType → ChatMode
default_mode_of p2p_chat = p2p_mode
default_mode_of _ = group_mode

pub normalize_mode : ChatType → ChatMode → ChatMode
unfolding default_mode_of
normalize_mode chat_type (other_mode s) =
    if s == "" then default_mode_of chat_type else other_mode s
normalize_mode chat_type mode = mode

pub mode_of : ChatType → ChatMode → String → ChatMode
mode_of chat_type resolved thread_id =
    if thread_id == "" then normalize_mode chat_type resolved else topic_mode

pub message_scope : MessageInput → Scope
message_scope input = record {
  key = chat_scope_key input.chat_id input.thread_id;
  source = im_source;
  chat_id = input.chat_id;
  chat_type = input.chat_type;
  chat_mode = mode_of input.chat_type input.resolved_mode input.thread_id;
  thread_id = input.thread_id;
  actor_id = input.sender.open_id;
  parent_key = "";
  file_token = "";
  file_type = "";
  comment_id = "";
  comment_scope_key = "";
  document_scope_key = "";
}

-- The explicit key, or else the inherited one, or else the fallback.
pub pick_key : String → String → String → String
pick_key explicit inherited fallback =
    if explicit == "" then (if inherited == "" then fallback else inherited) else explicit

-- The parent is set only where the key was inherited.
pub pick_parent : String → String → String
pick_parent explicit inherited = if explicit == "" then inherited else ""

pub card_action_scope : CardActionInput → Scope
card_action_scope input = record {
  key =
      pick_key input.explicit_scope input.inherit_scope
        (chat_scope_key input.chat_id input.thread_id);
  source = card_source;
  chat_id = input.chat_id;
  chat_type = input.chat_type;
  chat_mode = mode_of input.chat_type input.resolved_mode input.thread_id;
  thread_id = input.thread_id;
  actor_id = input.operator.open_id;
  parent_key = pick_parent input.explicit_scope input.inherit_scope;
  file_token = "";
  file_type = "";
  comment_id = "";
  comment_scope_key = "";
  document_scope_key = "";
}

-- The chat type and the mode of a scope outside chats are the empty texts.
abbrev no_chat : ChatType
no_chat = other_chat ""

abbrev no_mode : ChatMode
no_mode = other_mode ""

source_text : ScopeSource → String
source_text im_source = "im"
source_text card_source = "card"
source_text comment_source = "comment"
source_text reconnect_source = "reconnect"
source_text keepalive_source = "keepalive"
source_text disconnect_source = "disconnect"

pub lifecycle_scope : ScopeSource → Scope
unfolding source_text
lifecycle_scope source = record {
  key = source_text source;
  source = source;
  chat_id = "";
  chat_type = no_chat;
  chat_mode = no_mode;
  thread_id = "";
  actor_id = "";
  parent_key = "";
  file_token = "";
  file_type = "";
  comment_id = "";
  comment_scope_key = "";
  document_scope_key = "";
}

module _ (digest : String → String) where
  pub comment_document_scope_key : String → String
  comment_document_scope_key file_token = append_text "comment-doc:" (digest file_token)

  pub comment_scope_key_of : String → String → String
  comment_scope_key_of file_token comment_id =
      append_text "comment:" (digest (append_text file_token (append_text ":" comment_id)))

  pub comment_scope : CommentInput → Scope
  comment_scope input = record {
    key =
        pick_key input.explicit_scope_key input.inherit_scope_key
          (comment_scope_key_of input.file_token input.comment_id);
    source = comment_source;
    chat_id = "";
    chat_type = no_chat;
    chat_mode = no_mode;
    thread_id = "";
    actor_id = input.operator.open_id;
    parent_key = pick_parent input.explicit_scope_key input.inherit_scope_key;
    file_token = input.file_token;
    file_type = input.file_type;
    comment_id = input.comment_id;
    comment_scope_key = comment_scope_key_of input.file_token input.comment_id;
    document_scope_key = comment_document_scope_key input.file_token;
  }
