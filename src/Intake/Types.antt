-- ===== src/Intake/Types.antt =====
-- internal/app/intake/types.go and the record of scope.go. A time is `none` for Go's zero time, a
-- map of metadata is a list of JSON fields, and a size or a duration is a natural number.
use lark_bridge_agent_sdk.Base.{ℕ, String, Bool, Option, List}
use lark_bridge_agent_sdk.Base.Json.{Json, Fields}

pub data EventKind : Type 0 where
  message comment card_action reconnect keepalive disconnect : EventKind

pub data ChatType : Type 0 where
  p2p_chat group_chat : ChatType
  other_chat : String → ChatType

pub data ChatMode : Type 0 where
  p2p_mode group_mode topic_mode : ChatMode
  other_mode : String → ChatMode

pub record Actor : Type 0 where
  pub open_id : String
  pub user_id : String
  pub union_id : String
  pub name : String

pub record Resource : Type 0 where
  pub kind : String
  pub id : String
  pub name : String
  pub size : ℕ
  pub url : String

pub record Mention : Type 0 where
  pub key : String
  pub open_id : String
  pub user_id : String
  pub name : String
  pub is_bot : Option Bool

pub data SenderType : Type 0 where
  user_sender bot_sender : SenderType
  other_sender : String → SenderType

pub record MessageInput : Type 0 where
  pub message_id : String
  pub chat_id : String
  pub chat_type : ChatType
  pub resolved_mode : ChatMode
  pub thread_id : String
  pub root_id : String
  pub parent_id : String
  pub reply_to_message_id : String
  pub sender : Actor
  pub sender_type : SenderType
  pub content : String
  pub raw_content_type : String
  pub raw_content : Json
  pub resources : List Resource
  pub mentions : List Mention
  pub mention_all : Bool
  pub mentioned_bot : Bool
  pub create_time : Option ℕ
  pub metadata : Fields

pub record CommentInput : Type 0 where
  pub event_id : String
  pub file_token : String
  pub file_type : String
  pub comment_id : String
  pub reply_id : String
  pub operator : Actor
  pub mentioned_bot : Bool
  pub explicit_scope_key : String
  pub inherit_scope_key : String
  pub bridge_reply : Bool
  pub metadata : Fields
  pub create_time : Option ℕ

pub record CardActionInput : Type 0 where
  pub event_id : String
  pub message_id : String
  pub chat_id : String
  pub chat_type : ChatType
  pub resolved_mode : ChatMode
  pub thread_id : String
  pub operator : Actor
  pub action_value : Fields
  pub form_value : Fields
  pub raw_content : Json
  pub create_time : Option ℕ
  pub explicit_scope : String
  pub inherit_scope : String
  pub metadata : Fields

pub data ReconnectPhase : Type 0 where
  reconnecting recovered failed : ReconnectPhase

pub record ReconnectInput : Type 0 where
  pub phase : ReconnectPhase
  pub consecutive_attempts : ℕ
  pub error : String
  pub at : Option ℕ

pub data ConnectionState : Type 0 where
  unknown connected reconnecting disconnected : ConnectionState

pub record KeepaliveInput : Type 0 where
  pub state : ConnectionState
  pub reconnect_attempts : ℕ
  pub network_reachable : Bool
  pub consecutive_down : ℕ
  pub slept : ℕ
  pub at : Option ℕ

pub record DisconnectInput : Type 0 where
  pub reason : String
  pub at : Option ℕ

pub data ScopeSource : Type 0 where
  im_source card_source comment_source : ScopeSource
  reconnect_source keepalive_source disconnect_source : ScopeSource

pub record Scope : Type 0 where
  pub key : String
  pub source : ScopeSource
  pub chat_id : String
  pub chat_type : ChatType
  pub chat_mode : ChatMode
  pub thread_id : String
  pub actor_id : String
  pub parent_key : String
  pub file_token : String
  pub file_type : String
  pub comment_id : String
  pub comment_scope_key : String
  pub document_scope_key : String

pub data SelfLoopReason : Type 0 where
  not_self bot_open_id bridge_reply bridge_metadata : SelfLoopReason

pub record SelfLoopDecision : Type 0 where
  pub drop : Bool
  pub reason : SelfLoopReason

pub record NormalizedEvent : Type 0 where
  pub kind : EventKind
  pub scope : Scope
  pub self : SelfLoopDecision
  pub message : Option MessageInput
  pub comment : Option CommentInput
  pub card_action : Option CardActionInput
  pub reconnect : Option ReconnectInput
  pub keepalive : Option KeepaliveInput
  pub disconnect : Option DisconnectInput
