-- ===== src/CardState.antt =====
-- internal/app/cardrender/types.go: the events of a run and the state that a card shows. A time is
-- `none` for Go's zero time; a pointer is an `Option`; a string type has its named constants and a
-- constructor for any other string, the empty one included.
pub mod Blocks
pub mod Reduce
pub mod Streaming
pub mod Transcript
pub mod Terminal
pub mod Tools
mod Tests
use lark_bridge_agent_sdk.Base.{
  ℕ, ◌+◌, String, Bool, true, false, ◌&&◌, Option, none, some, List, [], ◌==◌, nat_eq, is_some, not,
}
use lark_bridge_agent_sdk.Base.Json.{Json}

pub data RunStatus : Type 0 where
  queued running succeeded failed cancelled timed_out : RunStatus
  other_status : String → RunStatus

pub data FooterStatus : Type 0 where
  no_footer thinking_footer tool_footer streaming_footer : FooterStatus

pub data ToolStatus : Type 0 where
  tool_running tool_done tool_error : ToolStatus

pub data EventType : Type 0 where
  system text user_action thinking tool_use tool_result usage done error : EventType
  other_event : String → EventType

-- The two events that end a run.
abbrev pub is_end : EventType → Bool
is_end done = true
is_end error = true
is_end _ = false

pub data TextPhase : Type 0 where
  commentary final_answer : TextPhase
  other_phase : String → TextPhase

pub data TerminationReason : Type 0 where
  normal interrupted timeout failure : TerminationReason
  other_reason : String → TerminationReason

-- The float of the cost is only copied, and kept as a JSON number.
pub record Usage : Type 0 where
  pub input_tokens : ℕ
  pub output_tokens : ℕ
  pub cached_input_tokens : ℕ
  pub reasoning_output_tokens : ℕ
  pub cost_usd : Option Json

unfoldable pub total_tokens : Usage → ℕ
total_tokens u =
    u.input_tokens + u.output_tokens + u.cached_input_tokens + u.reasoning_output_tokens

unfoldable pub usage_empty : Usage → Bool
usage_empty u =
    nat_eq u.input_tokens 0
    && nat_eq u.output_tokens 0
    && nat_eq u.cached_input_tokens 0
    && nat_eq u.reasoning_output_tokens 0
    && not (is_some u.cost_usd)

pub record Event : Type 0 where
  pub type : EventType
  pub at : Option ℕ
  pub run_id : Option String
  pub scope : Option String
  pub session_id : Option String
  pub thread_id : Option String
  pub cwd : Option String
  pub model : Option String
  pub delta : Option String
  pub phase : TextPhase
  pub id : Option String
  pub name : Option String
  pub input : Json
  pub output : Option String
  pub is_error : Option Bool
  pub input_tokens : Option ℕ
  pub output_tokens : Option ℕ
  pub cached_input_tokens : Option ℕ
  pub reasoning_output_tokens : Option ℕ
  pub cost_usd : Option Json
  pub message : Option String
  pub termination_reason : TerminationReason

pub record ToolEntry : Type 0 where
  pub id : String
  pub name : String
  pub input : Json
  pub status : ToolStatus
  pub output : String

pub data BlockKind : Type 0 where
  block_text block_tool : BlockKind

pub record Block : Type 0 where
  pub kind : BlockKind
  pub phase : TextPhase
  pub id : String
  pub content : String
  pub streaming : Bool
  pub tool : Option ToolEntry

pub record Reasoning : Type 0 where
  pub content : String
  pub active : Bool

pub record RunState : Type 0 where
  pub run_id : String
  pub scope : String
  pub cwd : String
  pub session_id : String
  pub thread_id : String
  pub model : String
  pub status : RunStatus
  pub blocks : List Block
  pub reasoning : Reasoning
  pub footer : FooterStatus
  pub error : String
  pub usage : Usage
  pub last_event : Option EventType
  pub started_at : Option ℕ
  pub updated_at : Option ℕ
  pub elapsed : ℕ
  pub timeout_minutes : ℕ

pub record RunStateInput : Type 0 where
  pub run_id : String
  pub scope : String
  pub cwd : String
  pub session_id : String
  pub thread_id : String
  pub model : String
  pub status : RunStatus
  pub started_at : Option ℕ
  pub updated_at : Option ℕ
  pub elapsed : ℕ
