-- ===== src/Agents.antt =====
-- internal/ports/agent/types.go: the events that an agent's adapter sends. The named constants of
-- the event types, the phases and the termination reasons are the same texts as those of the card,
-- so `toCardEvent` copies them, and they share the card's types here.
pub mod Samples
mod Tests
pub mod Values
pub mod Actions
pub mod Output
pub mod Codex
pub mod Claude
pub mod Process
use lark_bridge_agent_sdk.Base.{ℕ, String, Bool, true, false, Option, none}
use lark_bridge_agent_sdk.Base.Json.{Json, null, Fields}
use lark_bridge_agent_sdk.CardState.{
  EventType, TextPhase, other_phase, TerminationReason, other_reason, Event,
}

pub record AgentEvent : Type 0 where
  pub type : EventType
  pub session_id : Option String
  pub thread_id : Option String
  pub cwd : Option String
  pub model : Option String
  pub delta : Option String
  pub phase : TextPhase
  pub id : Option String
  pub name : Option String
  pub input : Json
  pub output : Option String
  pub is_error : Option Bool
  pub input_tokens : Option ℕ
  pub output_tokens : Option ℕ
  pub cached_input_tokens : Option ℕ
  pub reasoning_output_tokens : Option ℕ
  pub cost_usd : Option Json
  pub message : Option String
  pub termination_reason : TerminationReason

-- An event with its type only.
abbrev pub event_of : EventType → AgentEvent
event_of type = record {
  type = type;
  session_id = none;
  thread_id = none;
  cwd = none;
  model = none;
  delta = none;
  phase = other_phase "";
  id = none;
  name = none;
  input = null;
  output = none;
  is_error = none;
  input_tokens = none;
  output_tokens = none;
  cached_input_tokens = none;
  reasoning_output_tokens = none;
  cost_usd = none;
  message = none;
  termination_reason = other_reason "";
}

-- `toCardEvent` of internal/app/impresenter/presenter.go.
unfoldable pub to_card_event : AgentEvent → Event
to_card_event e = record {
  type = e.type;
  at = none;
  run_id = none;
  scope = none;
  session_id = e.session_id;
  thread_id = e.thread_id;
  cwd = e.cwd;
  model = e.model;
  delta = e.delta;
  phase = e.phase;
  id = e.id;
  name = e.name;
  input = e.input;
  output = e.output;
  is_error = e.is_error;
  input_tokens = e.input_tokens;
  output_tokens = e.output_tokens;
  cached_input_tokens = e.cached_input_tokens;
  reasoning_output_tokens = e.reasoning_output_tokens;
  cost_usd = e.cost_usd;
  message = e.message;
  termination_reason = e.termination_reason;
}

-- A whole number of JSON.
pub data Whole : Type 0 where
  natural negative : ℕ → Whole

-- The decoded fields of the two marked messages.
pub record CardRequest : Type 0 where
  pub id : String
  pub card : Option Fields

pub record ActionRequest : Type 0 where
  pub id : String
  pub kind : String
  pub message : String

-- A parsed link.
pub record Link : Type 0 where
  pub scheme : String
  pub host : String
  pub has_user : Bool

-- What the code uses of Go's library: `json.Unmarshal` into `any` and into the structs, the whole
-- number that a JSON number is (within the range of `int`), `json.Marshal`, the bytes of texts,
-- `strconv`, `filepath.Base`, `url.Parse`, and SHA-256 with its first twelve bytes in hexadecimal.
pub record Library : Type 0 where
  pub parse : String → Option Json
  pub parse_card : String → Option CardRequest
  pub parse_action : String → Option ActionRequest
  pub parse_login : String → Option (String × String)
  pub whole : String → Option Whole
  pub marshal : Json → Option String
  pub byte_length : String → ℕ
  pub byte_prefix : ℕ → String → String
  pub decimal : ℕ → String
  pub base_name : String → String
  pub unquote : String → Option String
  pub parse_link : String → Option Link
  pub digest : String → String
