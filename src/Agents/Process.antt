-- ===== src/Agents/Process.antt =====
-- internal/adapters/agent/codexcli/adapter.go and claudecli/adapter.go: `processRun.stream`, which
-- turns the lines that an agent's process prints, and how the process ends, into the events of a
-- run. The process, its pipes and its exit code are arguments.
pub mod Streams
pub mod Reads
pub mod EndsOnce
pub mod OnCard
use lark_bridge_agent_sdk.Base.{
  ℕ, String, Bool, true, false, not, ◌&&◌, ◌||◌, Option, none, some, List, [], ◌∷◌, ◌++◌,
  if◌then◌else◌, nat_eq, is_some,
}
use lark_bridge_agent_sdk.Base.Json.{Json}
use lark_bridge_agent_sdk.Base.Text.{is_empty, is_blank, trim_space}
use lark_bridge_agent_sdk.CardState.{
  EventType, done, error, TerminationReason, normal, other_reason, failure,
}
use lark_bridge_agent_sdk.CardState.Blocks.{append_text}
use lark_bridge_agent_sdk.CardState.{is_end}
use lark_bridge_agent_sdk.Agents.{AgentEvent, event_of, Library, Whole, natural, negative}
use lark_bridge_agent_sdk.Agents.Output.{Stream, new_stream, push, finish}

-- How the process ended, as the run knows it when the output has been read: why it was stopped, an
-- error of the run itself, the exit code and what it wrote to stderr.
pub record Ending (Reason : Type 0) : Type 0 where
  pub stop_reason : Option Reason
  pub runtime_error : Option String
  pub exit_code : Whole
  pub stderr : String

-- The variables of the loop over the lines, for a translator of type `T`.
pub record Reading (T : Type 0) : Type 0 where
  pub translator : T
  pub output : Stream
  pub terminal : Option AgentEvent
  pub emitted : List AgentEvent

module _ {T : Type 0} (lib : Library) (translate : T → Json → T × List AgentEvent) where
  abbrev pub take_event : Reading T → AgentEvent → Reading T
  take_event r e =
      let (output, out) = push lib r.output e in
      if is_end e.type
      then record r { terminal = some e }
      else record r { output = output; emitted = r.emitted ++ out }

  unfoldable pub take_events : Reading T → List AgentEvent → Reading T
  take_events r [] = r
  take_events r (e ∷ es) = take_events (take_event r e) es

  -- A line that is not JSON is passed over.
  abbrev pub take_value : Reading T → Option Json → Reading T
  take_value r none = r
  take_value r (some raw) =
      let (t, events) = translate r.translator raw in
      take_events (record r { translator = t }) events

  unfoldable pub take_line : Reading T → String → Reading T
  unfolding take_events
  take_line r line =
      let trimmed = trim_space line in
      if is_empty trimmed then r else take_value r (lib.parse trimmed)

  unfoldable pub take_lines : Reading T → List String → Reading T
  unfolding take_line
  take_lines r [] = r
  take_lines r (line ∷ lines) = take_lines (take_line r line) lines

abbrev pub start_reading : {T : Type 0} → T → Reading T
start_reading t = record { translator = t; output = new_stream; terminal = none; emitted = [] }

unfoldable pub terminal_error : String → AgentEvent
terminal_error message = record (event_of error) {
  message = some message;
  termination_reason = failure;
}

abbrev digits : Library → Whole → String
digits lib (natural n) = lib.decimal n
digits lib (negative n) = append_text "-" (lib.decimal n)

unfoldable pub terminal_exit_error : Library → String → Whole → String → AgentEvent
unfolding terminal_error
terminal_exit_error lib name code stderr =
    let message = append_text name (append_text " exited with code " (digits lib code)) in
    terminal_error
      (if is_blank stderr then message else append_text message "; stderr omitted from chat output")

abbrev pub exited_well : Whole → Bool
exited_well (natural n) = nat_eq n 0
exited_well (negative n) = false

abbrev pub is_error_event : Option AgentEvent → Bool
is_error_event none = false
is_error_event (some e) = is_failed_type e.type
  where
    is_failed_type : EventType → Bool
    is_failed_type error = true
    is_failed_type _ = false

-- A normal end.
abbrev pub is_success : AgentEvent → Bool
is_success e = is_done e.type && is_normal e.termination_reason
  where
    is_done : EventType → Bool
    is_done done = true
    is_done _ = false

    is_normal : TerminationReason → Bool
    is_normal normal = true
    is_normal (other_reason s) = is_empty s
    is_normal _ = false

-- The last two things that a run sends: what the output stream still holds, and the end.
unfoldable pub send_end :
    Library → Stream → List AgentEvent → Option String → AgentEvent → List AgentEvent
unfolding finish
send_end lib output emitted final_text terminal =
    emitted ++ (finish lib output final_text (is_success terminal)).1 ++ terminal ∷ []
