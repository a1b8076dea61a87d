-- ===== src/Agents/Process/Streams.antt =====
-- internal/adapters/agent/codexcli/adapter.go and claudecli/adapter.go: the end of the two streams.
use lark_bridge_agent_sdk.Base.{
  String, false, not, ◌&&◌, Option, none, some, List, [], ◌∷◌, ◌++◌, if◌then◌else◌, or_else,
}
use lark_bridge_agent_sdk.CardState.{done, TerminationReason, interrupted, timeout}
use lark_bridge_agent_sdk.CardState.Blocks.{append_text}
use lark_bridge_agent_sdk.Agents.{AgentEvent, event_of, Library}
use lark_bridge_agent_sdk.Agents.Codex
use lark_bridge_agent_sdk.Agents.Codex.Translate as CodexTranslate
use lark_bridge_agent_sdk.Agents.Claude
use lark_bridge_agent_sdk.Agents.Claude.Translate as ClaudeTranslate
use lark_bridge_agent_sdk.Agents.Process.{
  Ending, Reading, take_lines, start_reading, terminal_error, terminal_exit_error, exited_well,
  is_error_event, send_end,
}
use lark_bridge_agent_sdk.Agents.Output.{finish}

abbrev pub or_runtime : String → Option String → Option AgentEvent → Option AgentEvent
or_runtime name (some e) terminal =
    some (terminal_error (append_text name (append_text " runtime error: " e)))
or_runtime name none terminal = terminal

-- Without a stop: an error of the run, or an exit that the agent did not explain, comes first.
unfoldable pub unless_failed :
    {R : Type 0} → Library → String → Ending R → Option AgentEvent → Option AgentEvent
unfolding terminal_error terminal_exit_error
unless_failed lib name ending terminal = or_runtime name ending.runtime_error (
    if not (exited_well ending.exit_code) && not (is_error_event terminal)
    then some (terminal_exit_error lib name ending.exit_code ending.stderr)
    else terminal)

abbrev pub first_event : AgentEvent → List AgentEvent → AgentEvent
first_event d [] = d
first_event d (e ∷ es) = e

abbrev pub interrupted_event : AgentEvent
interrupted_event = record (event_of done) { termination_reason = interrupted }

abbrev pub stop_base :
    Library → Reading Codex.Translator → Codex.FinishReason → Option AgentEvent → AgentEvent
stop_base lib r reason (some e) = record interrupted_event { thread_id = e.thread_id }
stop_base lib r reason none =
    first_event interrupted_event (CodexTranslate.finish_translation lib r.translator reason).1

abbrev pub codex_reason : Codex.FinishReason → AgentEvent → AgentEvent
codex_reason Codex.finish_timeout e = record e { termination_reason = timeout }
codex_reason _ e = e

unfoldable pub last_event : List AgentEvent → Option AgentEvent
last_event [] = none
last_event (e ∷ []) = some e
last_event (e ∷ f ∷ es) = last_event (f ∷ es)

abbrev pub codex_unfinished :
    Library → Reading Codex.Translator → Option AgentEvent → Option AgentEvent
codex_unfinished lib r (some e) = some e
codex_unfinished lib r none =
    last_event (CodexTranslate.finish_translation lib r.translator (Codex.other_finish "")).1

abbrev pub codex_stopped :
    Library
    → Reading Codex.Translator
    → Option Codex.FinishReason
    → Option AgentEvent
    → Option AgentEvent
codex_stopped lib r (some reason) unstopped =
    some (codex_reason reason (stop_base lib r reason r.terminal))
codex_stopped lib r none unstopped = codex_unfinished lib r unstopped

-- How a Codex run ends.
unfoldable pub codex_terminal :
    Library → Reading Codex.Translator → Ending Codex.FinishReason → Option AgentEvent
unfolding unless_failed
codex_terminal lib r ending =
    codex_stopped lib r ending.stop_reason (unless_failed lib "codex" ending r.terminal)

abbrev pub end_codex :
    Library → Reading Codex.Translator → Option String → Option AgentEvent → List AgentEvent
end_codex lib r final_text none = r.emitted ++ (finish lib r.output none false).1
end_codex lib r final_text (some e) = send_end lib r.output r.emitted final_text e

-- `stream` of the Codex adapter: `final_text` is the file with the last message, if it was read.
-- The output stream looks at it on success only.
unfoldable pub codex_stream :
    Library → List String → Ending Codex.FinishReason → Option String → List AgentEvent
unfolding take_lines codex_terminal CodexTranslate.translate
codex_stream lib lines ending final_text =
    let r =
      take_lines lib (CodexTranslate.translate lib) (start_reading Codex.new_translator) lines in
    end_codex lib r final_text (codex_terminal lib r ending)

abbrev pub claude_reason : Claude.FinishReason → TerminationReason
claude_reason Claude.finish_timeout = timeout
claude_reason _ = interrupted

abbrev pub claude_stopped :
    Reading Claude.Translator → Option Claude.FinishReason → Option AgentEvent → AgentEvent
claude_stopped r (some reason) unstopped =
    Claude.done_event r.translator.session_id (claude_reason reason)
claude_stopped r none unstopped =
    or_else unstopped (terminal_error "claude stream ended before a terminal result")

-- How a Claude run ends.
unfoldable pub claude_terminal :
    Library → Reading Claude.Translator → Ending Claude.FinishReason → AgentEvent
unfolding unless_failed Claude.done_event terminal_error
claude_terminal lib r ending =
    claude_stopped r ending.stop_reason (unless_failed lib "claude" ending r.terminal)

-- `stream` of the Claude adapter.
unfoldable pub claude_stream : Library → List String → Ending Claude.FinishReason → List AgentEvent
unfolding take_lines claude_terminal send_end ClaudeTranslate.translate
claude_stream lib lines ending =
    let r =
      take_lines lib (ClaudeTranslate.translate lib) (start_reading Claude.new_translator) lines in
    send_end lib r.output r.emitted none (claude_terminal lib r ending)
