-- ===== src/Agents/Tests.antt =====
-- internal/adapters/agent: a run of Codex and one of Claude that say something and end.
use lark_bridge_agent_sdk.Base.{String, ◌≡◌, refl, none, List, [], ◌∷◌, or_else}
use lark_bridge_agent_sdk.Base.Text.{trim_right, trim_left, is_space, is_blank}
use lark_bridge_agent_sdk.Agents.Values.{get, first_string}
use lark_bridge_agent_sdk.Agents.Actions.{user_action_of}
use lark_bridge_agent_sdk.Agents.Output.{push}
use lark_bridge_agent_sdk.CardState.{
  other_status, RunStateInput, TextPhase, EventType, text, done, error, final_answer, commentary,
  other_phase,
}
use lark_bridge_agent_sdk.CardState.Terminal.{IsSettled}
use lark_bridge_agent_sdk.Agents.{AgentEvent}
use lark_bridge_agent_sdk.Agents.Codex
use lark_bridge_agent_sdk.Agents.Process.{send_end}
use lark_bridge_agent_sdk.Agents.Process.Streams.{codex_stream, claude_stream}
use lark_bridge_agent_sdk.Agents.Process.EndsOnce.{
  EndsOnce, codex_stream-EndsOnce, claude_stream-EndsOnce,
}
use lark_bridge_agent_sdk.Agents.Process.OnCard.{card_of, codex_stream-IsSettled}
use lark_bridge_agent_sdk.Agents.Samples.{toy_library, exited, killed, lines}

abbrev input : RunStateInput
input = record {
  run_id = "r1";
  scope = "chat";
  cwd = "/work";
  session_id = "";
  thread_id = "";
  model = "";
  status = other_status "";
  started_at = none;
  updated_at = none;
  elapsed = 0;
}

abbrev kinds : List AgentEvent → List (EventType × TextPhase × String)
kinds [] = []
kinds (e ∷ es) = (e.type, e.phase, or_else e.delta "") ∷ kinds es

codex_says :
    kinds (codex_stream toy_library lines exited none)
    ≡ (text, final_answer, "done it") ∷ (done, other_phase "", "") ∷ []
unfolding codex_stream trim_right trim_left is_space get first_string Codex.done_event send_end push
    user_action_of is_blank
codex_says = refl

codex_fails :
    kinds (codex_stream toy_library lines killed none)
    ≡ (text, commentary, "done it") ∷ (error, other_phase "", "") ∷ []
unfolding codex_stream trim_right trim_left is_space get first_string Codex.done_event send_end push
    user_action_of is_blank
codex_fails = refl

codex_stream-EndsOnce_example : EndsOnce (codex_stream toy_library lines killed none)
codex_stream-EndsOnce_example = codex_stream-EndsOnce toy_library lines killed none

codex_stream-IsSettled_example :
    IsSettled (card_of input (codex_stream toy_library lines killed none))
codex_stream-IsSettled_example = codex_stream-IsSettled input toy_library lines killed none

claude_stream-EndsOnce_example :
    EndsOnce (claude_stream toy_library ("result" ∷ "result" ∷ []) exited)
claude_stream-EndsOnce_example =
    claude_stream-EndsOnce toy_library ("result" ∷ "result" ∷ []) exited
