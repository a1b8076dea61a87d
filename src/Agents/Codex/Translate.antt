-- ===== src/Agents/Codex/Translate.antt =====
-- internal/compat/codex/jsonl.go: `Translate` and `Finish` of the Codex translator.
use lark_bridge_agent_sdk.Base.{◌+◌, String, true, Option, none, some, [], ◌∷◌, ◌==◌, if◌then◌else◌}
use lark_bridge_agent_sdk.Base.Json.{Json, Fields}
use lark_bridge_agent_sdk.Base.Text.{is_empty}
use lark_bridge_agent_sdk.CardState.{interrupted, timeout}
use lark_bridge_agent_sdk.CardState.Blocks.{append_text}
use lark_bridge_agent_sdk.Agents.{AgentEvent, Library}
use lark_bridge_agent_sdk.Agents.Values.{get, record_value, string_value, truncate}
use lark_bridge_agent_sdk.Agents.Codex.{
  Translator, Step, anomaly, FinishReason, finish_interrupted, finish_timeout, done_event,
  error_event, translate_thread_started, translate_item_started, translate_item_completed,
  translate_agent_message, translate_turn_completed, translate_terminal_error,
  translate_non_terminal_error,
}

unfoldable pub translate_typed : Library → Translator → Fields → Option String → Step
unfolding translate_thread_started translate_item_started translate_item_completed
    translate_agent_message translate_turn_completed translate_terminal_error
    translate_non_terminal_error
translate_typed lib t raw none = (anomaly t, [])
translate_typed lib t raw (some type) =
    if type == "thread.started"
    then translate_thread_started t raw
    else if type == "turn.started"
    then (t, [])
    else if type == "item.started"
    then translate_item_started t raw
    else if type == "item.completed"
    then translate_item_completed lib t raw
    else if type == "agent_message"
    then translate_agent_message t raw
    else if type == "turn.completed"
    then translate_turn_completed lib t raw
    else if type == "turn.failed"
    then translate_terminal_error lib t raw "codex turn failed"
    else if type == "error"
    then translate_non_terminal_error t raw "codex error"
    else (record t { unknown_events = t.unknown_events + 1 }, [])

abbrev pub translate_record : Library → Translator → Option Fields → Step
translate_record lib t none = (anomaly t, [])
translate_record lib t (some raw) = translate_typed lib t raw (string_value (get "type" raw))

unfoldable pub translate : Library → Translator → Json → Step
unfolding translate_typed
translate lib t raw = if t.terminal then (t, []) else translate_record lib t (record_value raw)

abbrev pub finish_event : Library → Translator → FinishReason → AgentEvent
finish_event lib t finish_interrupted = done_event t.thread_id interrupted
finish_event lib t finish_timeout = done_event t.thread_id timeout
finish_event lib t _ =
    let detail = if is_empty t.last_error then "" else append_text ": " t.last_error in
    error_event
      (truncate lib (append_text "codex stream ended before a terminal event" detail) 4096)

-- `Finish`, which ends the translation.
unfoldable pub finish_translation : Library → Translator → FinishReason → Step
finish_translation lib t reason =
    if t.terminal then (t, []) else (record t { terminal = true }, finish_event lib t reason ∷ [])
