-- ===== src/Agents/Codex.antt =====
-- internal/compat/codex/jsonl.go: the events of a Codex run. The reports to the logger are left out.
pub mod Translate
pub mod Tells
use lark_bridge_agent_sdk.Base.{
  ℕ, ◌+◌, String, Bool, true, false, not, ◌&&◌, Option, none, some, List, [], ◌∷◌, ◌++◌, ◌==◌,
  if◌then◌else◌, or_else, includes, is_some, nat_eq,
}
use lark_bridge_agent_sdk.Base.Json.{Json, str, obj, Fields, field, no_fields}
use lark_bridge_agent_sdk.Base.Map.{Map, lookup, insert, delete}
use lark_bridge_agent_sdk.Base.Text.{is_empty}
use lark_bridge_agent_sdk.CardState.{
  text, tool_use, tool_result, usage, done, error, system, TextPhase, commentary, final_answer,
  other_phase, TerminationReason, normal, interrupted, timeout, failure,
}
use lark_bridge_agent_sdk.CardState.Blocks.{append_text}
use lark_bridge_agent_sdk.Agents.{AgentEvent, event_of, Library, Whole, natural, negative}
use lark_bridge_agent_sdk.Agents.Values.{
  get, record_value, string_value, is_string, first_string, number_value, count_of, truncate,
}
use lark_bridge_agent_sdk.Agents.Actions.{lark_authorization}

pub data FinishReason : Type 0 where
  finish_failed finish_interrupted finish_timeout : FinishReason
  other_finish : String → FinishReason

pub record Translator : Type 0 where
  pub thread_id : String
  pub terminal : Bool
  pub last_error : String
  pub started_items : List String
  pub commands : Map String
  pub unknown_events : ℕ
  pub anomalies : ℕ

abbrev pub new_translator : Translator
new_translator = record {
  thread_id = "";
  terminal = false;
  last_error = "";
  started_items = [];
  commands = [];
  unknown_events = 0;
  anomalies = 0;
}

abbrev pub anomaly : Translator → Translator
anomaly t = record t { anomalies = t.anomalies + 1 }

-- A conversion of Go: the named constants, or the text as it is.
abbrev pub phase_of : String → TextPhase
phase_of s =
    if s == "commentary"
    then commentary
    else if s == "final_answer"
    then final_answer
    else other_phase s

abbrev pub text_phase : Fields → TextPhase
text_phase raw = phase_of (or_else (string_value (get "phase" raw)) "")

unfoldable pub done_event : String → TerminationReason → AgentEvent
done_event thread_id reason = record (event_of done) {
  termination_reason = reason;
  thread_id = if is_empty thread_id then none else some thread_id;
}

unfoldable pub error_event : String → AgentEvent
error_event message = record (event_of error) {
  message = some message;
  termination_reason = failure;
}

abbrev pub text_event : String → TextPhase → AgentEvent
text_event message phase = record (event_of text) { delta = some message; phase = phase }

abbrev pub or_nested : Option String → Option String → String → String
or_nested (some message) other fallback = message
or_nested none (some message) fallback = message
or_nested none none fallback = fallback

abbrev pub nested_message : Option Fields → Option String
nested_message none = none
nested_message (some nested) = string_value (get "message" nested)

unfoldable pub error_message : Fields → String → String
error_message raw fallback = or_else (string_value (get "message" raw)) (
    or_nested (nested_message (record_value (get "error" raw))) (string_value (get "error" raw))
      fallback)

-- The first of two keys that holds a number.
unfoldable pub count_at : Library → Fields → String → String → Option ℕ
count_at lib counts key other =
    let first = number_value lib (get key counts) in
    if is_some first then count_of first else count_of (number_value lib (get other counts))

unfoldable pub usage_event : Library → Fields → AgentEvent
unfolding count_at
usage_event lib counts = record (event_of usage) {
  input_tokens = count_at lib counts "input_tokens" "inputTokens";
  output_tokens = count_at lib counts "output_tokens" "outputTokens";
  cached_input_tokens = count_at lib counts "cached_input_tokens" "cachedInputTokens";
  reasoning_output_tokens = count_at lib counts "reasoning_output_tokens" "reasoningOutputTokens";
}

abbrev pub Step : Type 0
Step = Translator × List AgentEvent

abbrev pub started_thread : Translator → Option String → Step
started_thread t none = (anomaly t, [])
started_thread t (some id) =
    if is_empty id
    then (anomaly t, [])
    else (record t { thread_id = id }, record (event_of system) { thread_id = some id } ∷ [])

unfoldable pub translate_thread_started : Translator → Fields → Step
translate_thread_started t raw =
    started_thread t (first_string (get "thread_id" raw ∷ get "threadId" raw ∷ []))

abbrev pub started_command : Translator → Fields → Option String → Step
started_command t item none = (anomaly t, [])
started_command t item (some id) =
    let command = or_else (string_value (get "command" item)) "" in
    if is_empty id then (anomaly t, []) else (
      record t { started_items = id ∷ t.started_items; commands = insert id command t.commands },
      record (event_of tool_use) {
        id = some id;
        name = some "command_execution";
        input = obj (field "command" (str command) no_fields);
      }
          ∷ [],
    )

abbrev pub started_item : Translator → Option Fields → Step
started_item t none = (t, [])
started_item t (some item) =
    if is_string (get "type" item) "command_execution"
    then started_command t item (string_value (get "id" item))
    else (t, [])

unfoldable pub translate_item_started : Translator → Fields → Step
translate_item_started t raw = started_item t (record_value (get "item" raw))

abbrev pub is_failure : Option Whole → Bool
is_failure none = false
is_failure (some (natural n)) = not (nat_eq n 0)
is_failure (some (negative n)) = true

unfoldable pub forget_item : String → List String → List String
forget_item id [] = []
forget_item id (i ∷ is) = if i == id then forget_item id is else i ∷ forget_item id is

abbrev pub and_action : Option AgentEvent → List AgentEvent
and_action none = []
and_action (some action) = action ∷ []

abbrev pub completed_command : Library → Translator → Fields → Option String → Step
completed_command lib t item none = (anomaly t, [])
completed_command lib t item (some id) =
    let known = if includes t.started_items id then t else anomaly t in
    let output =
      or_else
        (first_string (get "output" item ∷ get "aggregated_output" item ∷ get "stdout" item ∷ []))
        "" in
    let failed = is_failure (number_value lib (get "exit_code" item)) in
    let command = or_else (lookup id t.commands) "" in
    let result = record (event_of tool_result) {
      id = some id;
      output = some output;
      is_error = some failed;
    } in
    if is_empty id then (anomaly t, []) else (
      record known {
        started_items = forget_item id t.started_items;
        commands = delete id t.commands;
      },
      result ∷ (if failed then [] else and_action (lark_authorization lib command output)),
    )

abbrev pub said : Translator → Fields → Option String → Step
said t raw none = (t, [])
said t raw (some message) =
    (t, if is_empty message then [] else text_event message (text_phase raw) ∷ [])

abbrev pub completed_item : Library → Translator → Option Fields → Step
completed_item lib t none = (t, [])
completed_item lib t (some item) =
    if is_string (get "type" item) "agent_message"
    then said t item (first_string (get "text" item ∷ get "message" item ∷ []))
    else if is_string (get "type" item) "command_execution"
    then completed_command lib t item (string_value (get "id" item))
    else (t, [])

unfoldable pub translate_item_completed : Library → Translator → Fields → Step
unfolding forget_item
translate_item_completed lib t raw = completed_item lib t (record_value (get "item" raw))

unfoldable pub translate_agent_message : Translator → Fields → Step
translate_agent_message t raw = said t raw (first_string (get "message" raw ∷ get "text" raw ∷ []))

abbrev pub usage_of : Library → Option Fields → List AgentEvent
usage_of lib none = []
usage_of lib (some counts) = usage_event lib counts ∷ []

unfoldable pub translate_turn_completed : Library → Translator → Fields → Step
translate_turn_completed lib t raw = (
  record t { terminal = true },
  usage_of lib (record_value (get "usage" raw)) ++ done_event t.thread_id normal ∷ [],
)

unfoldable pub translate_terminal_error : Library → Translator → Fields → String → Step
translate_terminal_error lib t raw fallback = (
  record t { terminal = true },
  error_event (truncate lib (error_message raw fallback) 4096) ∷ [],
)

unfoldable pub translate_non_terminal_error : Translator → Fields → String → Step
translate_non_terminal_error t raw fallback =
    (record t { last_error = error_message raw fallback }, [])
