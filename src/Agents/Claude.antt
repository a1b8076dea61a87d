-- ===== src/Agents/Claude.antt =====
-- internal/adapters/agent/claudecli/stream_json.go: the events of a Claude run.
pub mod Translate
use lark_bridge_agent_sdk.Base.{
  String, Bool, true, false, not, ◌&&◌, ◌||◌, Option, none, some, List, [], ◌∷◌, ◌++◌, ◌==◌,
  if◌then◌else◌, or_else, is_some,
}
use lark_bridge_agent_sdk.Base.Json.{Json, str, num, Items, no_items, item, Fields}
use lark_bridge_agent_sdk.Base.Map.{Map}
use lark_bridge_agent_sdk.Base.Text.{is_empty, trim_space, strip_prefix}
use lark_bridge_agent_sdk.CardState.{
  text, thinking, tool_use, tool_result, usage, done, error, system, final_answer,
  TerminationReason, normal, interrupted, timeout, failure,
}
use lark_bridge_agent_sdk.CardState.Blocks.{append_text}
use lark_bridge_agent_sdk.Agents.{AgentEvent, event_of, Library}
use lark_bridge_agent_sdk.Agents.Values.{
  get, has_key, record_value, array_value, string_value, is_true, number_value, count_of,
}

pub data FinishReason : Type 0 where
  finish_interrupted finish_timeout : FinishReason
  other_finish : String → FinishReason

pub record Translator : Type 0 where
  pub session_id : String
  pub terminal : Bool
  pub commands : Map String

abbrev pub new_translator : Translator
new_translator = record { session_id = ""; terminal = false; commands = [] }

abbrev pub Step : Type 0
Step = Translator × List AgentEvent

unfoldable pub done_event : String → TerminationReason → AgentEvent
done_event session_id reason = record (event_of done) {
  termination_reason = reason;
  session_id = if is_empty session_id then none else some session_id;
}

unfoldable pub translate_system_init : Translator → Fields → Step
translate_system_init t raw =
    let session = string_value (get "session_id" raw) in
    (
      record t { session_id = or_else session t.session_id },
      record (event_of system) {
        session_id = session;
        cwd = string_value (get "cwd" raw);
        model = string_value (get "model" raw);
      }
          ∷ [],
    )

abbrev items_or_none : Option Items → Items
items_or_none none = no_items
items_or_none (some items) = items

abbrev content_of : Option Fields → Items
content_of none = no_items
content_of (some message) = items_or_none (array_value (get "content" message))

-- `messageContent`; no content and an empty one are one case for the code.
abbrev pub message_content : Fields → Items
message_content raw = content_of (record_value (get "message" raw))

abbrev text_block : Option String → List AgentEvent
text_block none = []
text_block (some s) = if is_empty s then [] else record (event_of text) { delta = some s } ∷ []

abbrev thinking_block : Option String → List AgentEvent
thinking_block none = []
thinking_block (some s) =
    if is_empty s then [] else record (event_of thinking) { delta = some s } ∷ []

abbrev tool_block : Json → Option String → Option String → List AgentEvent
tool_block input (some id) (some name) =
    if is_empty id || is_empty name
    then []
    else record (event_of tool_use) { id = some id; name = some name; input = input } ∷ []
tool_block input _ _ = []

unfoldable pub assistant_block : Option Fields → List AgentEvent
assistant_block none = []
assistant_block (some block) =
    let type = or_else (string_value (get "type" block)) "" in
    if type == "text"
    then text_block (string_value (get "text" block))
    else if type == "thinking"
    then thinking_block (string_value (get "thinking" block))
    else if type == "tool_use"
    then tool_block (get "input" block) (string_value (get "id" block))
        (string_value (get "name" block))
    else []

unfoldable pub assistant_blocks : Items → List AgentEvent
unfolding assistant_block
assistant_blocks no_items = []
assistant_blocks (item v vs) = assistant_block (record_value v) ++ assistant_blocks vs

abbrev pub translate_assistant : Fields → List AgentEvent
translate_assistant raw = assistant_blocks (message_content raw)

abbrev or_marshal : Library → Json → Bool → Option String → Option String
or_marshal lib content exists (some s) = some s
or_marshal lib content true none = lib.marshal content
or_marshal lib content false none = none

-- `toolResultOutput`.
abbrev tool_result_output : Library → Fields → Option String
tool_result_output lib block =
    let content = get "content" block in
    or_marshal lib content (has_key "content" block) (string_value content)

abbrev result_event : Library → Fields → Option String → List AgentEvent
result_event lib block none = []
result_event lib block (some id) =
    if is_empty id
    then []
    else record (event_of tool_result) {
      id = some id;
      output = tool_result_output lib block;
      is_error = some (is_true (get "is_error" block));
    }
      ∷ []

unfoldable pub user_block : Library → Option Fields → List AgentEvent
user_block lib none = []
user_block lib (some block) =
    if or_else (string_value (get "type" block)) "" == "tool_result"
    then result_event lib block (string_value (get "tool_use_id" block))
    else []

unfoldable pub user_blocks : Library → Items → List AgentEvent
unfolding user_block
user_blocks lib no_items = []
user_blocks lib (item v vs) = user_block lib (record_value v) ++ user_blocks lib vs

abbrev pub translate_user : Library → Fields → List AgentEvent
translate_user lib raw = user_blocks lib (message_content raw)

-- The texts of `errors`, each with a line break.
unfoldable pub error_lines : Items → String
error_lines no_items = ""
error_lines (item (str s) vs) = append_text s (append_text "\n" (error_lines vs))
error_lines (item _ vs) = error_lines vs

-- `floatValue`: the number as it is.
abbrev float_value : Json → Option Json
float_value (num n) = some (num n)
float_value _ = none

unfoldable pub usage_events : Library → Fields → Option Fields → List AgentEvent
usage_events lib raw none = []
usage_events lib raw (some counts) =
    record (event_of usage) {
      input_tokens = count_of (number_value lib (get "input_tokens" counts));
      output_tokens = count_of (number_value lib (get "output_tokens" counts));
      cached_input_tokens = count_of (number_value lib (get "cache_read_input_tokens" counts));
      cost_usd = float_value (get "total_cost_usd" raw);
    }
    ∷ []

abbrev answer : Bool → Option String → List AgentEvent
answer failed none = []
answer failed (some result) =
    if failed then [] else record (event_of text) { phase = final_answer; delta = some result } ∷ []

unfoldable pub failure_message : Fields → String → String
unfolding error_lines
failure_message raw subtype =
    let result = or_else (string_value (get "result" raw)) "" in
    let listed =
      if is_empty result
      then error_lines (items_or_none (array_value (get "errors" raw)))
      else result in
    if is_empty listed then append_text "Claude run failed: " subtype else listed

unfoldable pub translate_result : Library → Translator → Fields → Step
unfolding done_event usage_events failure_message
translate_result lib t raw =
    let subtype = or_else (string_value (get "subtype" raw)) "" in
    let failed = is_true (get "is_error" raw) || is_some (strip_prefix "error" subtype) in
    let session = or_else (string_value (get "session_id" raw)) t.session_id in
    let front =
      answer failed (string_value (get "result" raw))
      ++ usage_events lib raw (record_value (get "usage" raw)) in
    let failure_event = record (event_of error) {
      message = some (trim_space (failure_message raw subtype));
      termination_reason = failure;
    } in
    (
      record t { terminal = true; session_id = session },
      front ++ (if failed then failure_event else done_event session normal) ∷ [],
    )
