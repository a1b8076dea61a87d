-- ===== src/Agents/Claude/Translate.antt =====
-- internal/adapters/agent/claudecli/stream_json.go: `Translate` and `Finish`.
use lark_bridge_agent_sdk.Base.{
  String, Bool, true, false, not, ◌&&◌, ◌||◌, Option, none, some, List, [], ◌∷◌, ◌++◌, ◌==◌,
  if◌then◌else◌, or_else,
}
use lark_bridge_agent_sdk.Base.Json.{Json, Fields}
use lark_bridge_agent_sdk.Base.Map.{Map, lookup, insert, delete}
use lark_bridge_agent_sdk.Base.Text.{is_empty}
use lark_bridge_agent_sdk.CardState.{EventType, text, tool_use, commentary, interrupted, timeout}
use lark_bridge_agent_sdk.Agents.{AgentEvent, Library}
use lark_bridge_agent_sdk.Agents.Values.{get, record_value, string_value}
use lark_bridge_agent_sdk.Agents.Actions.{lark_authorization}
use lark_bridge_agent_sdk.Agents.Claude.{
  FinishReason, finish_interrupted, finish_timeout, other_finish, Translator, Step, done_event,
  translate_system_init, translate_assistant, assistant_blocks, translate_user, user_blocks,
  translate_result,
}

abbrev is_text_event : EventType → Bool
is_text_event text = true
is_text_event _ = false

-- What a subagent says is progress.
abbrev subagent_phase : Bool → AgentEvent → AgentEvent
subagent_phase nested e =
    if nested && is_text_event e.type then record e { phase = commentary } else e

abbrev is_bash : String → Bool
is_bash name = name == "Bash" || name == "bash"

abbrev remembered : Map String → String → Option Fields → Map String
remembered commands id none = commands
remembered commands id (some input) =
    insert id (or_else (string_value (get "command" input)) "") commands

abbrev remember_call : Map String → EventType → Option String → Option String → Json → Map String
remember_call commands tool_use (some id) (some name) input =
    if is_bash name then remembered commands id (record_value input) else commands
remember_call commands _ _ _ _ = commands

unfoldable remember_calls : Map String → List AgentEvent → Map String
remember_calls commands [] = commands
remember_calls commands (e ∷ es) =
    remember_calls (remember_call commands e.type e.id e.name e.input) es

unfoldable in_phase : Bool → List AgentEvent → List AgentEvent
in_phase nested [] = []
in_phase nested (e ∷ es) = subagent_phase nested e ∷ in_phase nested es

abbrev and_action : Option AgentEvent → List AgentEvent
and_action none = []
and_action (some action) = action ∷ []

-- The link of a login command that succeeded.
abbrev action_after : Library → String → Option String → Option Bool → List AgentEvent
action_after lib command none failed = []
action_after lib command (some output) (some true) = []
action_after lib command (some output) _ = and_action (lark_authorization lib command output)

abbrev user_event : Library → Map String → AgentEvent → Option String → Map String × List AgentEvent
user_event lib commands e none = (commands, e ∷ [])
user_event lib commands e (some id) =
    (delete id commands, e ∷ action_after lib (or_else (lookup id commands) "") e.output e.is_error)

unfoldable user_events : Library → Map String → List AgentEvent → Map String × List AgentEvent
user_events lib commands [] = (commands, [])
user_events lib commands (e ∷ es) =
    let (next, out) = user_event lib commands e e.id in
    let (last, more) = user_events lib next es in (last, out ++ more)

unfoldable pub translate_typed : Library → Translator → Fields → String → Step
unfolding translate_system_init assistant_blocks user_blocks translate_result remember_calls
    in_phase user_events
translate_typed lib t raw type =
    let events = translate_assistant raw in
    let nested = not (is_empty (or_else (string_value (get "parent_tool_use_id" raw)) "")) in
    let (commands, results) = user_events lib t.commands (translate_user lib raw) in
    if type == "system"
    then (if or_else (string_value (get "subtype" raw)) "" == "init"
        then translate_system_init t raw
        else (t, []))
    else if type == "assistant"
    then (record t { commands = remember_calls t.commands events }, in_phase nested events)
    else if type == "user"
    then (record t { commands = commands }, results)
    else if type == "result"
    then translate_result lib t raw
    else (t, [])

abbrev translate_record : Library → Translator → Option Fields → Step
translate_record lib t none = (t, [])
translate_record lib t (some raw) =
    translate_typed lib t raw (or_else (string_value (get "type" raw)) "")

unfoldable pub translate : Library → Translator → Json → Step
unfolding translate_typed
translate lib t raw = if t.terminal then (t, []) else translate_record lib t (record_value raw)

abbrev finish_events : Translator → FinishReason → List AgentEvent
finish_events t finish_interrupted = done_event t.session_id interrupted ∷ []
finish_events t finish_timeout = done_event t.session_id timeout ∷ []
finish_events t (other_finish s) = []

-- `Finish`, which ends the translation.
unfoldable pub finish_translation : Translator → FinishReason → Step
finish_translation t reason =
    if t.terminal then (t, []) else (record t { terminal = true }, finish_events t reason)
