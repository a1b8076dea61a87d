-- ===== src/Agents/Samples.antt =====
-- internal/ports/agent: what an agent prints, and Go's library in small, for the tests.
use lark_bridge_agent_sdk.Base.{
  String, Option, none, some, List, [], ◌∷◌, if◌then◌else◌, ◌==◌, nat_eq,
}
use lark_bridge_agent_sdk.Base.Json.{Json, str, obj, field, no_fields}
use lark_bridge_agent_sdk.Base.Text.{runes, take_runes}
use lark_bridge_agent_sdk.Agents.{Library, natural}
use lark_bridge_agent_sdk.Agents.Process.{Ending}

abbrev typed : String → Json
typed type = obj (field "type" (str type) no_fields)

abbrev message : Json
message = obj (
    field "type" (str "item.completed") (
      field "item"
        (obj (field "type" (str "agent_message") (field "text" (str "done it") no_fields)))
        no_fields))

-- The lines that the runs below print, in place of their JSON.
abbrev read : String → Option Json
read line =
    if line == "message"
    then some message
    else if line == "result"
    then some (obj (field "type" (str "result") (field "result" (str "done it") no_fields)))
    else if line == "completed"
    then some (typed "turn.completed")
    else none

abbrev pub toy_library : Library
toy_library = record {
  parse = read;
  parse_card = λ s. none;
  parse_action = λ s. none;
  parse_login = λ s. none;
  whole = λ s. none;
  marshal = λ v. none;
  byte_length = runes;
  byte_prefix = take_runes;
  decimal = λ n. if nat_eq n 1 then "1" else "many";
  base_name = λ s. s;
  unquote = λ s. none;
  parse_link = λ s. none;
  digest = λ s. s;
}

abbrev pub exited : {R : Type 0} → Ending R
exited = record { stop_reason = none; runtime_error = none; exit_code = natural 0; stderr = "" }

abbrev pub killed : {R : Type 0} → Ending R
killed = record { stop_reason = none; runtime_error = none; exit_code = natural 9; stderr = "oops" }

abbrev pub lines : List String
lines = "message" ∷ "not json" ∷ "completed" ∷ []
