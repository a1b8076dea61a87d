-- ===== src/Agents/Actions.antt =====
-- internal/compat/agentoutput/messages.go: messages that ask the user to act.
use lark_bridge_agent_sdk.Base.{
  String, Bool, false, not, ◌&&◌, ◌||◌, Option, none, some, List, [], ◌∷◌, ◌==◌, if◌then◌else◌, ltb,
  is_some, or_else, includes, length,
}
use lark_bridge_agent_sdk.Base.Json.{Json, null, str, obj, Fields, no_fields, field}
use lark_bridge_agent_sdk.Base.Text.{
  trim_space, is_blank, is_empty, strip_prefix, strip_suffix, contains, contains_any, fields,
}
use lark_bridge_agent_sdk.CardState.{user_action}
use lark_bridge_agent_sdk.CardState.Blocks.{append_text}
use lark_bridge_agent_sdk.Agents.{AgentEvent, event_of, Library, CardRequest, ActionRequest, Link}

abbrev pub action_id : Library → String → String
action_id lib text = append_text "action-" (lib.digest text)

unfoldable pub action_event : String → String → String → Json → AgentEvent
action_event id kind message input = record (event_of user_action) {
  id = some id;
  name = some kind;
  delta = some message;
  input = input;
}

-- What stands between two marks, when a text starts with the one and ends with the other. The
-- prefix is cut first, as in the code, and the suffix from what is left if it is still there.
unfoldable pub marked : String → String → String → Option String
unfolding strip_prefix strip_suffix
marked start end s = elim (strip_prefix start s) [
  | none ↦ none
  | some body ↦
      if is_some (strip_suffix end s) then some (or_else (strip_suffix end body) body) else none
]

abbrev pub card_with : String → Option Fields → Option AgentEvent
card_with id none = none
card_with id (some card) =
    if is_empty id then none else some (action_event id "card" "交互卡片" (obj card))

abbrev pub card_action : Option CardRequest → Option AgentEvent
card_action none = none
card_action (some r) = card_with r.id r.card

abbrev pub is_kind : String → Bool
is_kind kind = kind == "authorization" || kind == "confirmation" || kind == "question"

abbrev pub request_action : Library → Option ActionRequest → Option AgentEvent
request_action lib none = none
request_action lib (some r) =
    if is_blank r.message || not (is_kind r.kind)
    then none
    else some (
        action_event (if is_empty r.id then action_id lib r.message else r.id) r.kind r.message
          null)

abbrev pub or_marked : Library → Option String → Option AgentEvent
or_marked lib none = none
or_marked lib (some body) = request_action lib (lib.parse_action body)

abbrev pub or_card : Library → String → Option String → Option AgentEvent
or_card lib text (some body) = card_action (lib.parse_card body)
or_card lib text none = or_marked lib (marked "<bridge_user_action>" "</bridge_user_action>" text)

-- `UserAction`.
unfoldable pub user_action_of : Library → String → Option AgentEvent
unfolding marked
user_action_of lib s =
    let text = trim_space s in or_card lib text (marked "<bridge_card>" "</bridge_card>" text)

abbrev pub is_shell : String → Bool
is_shell name = name == "sh" || name == "bash" || name == "zsh" || name == "dash"

-- The text in single quotes, or in double quotes as `strconv.Unquote` reads it.
abbrev pub before_quote : Option String → Option String
before_quote none = none
before_quote (some s) = strip_suffix "'" s

abbrev pub literal : Library → String → Option String → Option String
literal lib argument (some inner) = if contains inner "'" then none else some inner
literal lib argument none =
    if is_some (strip_prefix "\"" argument) then lib.unquote argument else none

unfoldable pub shell_argument : Library → String → Option String
shell_argument lib argument = literal lib argument (before_quote (strip_prefix "'" argument))

abbrev pub words : Option String → List String
words none = []
words (some s) = fields s

abbrev pub shell_fields : Library → String → List String → List String
shell_fields lib command (shell ∷ flag ∷ rest) =
    if flag == "-c" || flag == "-lc"
    then (let after_shell =
          trim_space (or_else (strip_prefix shell (trim_space command)) (trim_space command)) in
        let argument = trim_space (or_else (strip_prefix flag after_shell) after_shell) in
        if ltb (lib.byte_length argument) 2 then [] else words (shell_argument lib argument))
    else []
shell_fields lib command _ = []

abbrev pub first_of : List String → String
first_of [] = ""
first_of (s ∷ ss) = s

-- `loginCommandFields`.
unfoldable pub login_command_fields : Library → String → List String
unfolding shell_argument
login_command_fields lib command =
    let parts = fields command in
    if contains_any command "\n\r;&|><$`()" || ltb (length parts) 3
    then []
    else if is_shell (lib.base_name (first_of parts))
    then shell_fields lib command parts
    else parts

abbrev pub is_login : Library → List String → Bool
is_login lib (program ∷ auth ∷ login ∷ flags) =
    lib.base_name program == "lark-cli"
    && auth == "auth"
    && login == "login"
    && includes flags "--no-wait"
    && includes flags "--json"
is_login lib _ = false

abbrev pub is_safe_link : Option Link → Bool
is_safe_link none = false
is_safe_link (some u) = u.scheme == "https" && not (is_empty u.host) && not u.has_user

abbrev pub login_link : Option (String × String) → Option String
login_link none = none
login_link (some (link, data_link)) = some (if is_empty link then data_link else link)

abbrev pub authorization : Library → Option String → Option AgentEvent
authorization lib none = none
authorization lib (some link) =
    if is_safe_link (lib.parse_link link)
    then some (
        action_event (action_id lib link) "authorization"
          (append_text "需要飞书授权，请打开以下链接完成授权，完成后我会继续处理。\n\n" link)
          (obj (field "url" (str link) no_fields)))
    else none

-- `LarkAuthorization`. The five words that it asks for are those of the command and two flags.
unfoldable pub lark_authorization : Library → String → String → Option AgentEvent
unfolding login_command_fields
lark_authorization lib command output =
    if is_login lib (login_command_fields lib command)
    then authorization lib (login_link (lib.parse_login output))
    else none
