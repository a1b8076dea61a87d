-- ===== src/Agents/Output.antt =====
-- internal/compat/agentoutput/messages.go: `Stream`, which tells progress from the final answer.
pub mod Quiet
pub mod Closing
use lark_bridge_agent_sdk.Base.{
  ℕ, ◌+◌, String, Bool, true, false, not, ◌&&◌, ◌||◌, Option, none, some, List, [], ◌∷◌, ◌++◌, ◌==◌,
  if◌then◌else◌, or_else, includes,
}
use lark_bridge_agent_sdk.Base.Json.{Json, str, obj, Fields}
use lark_bridge_agent_sdk.Base.Text.{is_empty, is_blank, trim_space, contains}
use lark_bridge_agent_sdk.CardState.{
  EventType, system, text, user_action, thinking, tool_use, tool_result, usage, done, error,
  other_event, commentary, final_answer,
}
use lark_bridge_agent_sdk.CardState.Blocks.{value, append_text, is_final_phase, is_no_phase}
use lark_bridge_agent_sdk.Agents.{AgentEvent, event_of, Library}
use lark_bridge_agent_sdk.Agents.Values.{get}
use lark_bridge_agent_sdk.Agents.Actions.{action_id, user_action_of}

pub record Stream : Type 0 where
  pub pending : Option AgentEvent
  pub usage : List AgentEvent
  pub seen_actions : List String
  pub authorization_urls : List String
  pub message_index : ℕ

abbrev pub new_stream : Stream
new_stream = record {
  pending = none;
  usage = [];
  seen_actions = [];
  authorization_urls = [];
  message_index = 0;
}

abbrev pub as_progress : AgentEvent → AgentEvent
as_progress e = record e { phase = commentary }

-- `flushProgress`: the events that it returns; the pending one is then gone.
abbrev pub progress : Option AgentEvent → List AgentEvent
progress none = []
progress (some e) = as_progress e ∷ []

abbrev pub without_pending : Stream → Stream
without_pending s = record s { pending = none }

abbrev pub same_pending : Option AgentEvent → String → Bool
same_pending none delta = false
same_pending (some e) delta = trim_space (value e.delta) == trim_space delta

-- A message without an id takes the next number.
unfoldable pub numbered : Library → Stream → AgentEvent → Stream × AgentEvent
numbered lib s e =
    let n = s.message_index + 1 in
    if is_empty (value e.id)
    then (
      record s { message_index = n },
      record e { id = some (append_text "message-" (lib.decimal n)) },
    )
    else (s, e)

unfoldable pub push_numbered : Stream → AgentEvent → String → Stream × List AgentEvent
push_numbered s e delta =
    if is_final_phase e.phase && same_pending s.pending delta
    then (record s { pending = some e }, [])
    else if not (is_no_phase e.phase) && not (is_final_phase e.phase)
    then (without_pending s, progress s.pending ++ as_progress e ∷ [])
    else (record s { pending = some e }, progress s.pending)

unfoldable pub push_message : Library → Stream → AgentEvent → String → Stream × List AgentEvent
unfolding numbered push_numbered
push_message lib s e delta =
    if is_empty delta && not (is_final_phase e.phase)
    then (s, [])
    else (let (s', e') = numbered lib s e in push_numbered s' e' delta)

abbrev pub url_of : Json → Option String
url_of (obj input) = link (get "url" input)
  where
    link : Json → Option String
    link (str s) = if is_empty s then none else some s
    link _ = none
url_of _ = none

abbrev pub with_url : Option String → List String → List String
with_url none urls = urls
with_url (some link) urls = urls ++ link ∷ []

-- The first link that the text has.
unfoldable pub key_of_links : Library → List String → String → String → String
key_of_links lib [] delta key = key
key_of_links lib (link ∷ links) delta key =
    let rest = key_of_links lib links delta key in
    if contains delta link then action_id lib link else rest

unfoldable pub push_action : Library → Stream → AgentEvent → Stream × List AgentEvent
unfolding key_of_links
push_action lib s e =
    let own = if is_empty (value e.id) then action_id lib (value e.delta) else value e.id in
    let authorizes = value e.name == "authorization" in
    let urls =
      if authorizes then with_url (url_of e.input) s.authorization_urls else s.authorization_urls in
    let key = if authorizes then key_of_links lib urls (value e.delta) own else own in
    let s' = record (without_pending s) { authorization_urls = urls } in
    if includes s.seen_actions key
    then (s', progress s.pending)
    else (record s' { seen_actions = key ∷ s.seen_actions }, progress s.pending ++ e ∷ [])

abbrev pub or_message :
    Library → Stream → AgentEvent → String → Option AgentEvent → Stream × List AgentEvent
or_message lib s e delta (some action) = push_action lib s action
or_message lib s e delta none = push_message lib s e delta

abbrev pub push_text : Library → Stream → AgentEvent → Option String → Stream × List AgentEvent
push_text lib s e none = (s, [])
push_text lib s e (some delta) = or_message lib s e delta (user_action_of lib delta)

unfoldable push_typed : Library → Stream → AgentEvent → EventType → Stream × List AgentEvent
unfolding push_action push_message
push_typed lib s e text = push_text lib s e e.delta
push_typed lib s e user_action = push_action lib s e
push_typed lib s e tool_use = (without_pending s, progress s.pending ++ e ∷ [])
push_typed lib s e thinking = (without_pending s, progress s.pending ++ e ∷ [])
push_typed lib s e usage = (record s { usage = s.usage ++ e ∷ [] }, [])
push_typed lib s e _ = (s, e ∷ [])

-- `Push`.
unfoldable pub push : Library → Stream → AgentEvent → Stream × List AgentEvent
unfolding push_typed
push lib s e = push_typed lib s e e.type

abbrev pub final_message : String → List AgentEvent
final_message final =
    if is_blank final
    then []
    else record (event_of text) { phase = final_answer; delta = some final } ∷ []

abbrev pub replaced : Option AgentEvent → String → List AgentEvent
replaced none final = []
replaced (some e) final =
    if trim_space (value e.delta) == trim_space final then [] else as_progress e ∷ []

abbrev pub finish_given : Library → Stream → String → Option AgentEvent → Stream × List AgentEvent
finish_given lib s final (some action) =
    let (s', out) = push_action lib (without_pending s) action in
    (s', replaced s.pending final ++ out)
finish_given lib s final none = (without_pending s, replaced s.pending final ++ final_message final)

abbrev pub finish_pending : Option AgentEvent → List AgentEvent
finish_pending none = []
finish_pending (some e) =
    if is_blank (value e.delta) then [] else record e { phase = final_answer } ∷ []

abbrev pub finish_success : Library → Stream → Option String → Stream × List AgentEvent
finish_success lib s none = (without_pending s, finish_pending s.pending)
finish_success lib s (some final) = finish_given lib s final (user_action_of lib final)

abbrev pub with_usage : Stream × List AgentEvent → Stream × List AgentEvent
with_usage (s, out) = (record s { usage = [] }, out ++ s.usage)

-- `Finish`.
unfoldable pub finish : Library → Stream → Option String → Bool → Stream × List AgentEvent
unfolding push_action
finish lib s final success =
    with_usage
      (if success then finish_success lib s final else (without_pending s, progress s.pending))
