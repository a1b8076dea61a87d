-- ===== src/Agents/Output/Quiet.antt =====
-- internal/compat/agentoutput/messages.go: what `Push` and `Finish` may send.
use lark_bridge_agent_sdk.Base.{
  String, ◌≡◌, refl, ap, Bool, true, false, not, ◌&&◌, ◌||◌, Option, none, some, List, [], ◌∷◌,
  ◌++◌, if-lift, any, arith, includes,
}
use lark_bridge_agent_sdk.Base.Text.{is_empty, is_blank, trim_space}
use lark_bridge_agent_sdk.CardState.{
  EventType, system, text, user_action, thinking, tool_use, tool_result, usage, done, error,
  other_event,
}
use lark_bridge_agent_sdk.CardState.Blocks.{value, is_final_phase, is_no_phase}
use lark_bridge_agent_sdk.CardState.{is_end}
use lark_bridge_agent_sdk.Agents.{AgentEvent, Library, CardRequest, ActionRequest}
use lark_bridge_agent_sdk.Agents.Actions.{
  action_event, card_with, card_action, request_action, or_marked, or_card, user_action_of, is_kind,
  marked,
}
use lark_bridge_agent_sdk.Agents.Output.{
  Stream, as_progress, progress, same_pending, numbered, push_numbered, push_message, push_action,
  or_message, push_text, push_typed, push,
}

abbrev is_text_type : EventType → Bool
is_text_type text = true
is_text_type _ = false

-- A text that is the final answer.
abbrev pub is_final_text : AgentEvent → Bool
is_final_text e = is_text_type e.type && is_final_phase e.phase

-- The end of a run, or its final answer.
abbrev pub is_loud : AgentEvent → Bool
is_loud e = is_end e.type || is_final_text e

abbrev pub Silent : Option AgentEvent → Type 0
Silent none = Unit
Silent (some e) = is_loud e ≡ false

abbrev pub NoEnd : Option AgentEvent → Type 0
NoEnd none = Unit
NoEnd (some e) = is_end e.type ≡ false

-- What a stream holds back: a message that ends nothing, and counts of tokens.
abbrev pub Holds : Stream → Type 0
Holds s = NoEnd s.pending × (any is_loud s.usage ≡ false)

abbrev pub QuietStep : Stream × List AgentEvent → Type 0
QuietStep (s, out) = Holds s × (any is_loud out ≡ false)

card_with-Silent : (id : String) (card : Option _) → Silent (card_with id card)
unfolding action_event
card_with-Silent id none = tt
card_with-Silent id (some card) = if-lift Silent (is_empty id) none _ tt refl

card_action-Silent : (r : Option CardRequest) → Silent (card_action r)
card_action-Silent none = tt
card_action-Silent (some r) = card_with-Silent r.id r.card

request_action-Silent : (lib : Library) (r : Option ActionRequest) → Silent (request_action lib r)
unfolding action_event
request_action-Silent lib none = tt
request_action-Silent lib (some r) =
    if-lift Silent (is_blank r.message || not (is_kind r.kind)) none _ tt refl

or_marked-Silent : (lib : Library) (body : Option String) → Silent (or_marked lib body)
or_marked-Silent lib none = tt
or_marked-Silent lib (some body) = request_action-Silent lib (lib.parse_action body)

or_card-Silent : (lib : Library) (s : String) (body : Option String) → Silent (or_card lib s body)
or_card-Silent lib s (some body) = card_action-Silent (lib.parse_card body)
or_card-Silent lib s none =
    or_marked-Silent lib (marked "<bridge_user_action>" "</bridge_user_action>" s)

pub user_action_of-Silent : (lib : Library) (s : String) → Silent (user_action_of lib s)
unfolding user_action_of
user_action_of-Silent lib s =
    or_card-Silent lib (trim_space s) (marked "<bridge_card>" "</bridge_card>" (trim_space s))

pub any-append :
    (p : AgentEvent → Bool) (es fs : List AgentEvent)
    → any p es ≡ false
    → any p fs ≡ false
    → any p (es ++ fs) ≡ false
unfolding any
any-append p [] fs h k = k
any-append p (e ∷ es) fs h k = ground (arith, any-append p es fs (ground arith) k)

pub progress-any : (o : Option AgentEvent) → NoEnd o → any is_loud (progress o) ≡ false
unfolding any
progress-any none h = refl
progress-any (some e) h = ground arith

-- What was pending goes out as progress, and an event after it.
progress_then :
    (s : Stream) (e : AgentEvent)
    → Holds s
    → is_loud e ≡ false
    → any is_loud (progress s.pending ++ e ∷ []) ≡ false
unfolding any
progress_then s e (p, u) h =
    any-append is_loud (progress s.pending) (e ∷ []) (progress-any s.pending p) (ground arith)

pub push_action-QuietStep :
    (lib : Library) (s : Stream) (e : AgentEvent)
    → Holds s
    → is_loud e ≡ false
    → QuietStep (push_action lib s e)
unfolding push_action
push_action-QuietStep lib s e (p, u) h =
    if-lift QuietStep (includes s.seen_actions _) _ _ ((tt, u), progress-any s.pending p)
      ((tt, u), progress_then s e (p, u) h)

push_numbered-QuietStep :
    (s : Stream) (e : AgentEvent) (delta : String)
    → Holds s
    → is_end e.type ≡ false
    → QuietStep (push_numbered s e delta)
unfolding push_numbered any
push_numbered-QuietStep s e delta (p, u) h =
    if-lift QuietStep (is_final_phase e.phase && same_pending s.pending delta) _ _ ((h, u), refl)
      (if-lift QuietStep (not (is_no_phase e.phase) && not (is_final_phase e.phase)) _ _
        ((tt, u), progress_then s (as_progress e) (p, u) (ground arith))
        ((h, u), progress-any s.pending p))

push_message-QuietStep :
    (lib : Library) (s : Stream) (e : AgentEvent) (delta : String)
    → Holds s
    → is_end e.type ≡ false
    → QuietStep (push_message lib s e delta)
unfolding push_message numbered any
push_message-QuietStep lib s e delta (p, u) h =
    if-lift QuietStep (is_empty delta && not (is_final_phase e.phase)) (s, []) _ ((p, u), refl)
      (if-lift {A = Stream × AgentEvent} (λ r. QuietStep (push_numbered r.0 r.1 delta))
        (is_empty (value e.id)) _ (s, e) (push_numbered-QuietStep _ _ delta (p, u) h)
        (push_numbered-QuietStep s e delta (p, u) h))

or_message-QuietStep :
    (lib : Library) (s : Stream) (e : AgentEvent) (delta : String) (action : Option AgentEvent)
    → Holds s
    → is_end e.type ≡ false
    → Silent action
    → QuietStep (or_message lib s e delta action)
or_message-QuietStep lib s e delta (some action) p h silent =
    push_action-QuietStep lib s action p silent
or_message-QuietStep lib s e delta none p h silent = push_message-QuietStep lib s e delta p h

push_text-QuietStep :
    (lib : Library) (s : Stream) (e : AgentEvent) (delta : Option String)
    → Holds s
    → is_end e.type ≡ false
    → QuietStep (push_text lib s e delta)
unfolding any
push_text-QuietStep lib s e none p h = (p, refl)
push_text-QuietStep lib s e (some delta) p h =
    or_message-QuietStep lib s e delta (user_action_of lib delta) p h
      (user_action_of-Silent lib delta)

push_typed-QuietStep :
    (lib : Library) (s : Stream) (e : AgentEvent) (type : EventType)
    → e.type ≡ type
    → Holds s
    → is_end type ≡ false
    → QuietStep (push_typed lib s e type)
unfolding push_typed any
push_typed-QuietStep lib s e text t p h = push_text-QuietStep lib s e e.delta p (ap is_end t)
push_typed-QuietStep lib s e user_action t p h = push_action-QuietStep lib s e p (ground arith)
push_typed-QuietStep lib s e tool_use t (p, u) h =
    ((tt, u), progress_then s e (p, u) (ground arith))
push_typed-QuietStep lib s e thinking t (p, u) h =
    ((tt, u), progress_then s e (p, u) (ground arith))
push_typed-QuietStep lib s e usage t (p, u) h =
    ((p, any-append is_loud s.usage (e ∷ []) u (ground arith)), refl)
push_typed-QuietStep lib s e system t p h = (p, ground arith)
push_typed-QuietStep lib s e tool_result t p h = (p, ground arith)
push_typed-QuietStep lib s e (other_event name) t p h = (p, ground arith)
push_typed-QuietStep lib s e done t p h = absurd (cc h)
push_typed-QuietStep lib s e error t p h = absurd (cc h)

-- An event that does not end the run sends neither an end nor a final answer, and leaves none.
pub push-QuietStep :
    (lib : Library) (s : Stream) (e : AgentEvent)
    → Holds s
    → is_end e.type ≡ false
    → QuietStep (push lib s e)
unfolding push
push-QuietStep lib s e p h = push_typed-QuietStep lib s e e.type refl p h
