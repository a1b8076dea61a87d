-- ===== src/Presenter/Present.antt =====
-- internal/app/impresenter/presenter.go: `Present`, which drives the messages and cards of a run.
-- Each arm of its `select` is an arrival; the answers of the channel and the time of the clock come
-- with it. The callbacks that only report an error are left out. Where there is no run, its events are
-- closed at once.
pub mod Conclude
pub mod Steps
pub mod Over
pub mod Idle
pub mod Fires
pub mod Hangs
pub mod Pipeline
pub mod Whole
pub mod Delivered
mod Tests
use lark_bridge_agent_sdk.Base.{
  ℕ, ◌-◌, String, Bool, true, false, not, ◌&&◌, ◌||◌, Option, none, some, List, [], ◌∷◌, ◌++◌, leb,
  ltb, Result, ok, err, if◌then◌else◌,
}
use lark_bridge_agent_sdk.Base.Text.{is_blank, is_empty}
use lark_bridge_agent_sdk.CardState.{
  Event, EventType, system, text, user_action, thinking, tool_use, tool_result, RunState,
}
use lark_bridge_agent_sdk.CardState.Blocks.{is_final_phase}
use lark_bridge_agent_sdk.CardState.Reduce.{reduce}
use lark_bridge_agent_sdk.Agents.{AgentEvent, event_of, to_card_event}
use lark_bridge_agent_sdk.Presenter.{ReplyMode, reply_markdown, reply_card, reply_text, Input}
use lark_bridge_agent_sdk.Presenter.Content.{
  is_active, normalize_reply_mode, progress_only_state, stream_throttle, track_tool_flight,
}
use lark_bridge_agent_sdk.Presenter.Rollover.{
  CardStream, Channel, Change, Rolled, rolled, roll_failed, still_rolling, mark_sent,
  new_card_stream, reduce_stream,
}
use lark_bridge_agent_sdk.Presenter.Rollover as Cards
use lark_bridge_agent_sdk.Presenter.Markdown.{MarkdownStream, new_markdown_stream, Sent, Done}
use lark_bridge_agent_sdk.Presenter.Markdown as Messages
use lark_bridge_agent_sdk.Presenter.Markdown.Text.{render_run_markdown}
use lark_bridge_agent_sdk.Presenter.Actions.{ActionDelivery, no_deliveries}
use lark_bridge_agent_sdk.Presenter.Actions

-- What `Input` says besides what is shown; `has_resume` is a channel `ResumeProgress`.
pub record Setup : Type 0 where
  pub input : Input
  pub defer_until_done : Bool
  pub has_resume : Bool
  pub idle_timeout : ℕ
  pub private_chat : Bool

-- The answers of the channel to what one arrival makes the presenter send.
pub record StepAnswers : Type 0 where
  pub now : ℕ
  pub card_send : Result String String
  pub card : Channel
  pub fuel : ℕ
  pub markdown : Messages.Answers
  pub action : Actions.Answers

-- The variables of `Present`, and what was sent: the roll-overs of cards, the messages, the
-- messages to act on, and the last update of a card that a separate answer follows.
-- `final_answer_only` and `defer_until_done` are those of `input`, which it changes; `resume_open`
-- says that `ResumeProgress` is not nil. `hung` says that a flush of the cards used up its fuel.
pub record Presenting : Type 0 where
  pub final_answer_only : Bool
  pub defer_until_done : Bool
  pub resume_open : Bool
  pub state : RunState
  pub card : CardStream
  pub markdown : MarkdownStream
  pub actions : ActionDelivery
  pub action_pending : Bool
  pub markdown_update_failed : Bool
  pub last_card_update : Option ℕ
  pub last_markdown_update : Option ℕ
  pub in_flight : List String
  pub idle_armed : Bool
  pub idle_fired : Bool
  pub changes : List Change
  pub messages : List Sent
  pub action_messages : List Actions.Sent
  pub settled_card : Option (String × RunState)
  pub hung : Bool

abbrev pub separate_final : Setup → Bool
separate_final setup = setup.input.final_answer_only

-- `input` at this point of the run.
abbrev pub input_of : Setup → Presenting → Input
input_of setup p = record setup.input { final_answer_only = p.final_answer_only }

abbrev pub mode_of : Setup → ReplyMode
mode_of setup = normalize_reply_mode setup.input.reply_mode

abbrev pub progress_of : Setup → RunState → RunState
progress_of setup s = if separate_final setup then progress_only_state s else s

abbrev pub nothing_in_flight : List String → Bool
nothing_in_flight [] = true
nothing_in_flight (id ∷ ids) = false

-- `armIdleTimer`: whether the timer runs afterwards.
abbrev pub arms_idle_timer : Setup → List String → Bool
arms_idle_timer setup in_flight = ltb 0 setup.idle_timeout && nothing_in_flight in_flight

-- The presenter takes over what a call of the Markdown stream did.
abbrev pub with_done : Done → Presenting → Presenting
with_done r p = record p { markdown = r.stream; messages = p.messages ++ r.sent }

abbrev pub started_card :
    StepAnswers → Result String String → Presenting → Presenting × Option String
started_card a (err e) p = (p, some e)
started_card a (ok id) p =
    (record p { card = mark_sent id p.card; last_card_update = some a.now }, none)

abbrev pub started_markdown : StepAnswers → Option String → Presenting → Presenting × Option String
started_markdown a (some e) p = (p, some e)
started_markdown a none p = (record p { last_markdown_update = some a.now }, none)

abbrev pub start_markdown : Setup → StepAnswers → Presenting → Presenting × Option String
start_markdown setup a p =
    let s = reduce p.state (to_card_event (event_of system)) in
    let r = Messages.start (input_of setup p) a.markdown (progress_of setup s) p.markdown in
    started_markdown a r.error (with_done r (record p { state = s }))

abbrev pub start_in : ReplyMode → Setup → StepAnswers → Presenting → Presenting × Option String
start_in reply_card setup a p = started_card a a.card_send p
start_in reply_markdown setup a p = start_markdown setup a p
start_in _ setup a p = (p, none)

-- `startProgress`, and what its caller does with an error.
abbrev pub or_deferred : Presenting × Option String → Presenting
or_deferred (p, none) = p
or_deferred (p, some e) = record p { defer_until_done = true }

unfoldable pub start_progress : Setup → StepAnswers → Presenting → Presenting
start_progress setup a p = or_deferred (start_in (mode_of setup) setup a p)

-- `resumeProgress`.
unfoldable pub resume_progress : Setup → Bool → StepAnswers → Presenting → Presenting
unfolding start_progress
resume_progress setup live a p =
    let resumed = record p { resume_open = false; final_answer_only = false } in
    if live && resumed.defer_until_done
    then start_progress setup a (record resumed { defer_until_done = false })
    else resumed

-- The variables before the loop; `s` is the new state.
abbrev pub new_presenting : Setup → RunState → Presenting
new_presenting setup s = record {
  final_answer_only = setup.input.final_answer_only;
  defer_until_done = setup.defer_until_done;
  resume_open = setup.has_resume;
  state = s;
  card = new_card_stream s;
  markdown = new_markdown_stream;
  actions = no_deliveries;
  action_pending = false;
  markdown_update_failed = false;
  last_card_update = none;
  last_markdown_update = none;
  in_flight = [];
  idle_armed = arms_idle_timer setup [];
  idle_fired = false;
  changes = [];
  messages = [];
  action_messages = [];
  settled_card = none;
  hung = false;
}

unfoldable pub begin : Setup → StepAnswers → RunState → Presenting
unfolding start_progress
begin setup a s =
    let p = new_presenting setup s in if setup.defer_until_done then p else start_progress setup a p

abbrev pub delivered : ActionDelivery × List Actions.Sent → Presenting → Presenting
delivered (d, sent) p = record p {
  actions = d;
  action_pending = true;
  action_messages = p.action_messages ++ sent;
}

-- A user action is delivered; progress of the agent after it means that it was dealt with.
abbrev pub note_action : Setup → StepAnswers → EventType → AgentEvent → Presenting → Presenting
note_action setup a user_action e p =
    delivered (Actions.send true setup.private_chat a.action e p.actions) p
note_action setup a text e p = record p { action_pending = false }
note_action setup a thinking e p = record p { action_pending = false }
note_action setup a tool_use e p = record p { action_pending = false }
note_action setup a tool_result e p = record p { action_pending = false }
note_action setup a _ e p = p

-- Whether the throttle lets an update through.
abbrev pub is_due : Setup → ℕ → Option ℕ → Bool
is_due setup now none = true
is_due setup now (some last) = leb (stream_throttle setup.input.stream_throttle) (now - last)

abbrev pub is_card : ReplyMode → Bool
is_card reply_card = true
is_card _ = false

abbrev pub is_markdown : ReplyMode → Bool
is_markdown reply_markdown = true
is_markdown _ = false

abbrev pub should_stream_card_update : Setup → StepAnswers → Presenting → Bool
should_stream_card_update setup a p =
    not (is_empty p.card.message_id)
    && is_card (mode_of setup)
    && a.card.can_update
    && is_due setup a.now p.last_card_update

abbrev pub should_stream_markdown_update : Setup → StepAnswers → RunState → Presenting → Bool
should_stream_markdown_update setup a s p =
    is_markdown (mode_of setup)
    && a.markdown.can_update
    && not (is_blank (render_run_markdown (input_of setup p) s))
    && (is_empty p.markdown.message_id || is_due setup a.now p.last_markdown_update)

-- A flush of the cards; its error is not told. Where its fuel is used up it does not return.
abbrev pub flushed : StepAnswers → Rolled → Presenting → Presenting
flushed a (rolled cs s) p = record p {
  card = s;
  changes = p.changes ++ cs;
  last_card_update = some a.now;
}
flushed a (roll_failed cs s e) p = record p { card = s; changes = p.changes ++ cs }
flushed a (still_rolling cs s) p = record p { card = s; changes = p.changes ++ cs; hung = true }

unfoldable pub stream_card : Setup → StepAnswers → Presenting → Presenting
unfolding Cards.flush
stream_card setup a p =
    if not p.defer_until_done && should_stream_card_update setup a p
    then flushed a (Cards.flush (input_of setup p) a.card a.fuel p.card) p
    else p

abbrev pub after_messages : StepAnswers → Option String → Presenting → Presenting
after_messages a none p = record p { last_markdown_update = some a.now }
after_messages a (some e) p =
    if is_empty p.markdown.message_id then p else record p { markdown_update_failed = true }

unfoldable pub stream_markdown : Setup → StepAnswers → Presenting → Presenting
unfolding Messages.flush
stream_markdown setup a p =
    let s = progress_of setup p.state in
    let r = Messages.flush (input_of setup p) a.markdown s p.markdown in
    if not p.defer_until_done
      && not p.markdown_update_failed
      && should_stream_markdown_update setup a s p
    then after_messages a r.error (with_done r p)
    else p

-- Where the loop stands: it goes on, it is left for the end, the context is done, or a flush of the
-- cards has used up its fuel and not returned.
pub data Loop : Type 0 where
  going finished abandoned hangs : Presenting → Loop

abbrev pub unless_hung : Loop → Loop
unless_hung (going p) = if p.hung then hangs p else going p
unless_hung (finished p) = if p.hung then hangs p else finished p
unless_hung (abandoned p) = abandoned p
unless_hung (hangs p) = hangs p

abbrev pub is_separate_answer : Setup → AgentEvent → EventType → Bool
is_separate_answer setup e text = separate_final setup && is_final_phase e.phase
is_separate_answer setup e _ = false

-- An event, up to the new state.
abbrev pub received : Setup → StepAnswers → AgentEvent → Presenting → Presenting
received setup a e p =
    let in_flight = track_tool_flight p.in_flight (to_card_event e) in
    let noted = note_action setup a e.type e (record p { in_flight = in_flight }) in
    record noted {
      idle_armed = arms_idle_timer setup in_flight;
      state = reduce noted.state (to_card_event e);
    }

unfoldable pub on_event : Setup → StepAnswers → AgentEvent → Presenting → Loop
unfolding stream_card stream_markdown
on_event setup a e p =
    let r = received setup a e p in
    let carded = record r { card = reduce_stream r.card (to_card_event e) } in
    let streamed = stream_markdown setup a (stream_card setup a carded) in
    if is_separate_answer setup e e.type
    then going r
    else if separate_final setup && not (is_active r.state)
    then finished carded
    else if is_active r.state
    then going streamed
    else finished streamed

-- The arms of the `select`.
pub data Arrival : Type 0 where
  context_done idle_fires events_closed : Arrival
  resumes : StepAnswers → Arrival
  arrives : AgentEvent → StepAnswers → Arrival

-- An arm that cannot be taken is passed over.
unfoldable pub arrive : Setup → Arrival → Presenting → Loop
unfolding on_event resume_progress
arrive setup context_done p = abandoned p
arrive setup idle_fires p =
    if p.idle_armed then finished (record p { idle_armed = false; idle_fired = true }) else going p
arrive setup events_closed p = finished p
arrive setup (resumes a) p =
    if p.resume_open then going (resume_progress setup true a p) else going p
arrive setup (arrives e a) p = unless_hung (on_event setup a e p)

abbrev pub go_on : Loop → (Presenting → Loop) → Loop
go_on (going p) next = next p
go_on l next = l

-- The loop on the arrivals in their order.
unfoldable pub present_loop : Setup → List Arrival → Presenting → Loop
unfolding arrive
present_loop setup [] p = going p
present_loop setup (x ∷ xs) p = go_on (arrive setup x p) (λ q. present_loop setup xs q)
