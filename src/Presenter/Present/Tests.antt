-- ===== src/Presenter/Present/Tests.antt =====
-- internal/app/impresenter/presenter.go: a run of Codex on a card.
use lark_bridge_agent_sdk.Base.{◌≡◌, refl, true, false, none, some, List, [], ◌∷◌, ok}
use lark_bridge_agent_sdk.CardState.{RunState, queued, tool_use, tool_result, EventType}
use lark_bridge_agent_sdk.CardState.Reduce.{reduce, apply, stamp, apply_metadata}
use lark_bridge_agent_sdk.Presenter.Content.{track_tool_flight, add_id}
use lark_bridge_agent_sdk.Agents.{AgentEvent, event_of, to_card_event}
use lark_bridge_agent_sdk.Agents.Samples.{toy_library, exited, lines}
use lark_bridge_agent_sdk.Agents.Process.Streams.{codex_stream}
use lark_bridge_agent_sdk.Agents.Codex
use lark_bridge_agent_sdk.Execution.Fanout.{
  Subscriber, ended, Move, subscribe, pump_move, look_move, go_on_move,
}
use lark_bridge_agent_sdk.Presenter.{reply_card}
use lark_bridge_agent_sdk.Presenter.Markdown.{zero_state}
use lark_bridge_agent_sdk.Presenter.Present.{
  Setup, StepAnswers, Presenting, Loop, going, finished, abandoned, hangs, Arrival, arrives,
  idle_fires, begin, present_loop,
}
use lark_bridge_agent_sdk.Presenter.Present.Conclude.{EndAnswers}
use lark_bridge_agent_sdk.Presenter.Present.Fires.{FiresIn, present-FiredIdle}

abbrev on_card : Setup
on_card = record {
  input = record {
    reply_mode = reply_card;
    stream_throttle = 0;
    max_message_updates = 0;
    hide_tool_calls = false;
    card_rollover = record { max_bytes = 0; max_updates = 0 };
    final_answer_only = false;
    size = λ s. none;
    tool_line = λ t. t.name;
    timeout_line = λ n. "timeout";
  };
  defer_until_done = false;
  has_resume = false;
  idle_timeout = 60;
  private_chat = true;
}

abbrev answers : StepAnswers
answers = record {
  now = 0;
  card_send = ok "om_1";
  card = record { sends = λ n. ok "om_next"; can_update = true; update_error = none };
  fuel = 5;
  markdown = record {
    send = ok "om_2";
    can_update = true;
    update_error = none;
    settles = λ n. true;
  };
  action = record { message_error = none; card_error = none; agent_card = none };
}

abbrev last : EndAnswers
last = record {
  before_final = none;
  late_resume = false;
  step = answers;
  plain_size = λ s. none;
  split = λ n. none;
  card_update = none;
  again = answers.markdown;
}

abbrev first_state : RunState
first_state = record zero_state { status = queued }

abbrev tool : EventType → AgentEvent
tool type = record (event_of type) { id = some "t1"; name = some "Bash" }

-- The timer does not run while the tool does.
abbrev calls_tool : List Arrival
calls_tool =
    arrives (tool tool_use) answers
    ∷ idle_fires
    ∷ arrives (tool tool_result) answers
    ∷ idle_fires
    ∷ []

abbrev presenter_of : Loop → Presenting
presenter_of (going p) = p
presenter_of (finished p) = p
presenter_of (abandoned p) = p
presenter_of (hangs p) = p

abbrev timed_out_run : Presenting
timed_out_run = presenter_of (present_loop on_card calls_tool (begin on_card answers first_state))

run_ends :
    present_loop on_card calls_tool (begin on_card answers first_state) ≡ finished timed_out_run
unfolding present_loop begin reduce apply to_card_event stamp apply_metadata track_tool_flight
    add_id
run_ends = refl

run_fired : timed_out_run.idle_fired ≡ true
unfolding present_loop begin reduce apply to_card_event stamp apply_metadata track_tool_flight
    add_id
run_fired = refl

present-FiredIdle_example : FiresIn on_card [] calls_tool
present-FiredIdle_example =
    present-FiredIdle on_card answers first_state calls_tool timed_out_run run_ends run_fired

abbrev printed : List AgentEvent
printed = codex_stream toy_library lines exited none

abbrev history : List Move
history =
    subscribe
    ∷ pump_move
    ∷ pump_move
    ∷ pump_move
    ∷ look_move 0
    ∷ go_on_move 0
    ∷ look_move 0
    ∷ go_on_move 0
    ∷ look_move 0
    ∷ []

abbrev reader : Subscriber
reader = record { index = 2; phase = ended; got = printed }

unfoldable all_arrive : List AgentEvent → List Arrival
all_arrive [] = []
all_arrive (e ∷ es) = arrives e answers ∷ all_arrive es
