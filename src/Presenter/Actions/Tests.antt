-- ===== src/Presenter/Actions/Tests.antt =====
-- internal/app/impresenter/user_action.go: a question that is sent twice, and an authorization.
use lark_bridge_agent_sdk.Base.{true, false, refl, none, some, [], ◌∷◌, List, String}
use lark_bridge_agent_sdk.CardState.{user_action}
use lark_bridge_agent_sdk.Agents.{AgentEvent, event_of}
use lark_bridge_agent_sdk.Presenter.Actions.{Answers, no_deliveries, send}
use lark_bridge_agent_sdk.Presenter.Actions.Laws.{
  Call, send_calls, Keeps, OnlyNotice, send-OnlyNotice, was_taken, last_error, send_calls-Accounted,
}

abbrev asks : String → AgentEvent
asks name = record (event_of user_action) {
  id = some "a1";
  name = some name;
  delta = some "Go on?";
}

abbrev fails : Answers
fails = record { message_error = some "offline"; card_error = some "offline"; agent_card = none }

abbrev works : Answers
works = record { message_error = none; card_error = none; agent_card = none }

abbrev calls : List Call
calls =
    record { channel = true; private = true; answers = fails; event = asks "question" }
    ∷ record { channel = true; private = true; answers = works; event = asks "question" }
    ∷ record { channel = true; private = true; answers = works; event = asks "question" }
    ∷ []

send-OnlyNotice_example : OnlyNotice (send true false fails (asks "authorization") no_deliveries).1
send-OnlyNotice_example = send-OnlyNotice true fails (asks "authorization") no_deliveries refl

send_calls-Accounted_example :
    Keeps "a1" (send_calls calls no_deliveries) (was_taken "a1" calls) (last_error "a1" calls none)
send_calls-Accounted_example = send_calls-Accounted calls "a1"
