-- ===== src/Execution/Fanout/Tests.antt =====
-- internal/app/runexecutor/fanout.go: a run of two events for a subscriber that waits and one that
-- comes late.
use lark_bridge_agent_sdk.Base.{◌≡◌, refl, List, [], ◌∷◌, map}
use lark_bridge_agent_sdk.CardState.{text, done}
use lark_bridge_agent_sdk.Agents.{AgentEvent, event_of}
use lark_bridge_agent_sdk.Execution.Fanout.{
  new_event_fanout, Move, subscribe, pump_move, look_move, go_on_move, moves, wake_all,
  at_subscriber, nth,
}

abbrev events : List AgentEvent
events = event_of text ∷ event_of done ∷ []

abbrev history : List Move
history =
    subscribe
    ∷ look_move 0
    ∷ pump_move
    ∷ go_on_move 0
    ∷ look_move 0
    ∷ go_on_move 0
    ∷ pump_move
    ∷ subscribe
    ∷ look_move 1
    ∷ go_on_move 1
    ∷ look_move 1
    ∷ pump_move
    ∷ go_on_move 1
    ∷ look_move 1
    ∷ []

-- The subscriber that came first stands second in the list.
all_seen : map (λ s. s.got) (moves history (new_event_fanout events)).subscribers ≡ [] ∷ events ∷ []
unfolding moves wake_all at_subscriber nth
all_seen = refl
