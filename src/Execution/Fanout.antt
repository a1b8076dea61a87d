-- ===== src/Execution/Fanout.antt =====
-- internal/app/runexecutor/fanout.go: the events of a run for any number of subscribers. A move is
-- what one goroutine does under the lock or at a channel; a history is a list of moves. `source`
-- holds the events that are still to come before the channel is closed. A subscriber is in the map
-- of waiters exactly while it is `waiting`.
mod Invariant
mod Pumped
pub mod Delivery
mod Tests
use lark_bridge_agent_sdk.Base.{
  ℕ, zero, suc, ◌+◌, Bool, true, false, Option, none, some, List, [], ◌∷◌, ◌++◌, if◌then◌else◌, map,
}
use lark_bridge_agent_sdk.CardState.{is_end}
use lark_bridge_agent_sdk.Agents.{AgentEvent}

-- Where a subscriber stands in its loop.
pub data Phase : Type 0 where
  looking : Phase
  sending : AgentEvent → Phase
  waiting woken ended cancelled : Phase

-- `got` is what the subscriber's channel has taken.
pub record Subscriber : Type 0 where
  pub index : ℕ
  pub phase : Phase
  pub got : List AgentEvent

pub data Pump : Type 0 where
  pumping stopping stopped : Pump

pub record Fanout : Type 0 where
  pub source : List AgentEvent
  pub buffer : List AgentEvent
  pub done : Bool
  pub pump : Pump
  pub subscribers : List Subscriber

abbrev pub new_event_fanout : List AgentEvent → Fanout
new_event_fanout source = record {
  source = source;
  buffer = [];
  done = false;
  pump = pumping;
  subscribers = [];
}

-- `buffer[index]`, and nothing at the end of the buffer.
unfoldable pub nth : ℕ → List AgentEvent → Option AgentEvent
nth n [] = none
nth zero (e ∷ es) = some e
nth (suc n) (e ∷ es) = nth n es

abbrev wake_phase : Phase → Phase
wake_phase waiting = woken
wake_phase p = p

abbrev pub wake : Subscriber → Subscriber
wake s = record s { phase = wake_phase s.phase }

-- `wakeAllLocked`.
unfoldable pub wake_all : List Subscriber → List Subscriber
wake_all [] = []
wake_all (s ∷ ss) = wake s ∷ wake_all ss

abbrev seen : Bool → Subscriber → Option AgentEvent → Subscriber
seen done s (some e) = record s { index = s.index + 1; phase = sending e }
seen done s none = record s { phase = if done then ended else waiting }

-- The section under the lock at the head of the loop.
abbrev pub look : Bool → List AgentEvent → Subscriber → Phase → Subscriber
look done buffer s looking = seen done s (nth s.index buffer)
look done buffer s _ = s

-- The channel takes the event, or the waiter's channel is closed.
abbrev pub go_on : Subscriber → Phase → Subscriber
go_on s (sending e) = record s { phase = looking; got = s.got ++ e ∷ [] }
go_on s woken = record s { phase = looking }
go_on s _ = s

-- The context is done where the subscriber selects on it.
abbrev pub give_up : Phase → Phase
give_up (sending e) = cancelled
give_up waiting = cancelled
give_up woken = cancelled
give_up p = p

unfoldable pub at_subscriber : ℕ → (Subscriber → Subscriber) → List Subscriber → List Subscriber
at_subscriber n f [] = []
at_subscriber zero f (s ∷ ss) = f s ∷ ss
at_subscriber (suc n) f (s ∷ ss) = s ∷ at_subscriber n f ss

abbrev received : Fanout → List AgentEvent → Fanout
received x [] = record x { pump = stopping }
received x (e ∷ es) = record x {
  source = es;
  buffer = x.buffer ++ e ∷ [];
  subscribers = wake_all x.subscribers;
  pump = if is_end e.type then stopping else pumping;
}

-- One round of the pump's loop, and its deferred function.
abbrev pump_round : Fanout → Pump → Fanout
pump_round x pumping = received x x.source
pump_round x stopping = record x {
  done = true;
  subscribers = wake_all x.subscribers;
  pump = stopped;
}
pump_round x stopped = x

pub data Move : Type 0 where
  subscribe pump_move : Move
  look_move go_on_move give_up_move : ℕ → Move

abbrev pub new_subscriber : Subscriber
new_subscriber = record { index = 0; phase = looking; got = [] }

unfoldable pub move : Move → Fanout → Fanout
unfolding wake_all at_subscriber
move subscribe x = record x { subscribers = new_subscriber ∷ x.subscribers }
move pump_move x = pump_round x x.pump
move (look_move n) x = record x {
  subscribers = at_subscriber n (λ s. look x.done x.buffer s s.phase) x.subscribers;
}
move (go_on_move n) x = record x {
  subscribers = at_subscriber n (λ s. go_on s s.phase) x.subscribers;
}
move (give_up_move n) x = record x {
  subscribers = at_subscriber n (λ s. record s { phase = give_up s.phase }) x.subscribers;
}

unfoldable pub moves : List Move → Fanout → Fanout
unfolding move
moves [] x = x
moves (m ∷ ms) x = moves ms (move m x)
