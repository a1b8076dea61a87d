-- ===== src/Execution/Fanout/Delivery.antt =====
-- internal/app/runexecutor/fanout.go: what the subscribers get in the end.
use mathlib.Core.List.{append_assoc as ++_assoc, append-nil as ++-nil}
use lark_bridge_agent_sdk.Base.{◌≡◌, sym, subst, Bool, false, List, [], ◌∷◌, ◌++◌, any}
use lark_bridge_agent_sdk.Agents.{AgentEvent}
use lark_bridge_agent_sdk.Execution.Fanout.{
  waiting, ended, Subscriber, Fanout, new_event_fanout, Move, moves,
}
use lark_bridge_agent_sdk.Execution.Fanout.Invariant.{Rest, InOrder, AllInOrder}
use lark_bridge_agent_sdk.Execution.Fanout.Pumped.{ends_run, Pumped, moves-IsFanout, start-IsFanout}

abbrev pub Everyone : (Subscriber → Type 0) → List Subscriber → Type 0
Everyone P [] = Unit
Everyone P (s ∷ ss) = P s × Everyone P ss

everyone :
    (P : Subscriber → Type 0) (done : Bool) (buffer : List AgentEvent)
    → ((s : Subscriber) → InOrder done buffer s → P s)
    → (ss : List Subscriber) → AllInOrder done buffer ss
    → Everyone P ss
everyone P done buffer f [] h = tt
everyone P done buffer f (s ∷ ss) (h, hs) = (f s h, everyone P done buffer f ss hs)

-- The last event ends the run, and no other does.
abbrev pub LastEnds : List AgentEvent → Type 0
LastEnds events =
    (front : List AgentEvent) × (last : AgentEvent) × (events ≡ front ++ last ∷ [])
    × (any ends_run front ≡ false)

-- What a subscriber has got.
abbrev pub Gets : List AgentEvent → Subscriber → Type 0
Gets events s =
    ((rest : List AgentEvent) × (events ≡ s.got ++ rest)) × (s.phase ≡ ended → s.got ≡ events)

-- A subscriber that waits has got all that was received, and more is to come.
abbrev pub MayWait : Fanout → Subscriber → Type 0
MayWait x s = s.phase ≡ waiting → (s.got ≡ x.buffer) × (x.done ≡ false)

-- However the goroutines take turns, no wake-up is lost: a subscriber waits only while it has got
-- all events that were received so far and the fan-out is not done.
pub moves-MayWait :
    (events : List AgentEvent) (ms : List Move)
    → Everyone
        (MayWait (moves ms (new_event_fanout events)))
        (moves ms (new_event_fanout events)).subscribers
moves-MayWait events ms =
    let x = moves ms (new_event_fanout events) in
    let (b, p, h) = moves-IsFanout events ms (new_event_fanout events) (start-IsFanout events) in
    everyone (MayWait x) x.done x.buffer
      (λ s k waits.
        let (same, i, d) = subst (Rest x.done x.buffer s.index s.got) waits k in (sym same, d))
      x.subscribers h
