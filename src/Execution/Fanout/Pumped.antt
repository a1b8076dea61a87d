-- ===== src/Execution/Fanout/Pumped.antt =====
-- internal/app/runexecutor/fanout.go: the pump and the subscribers together.
use mathlib.Core.List.{append_assoc as ++_assoc}
use lark_bridge_agent_sdk.Base.{
  ◌≡◌, refl, sym, ap, subst, ◌∙◌, ◌⊎◌, Bool, true, false, List, [], ◌∷◌, ◌++◌, if◌then◌else◌, any,
  inl, inr, arith,
}
use lark_bridge_agent_sdk.CardState.{is_end}
use lark_bridge_agent_sdk.Agents.{AgentEvent}
use lark_bridge_agent_sdk.Execution.Fanout.{
  Pump, pumping, stopping, stopped, Fanout, new_event_fanout, wake_all, look, go_on, give_up,
  received, pump_round, Move, subscribe, pump_move, look_move, go_on_move, give_up_move, move,
  moves,
}
use lark_bridge_agent_sdk.Execution.Fanout.Invariant.{
  AllInOrder, wake_all-AllInOrder, finish-AllInOrder, at_subscriber-AllInOrder, go_on-InOrder,
  give_up-InOrder, look-InOrder,
}

abbrev pub ends_run : AgentEvent → Bool
ends_run e = is_end e.type

-- All events have been received, or one that ends the run.
abbrev pub Over : Fanout → Type 0
Over x = (x.source ≡ []) ⊎ (any ends_run x.buffer ≡ true)

abbrev pub Pumped : Fanout → Pump → Type 0
Pumped x pumping = x.done ≡ false
Pumped x stopping = (x.done ≡ false) × Over x
Pumped x stopped = (x.done ≡ true) × Over x

-- The buffer and the source make up the events of the run, and the subscribers are in order.
abbrev pub IsFanout : List AgentEvent → Fanout → Type 0
IsFanout events x =
    (x.buffer ++ x.source ≡ events) × Pumped x x.pump × AllInOrder x.done x.buffer x.subscribers

any-append_end :
    (es : List AgentEvent) (e : AgentEvent) → ends_run e ≡ true → any ends_run (es ++ e ∷ []) ≡ true
unfolding any
any-append_end [] e h = ground arith
any-append_end (f ∷ es) e h = ground (arith, any-append_end es e h)

received-IsFanout :
    (events : List AgentEvent) (x : Fanout) (source : List AgentEvent)
    → x.source ≡ source
    → x.done ≡ false
    → x.buffer ++ source ≡ events
    → AllInOrder x.done x.buffer x.subscribers
    → IsFanout events (received x source)
received-IsFanout events x [] s d b h = (ap (◌++◌ x.buffer) s ∙ b, (d, inl s), h)
received-IsFanout events x (e ∷ es) s d b h = (
  ++_assoc x.buffer (e ∷ []) es ∙ b,
  pumped (is_end e.type) refl,
  subst (λ d. AllInOrder d (x.buffer ++ e ∷ []) (wake_all x.subscribers)) (sym d)
      (wake_all-AllInOrder x.buffer e x.subscribers
        (subst (λ d. AllInOrder d x.buffer x.subscribers) d h)),
)
  where
    pumped :
        (ends : Bool)
        → is_end e.type ≡ ends
        → Pumped (received x (e ∷ es)) (if ends then stopping else pumping)
    pumped true t = (d, inr (any-append_end x.buffer e t))
    pumped false t = d

pump_round-IsFanout :
    (events : List AgentEvent) (x : Fanout) (p : Pump)
    → x.pump ≡ p
    → x.buffer ++ x.source ≡ events
    → Pumped x p
    → AllInOrder x.done x.buffer x.subscribers
    → IsFanout events (pump_round x p)
pump_round-IsFanout events x pumping e b d h = received-IsFanout events x x.source refl d b h
pump_round-IsFanout events x stopping e b (d, over) h = (
  b,
  (refl, over),
  finish-AllInOrder x.buffer x.subscribers (subst (λ d. AllInOrder d x.buffer x.subscribers) d h),
)
pump_round-IsFanout events x stopped e b p h = (b, subst (Pumped x) (sym e) p, h)

move-IsFanout :
    (events : List AgentEvent) (m : Move) (x : Fanout)
    → IsFanout events x
    → IsFanout events (move m x)
unfolding move
move-IsFanout events subscribe x (b, p, h) = (b, p, ((x.buffer, refl, refl), h))
move-IsFanout events pump_move x (b, p, h) = pump_round-IsFanout events x x.pump refl b p h
move-IsFanout events (look_move n) x (b, p, h) = (
  b,
  p,
  at_subscriber-AllInOrder x.done x.buffer (λ s. look x.done x.buffer s s.phase)
      (λ s k. look-InOrder x.done x.buffer s s.phase k refl) n x.subscribers h,
)
move-IsFanout events (go_on_move n) x (b, p, h) = (
  b,
  p,
  at_subscriber-AllInOrder x.done x.buffer (λ s. go_on s s.phase)
      (λ s k. go_on-InOrder x.done x.buffer s s.phase k refl) n x.subscribers h,
)
move-IsFanout events (give_up_move n) x (b, p, h) = (
  b,
  p,
  at_subscriber-AllInOrder x.done x.buffer (λ s. record s { phase = give_up s.phase })
      (λ s k. give_up-InOrder x.done x.buffer s.index s.got s.phase k) n x.subscribers h,
)

pub moves-IsFanout :
    (events : List AgentEvent) (ms : List Move) (x : Fanout)
    → IsFanout events x
    → IsFanout events (moves ms x)
unfolding moves
moves-IsFanout events [] x h = h
moves-IsFanout events (m ∷ ms) x h =
    moves-IsFanout events ms (move m x) (move-IsFanout events m x h)

pub start-IsFanout : (events : List AgentEvent) → IsFanout events (new_event_fanout events)
start-IsFanout events = (refl, refl, tt)
