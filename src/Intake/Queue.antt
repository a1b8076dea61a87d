-- ===== src/Intake/Queue.antt =====
-- internal/app/intake/queue.go: events gathered per scope until a quiet period ends. Each function
-- is the part of a method under the mutex. A timer is armed by `time.AfterFunc` and runs `Flush` of
-- its scope when it fires; `Stop` disarms it. A timer that has fired and waits for the mutex is not
-- armed: its `Flush` is a call of its own, which may come after others, a `Block` of the scope among
-- them. The workers that run the handler are in Workers.
pub mod Trace
pub mod Workers
pub mod Delivery
pub mod Timers
mod Tests
use lark_bridge_agent_sdk.Base.{
  ℕ, String, Bool, true, false, not, ◌&&◌, Option, none, some, List, [], ◌∷◌, ◌++◌, ltb, length,
  ◌==◌, is_some, if◌then◌else◌, Result, ok, err,
}
use lark_bridge_agent_sdk.Base.Map.{Map, lookup, insert, delete, keys}
use lark_bridge_agent_sdk.Intake.Types.{Scope, NormalizedEvent}

pub data Timer : Type 0 where
  no_timer stopped armed : Timer

pub record Pending : Type 0 where
  pub scope : Scope
  pub events : List NormalizedEvent
  pub timer : Timer

pub record Batch : Type 0 where
  pub scope : Scope
  pub events : List NormalizedEvent

pub record Queue : Type 0 where
  pub quiet_period : ℕ
  pub pending : Map Pending
  pub blocked : Map (Unit {0})
  pub closed : Bool

pub data QueueError : Type 0 where
  key_required queue_closed : QueueError

unfoldable pub new_queue : ℕ → Queue
new_queue quiet_period = record {
  quiet_period = quiet_period;
  pending = [];
  blocked = [];
  closed = false;
}

unfoldable pub is_blocked : String → Queue → Bool
is_blocked key q = is_some (lookup key q.blocked)

-- `timer.Stop()` where there is a timer.
unfoldable pub stop_timer : Timer → Timer
stop_timer no_timer = no_timer
stop_timer _ = stopped

abbrev gathered : Option Pending → List NormalizedEvent
gathered none = []
gathered (some entry) = entry.events

abbrev timer_of : Option Pending → Timer
timer_of none = no_timer
timer_of (some entry) = entry.timer

-- The entry after a push: a new timer, unless the scope is blocked or there is no quiet period.
unfoldable pub pushed : NormalizedEvent → Bool → Option Pending → Pending
unfolding stop_timer
pushed event arm old = record {
  scope = event.scope;
  events = gathered old ++ event ∷ [];
  timer = if arm then armed else stop_timer (timer_of old);
}

unfoldable pub arms : String → Queue → Bool
arms key q = ltb 0 q.quiet_period && not (is_blocked key q)

-- The number is the length of the batch so far.
unfoldable pub push : NormalizedEvent → Queue → Result QueueError (ℕ × Queue)
push event q =
    let key = event.scope.key in
    let entry = pushed event (arms key q) (lookup key q.pending) in
    if key == ""
    then err key_required
    else if q.closed
    then err queue_closed
    else ok (length entry.events, record q { pending = insert key entry q.pending })

abbrev pub disarm : String → Option Pending → Map Pending → Map Pending
disarm key none pending = pending
disarm key (some entry) pending = insert key (record entry { timer = no_timer }) pending

-- Only an entry with a timer is written; one without has none to lose.
unfoldable pub block : String → Queue → Queue
block key q = if q.closed then q else record q {
  blocked = insert key tt q.blocked;
  pending = disarm key (lookup key q.pending) q.pending;
}

abbrev pub is_empty : List NormalizedEvent → Bool
is_empty [] = true
is_empty (_ ∷ _) = false

abbrev pub rearm : ℕ → String → Option Pending → Map Pending → Map Pending
rearm quiet_period key none pending = pending
rearm quiet_period key (some entry) pending =
    if not (is_empty entry.events) && ltb 0 quiet_period
    then insert key (record entry { timer = armed }) pending
    else pending

unfoldable pub unblock : String → Queue → Queue
unblock key q = if q.closed then q else record q {
  blocked = delete key q.blocked;
  pending = rearm q.quiet_period key (lookup key q.pending) q.pending;
}

drained : String → Queue → Option Pending → Option Batch × Queue
drained key q none = (none, q)
drained key q (some entry) = if is_empty entry.events then (none, q) else (
  some (record { scope = entry.scope; events = entry.events }),
  record q { pending = delete key q.pending },
)

-- `none` is the result `false`: nothing to submit.
unfoldable pub drain : String → Queue → Result QueueError (Option Batch × Queue)
unfolding drained
drain key q = if q.closed then err queue_closed else ok (drained key q (lookup key q.pending))

cancelled : String → Queue → Option Pending → List NormalizedEvent × Queue
cancelled key q none = ([], q)
cancelled key q (some entry) = (entry.events, record q { pending = delete key q.pending })

unfoldable pub cancel : String → Queue → List NormalizedEvent × Queue
unfolding cancelled
cancel key q = cancelled key q (lookup key q.pending)

unfoldable pub cancel_all : Queue → Queue
cancel_all q = record q { pending = []; blocked = [] }

unfoldable pub close : Queue → Queue
close q = if q.closed then q else record q { pending = []; blocked = []; closed = true }

unfoldable pub scope_keys : Queue → List String
scope_keys q = keys q.pending
