-- ===== src/Intake/Queue/Trace.antt =====
-- internal/app/intake/queue.go: the calls of a queue in the order in which they take its mutex. The
-- flush of a timer is a `flush` here, which may come at any time.
use lark_bridge_agent_sdk.Base.{
  ℕ, String, Bool, true, false, Option, none, some, List, [], ◌∷◌, ◌++◌, ◌==◌, if◌then◌else◌,
  Result, ok, err,
}
use lark_bridge_agent_sdk.Base.Map.{lookup}
use lark_bridge_agent_sdk.Intake.Types.{NormalizedEvent}
use lark_bridge_agent_sdk.Intake.Queue.{
  Queue, QueueError, Batch, Pending, push, block, unblock, drain, cancel, cancel_all, close,
}

pub data Call : Type 0 where
  pushes : NormalizedEvent → Call
  blocks unblocks flushes cancels : String → Call
  cancels_all closes : Call

-- A call that fails leaves the queue as it was.
abbrev after_push : Queue → Result QueueError (ℕ × Queue) → Queue
after_push q (ok (n, q')) = q'
after_push q (err e) = q

abbrev after_drain : Queue → Result QueueError (Option Batch × Queue) → Queue
after_drain q (ok (batch, q')) = q'
after_drain q (err e) = q

unfoldable pub call : Call → Queue → Queue
call (pushes event) q = after_push q (push event q)
call (blocks key) q = block key q
call (unblocks key) q = unblock key q
call (flushes key) q = after_drain q (drain key q)
call (cancels key) q = (cancel key q).1
call cancels_all q = cancel_all q
call closes q = close q

abbrev batch_events : Option Batch → List NormalizedEvent
batch_events none = []
batch_events (some batch) = batch.events

abbrev drain_events : Result QueueError (Option Batch × Queue) → List NormalizedEvent
drain_events (ok (batch, q)) = batch_events batch
drain_events (err e) = []

abbrev when {ℓ} : {A : Type ℓ} → Bool → List A → List A
when b xs = if b then xs else []

abbrev if_ok : Result QueueError (ℕ × Queue) → List NormalizedEvent → List NormalizedEvent
if_ok (ok r) events = events
if_ok (err e) events = []

-- The events of the scope `k` that a call hands out: a batch, or what it cancels.
unfoldable pub handed_out : String → Call → Queue → List NormalizedEvent
handed_out k (flushes key) q = when (key == k) (drain_events (drain key q))
handed_out k (cancels key) q = when (key == k) (cancel key q).0
handed_out k _ q = []

-- The event of the scope `k` that a call takes in, if the queue accepts it.
unfoldable pub taken_in : String → Call → Queue → List NormalizedEvent
taken_in k (pushes event) q = when (event.scope.key == k) (if_ok (push event q) (event ∷ []))
taken_in k _ q = []

unfoldable pub calls : List Call → Queue → Queue
calls [] q = q
calls (c ∷ cs) q = calls cs (call c q)

unfoldable pub all_handed_out : String → List Call → Queue → List NormalizedEvent
all_handed_out k [] q = []
all_handed_out k (c ∷ cs) q = handed_out k c q ++ all_handed_out k cs (call c q)

unfoldable pub all_taken_in : String → List Call → Queue → List NormalizedEvent
all_taken_in k [] q = []
all_taken_in k (c ∷ cs) q = taken_in k c q ++ all_taken_in k cs (call c q)

-- What the queue holds for the scope `k`.
abbrev pub waiting_of : Option Pending → List NormalizedEvent
waiting_of none = []
waiting_of (some entry) = entry.events

abbrev pub waiting : String → Queue → List NormalizedEvent
waiting k q = waiting_of (lookup k q.pending)

-- The two calls that throw events away.
abbrev pub discards : Call → Bool
discards cancels_all = true
discards closes = true
discards _ = false
