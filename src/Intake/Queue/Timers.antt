-- ===== src/Intake/Queue/Timers.antt =====
-- internal/app/intake/queue.go: which scopes will be flushed by their timers.
use lark_bridge_agent_sdk.Base.{
  ℕ, String, ◌≡◌, refl, Bool, true, false, Option, none, some, List, [], ◌∷◌, ◌++◌, ◌==◌, arith,
  ltb, eq_iff, if◌then◌else◌, if-lift,
}
use lark_bridge_agent_sdk.Base.Map.{Map, lookup, lookup-insert, lookup-delete}
use lark_bridge_agent_sdk.Intake.Types.{NormalizedEvent}
use lark_bridge_agent_sdk.Intake.Queue.{
  Queue, Pending, Timer, no_timer, armed, new_queue, push, pushed, block, unblock, drain, cancel,
  cancel_all, close, arms, is_blocked, is_empty, disarm, rearm,
}
use lark_bridge_agent_sdk.Intake.Queue.Trace.{
  Call, pushes, blocks, unblocks, flushes, cancels, cancels_all, closes, call, calls,
}

abbrev pub is_armed : Timer → Bool
is_armed armed = true
is_armed _ = false

-- An entry has events, and its timer runs exactly if `arm`.
abbrev Timed : Bool → Option Pending → Type 0
Timed arm none = Unit {0}
Timed arm (some entry) = (is_empty entry.events ≡ false) × (is_armed entry.timer ≡ arm)

-- The pending batch of the scope `k`, if any, has events, and its timer runs exactly if there is a
-- quiet period and the scope is not blocked.
abbrev pub TimedAt : String → Queue → Type 0
TimedAt k q = Timed (arms k q) (lookup k q.pending)

append-not_empty :
    (xs : List NormalizedEvent) (e : NormalizedEvent) → is_empty (xs ++ e ∷ []) ≡ false
append-not_empty [] e = refl
append-not_empty (x ∷ xs) e = refl

pushed-Timed :
    (event : NormalizedEvent) (arm : Bool) (old : Option Pending)
    → Timed arm (some (pushed event arm old))
unfolding pushed
pushed-Timed event arm none = (refl, ground arith)
pushed-Timed event arm (some entry) = (append-not_empty entry.events event, ground arith)

disarm-Timed :
    (arm : Bool) (k key : String) (o : Option Pending) (m : Map Pending)
    → lookup key m ≡ o
    → Timed arm (lookup k m)
    → Timed (if key == k then false else arm) (lookup k (disarm key o m))
disarm-Timed arm k key none m e h = ground (arith, eq_iff key k)
disarm-Timed arm k key (some entry) m e h =
    ground (arith, lookup-insert key k (record entry { timer = no_timer }) m, eq_iff key k)

rearm-Timed :
    (n : ℕ) (arm : Bool) (k key : String) (o : Option Pending) (m : Map Pending)
    → lookup key m ≡ o
    → Timed arm (lookup k m)
    → (ltb 0 n ≡ false → arm ≡ false)
    → Timed (if key == k then ltb 0 n else arm) (lookup k (rearm n key o m))
rearm-Timed n arm k key none m e h z = ground (arith, eq_iff key k)
rearm-Timed n arm k key (some entry) m e h z =
    ground (arith, lookup-insert key k (record entry { timer = armed }) m, eq_iff key k, z)

push-TimedAt :
    (k : String) (event : NormalizedEvent) (q : Queue)
    → TimedAt k q
    → TimedAt k (call (pushes event) q)
unfolding call push arms is_blocked
push-TimedAt k event q h =
    let key = event.scope.key in
    let entry = pushed event (arms key q) (lookup key q.pending) in
    ground (
      arith,
      pushed-Timed event (arms key q) (lookup key q.pending),
      lookup-insert key k entry q.pending,
      eq_iff key k,
    )

block-TimedAt : (k key : String) (q : Queue) → TimedAt k q → TimedAt k (call (blocks key) q)
unfolding call block arms is_blocked
block-TimedAt k key q h = ground (
  arith,
  disarm-Timed (arms k q) k key (lookup key q.pending) q.pending refl h,
  lookup-insert key k tt q.blocked,
  eq_iff key k,
)

unblock-TimedAt : (k key : String) (q : Queue) → TimedAt k q → TimedAt k (call (unblocks key) q)
unfolding call unblock arms is_blocked
unblock-TimedAt k key q h = ground (
  arith,
  rearm-Timed q.quiet_period (arms k q) k key (lookup key q.pending) q.pending refl h,
  lookup-delete key k q.blocked,
  eq_iff key k,
)

flush-TimedAt : (k key : String) (q : Queue) → TimedAt k q → TimedAt k (call (flushes key) q)
unfolding call drain arms is_blocked
flush-TimedAt k key q h = ground (arith, lookup-delete key k q.pending)

cancel-TimedAt : (k key : String) (q : Queue) → TimedAt k q → TimedAt k (call (cancels key) q)
unfolding call cancel arms is_blocked
cancel-TimedAt k key q h = ground (arith, lookup-delete key k q.pending)

call-TimedAt : (k : String) (c : Call) (q : Queue) → TimedAt k q → TimedAt k (call c q)
unfolding call cancel_all close lookup
call-TimedAt k (pushes event) q h = push-TimedAt k event q h
call-TimedAt k (blocks key) q h = block-TimedAt k key q h
call-TimedAt k (unblocks key) q h = unblock-TimedAt k key q h
call-TimedAt k (flushes key) q h = flush-TimedAt k key q h
call-TimedAt k (cancels key) q h = cancel-TimedAt k key q h
call-TimedAt k cancels_all q h = tt
call-TimedAt k closes q h = if-lift {A = Queue} (TimedAt k) q.closed _ _ h tt

calls-TimedAt : (k : String) (cs : List Call) (q : Queue) → TimedAt k q → TimedAt k (calls cs q)
unfolding calls
calls-TimedAt k [] q h = h
calls-TimedAt k (c ∷ cs) q h = calls-TimedAt k cs (call c q) (call-TimedAt k c q h)

-- After any calls on a new queue, every scope whose batch is pending has events in it, and the batch
-- has an armed timer exactly if there is a quiet period and the scope is not blocked.
pub new_queue-TimedAt :
    (quiet_period : ℕ) (k : String) (cs : List Call) → TimedAt k (calls cs (new_queue quiet_period))
unfolding new_queue lookup
new_queue-TimedAt quiet_period k cs = calls-TimedAt k cs (new_queue quiet_period) tt
