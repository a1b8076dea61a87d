-- ===== src/Execution/Pool.antt =====
-- internal/app/runexecutor/process_pool.go. Each function is the part of a method that runs under
-- the mutex, with the capacity that `cap()` returns there as its first argument. A waiter is the
-- channel of a blocked `Acquire`, written as a number; the oldest waiter stands first.
pub mod Threads
pub mod Accounting
pub mod Wakeups
mod Tests
use lark_bridge_agent_sdk.Base.{
  ℕ, ◌+◌, ◌-◌, ◌≡◌, Bool, true, false, Option, none, some, List, [], ◌∷◌, ◌++◌, ltb, leb, nat_eq,
  length, if◌then◌else◌,
}

pub record Pool : Type 0 where
  pub active : ℕ
  pub waiters : List ℕ

pub record Snapshot : Type 0 where
  pub active : ℕ
  pub waiting : ℕ
  pub cap : ℕ

pub new_process_pool : Pool
new_process_pool = record { active = 0; waiters = [] }

-- At least one slot, whatever the configuration says.
unfoldable pub current_cap : ℕ → ℕ
current_cap capacity = if ltb capacity 1 then 1 else capacity

-- One round of the loop in `Acquire`: a slot, or a place at the end of the queue.
unfoldable pub acquire_round : ℕ → ℕ → Pool → Pool × Bool
acquire_round capacity waiter p =
    if ltb p.active (current_cap capacity)
    then (record p { active = p.active + 1 }, true)
    else (record p { waiters = p.waiters ++ waiter ∷ [] }, false)

-- `none` is the nil release function.
unfoldable pub try_acquire : ℕ → Pool → Option Pool
try_acquire capacity p =
    if leb (current_cap capacity) p.active then none else some (record p { active = p.active + 1 })

-- The oldest waiter's channel is closed, if there is a waiter and a slot.
close_first : Pool → List ℕ → Pool × Option ℕ
close_first p [] = (p, none)
close_first p (next ∷ rest) = (record p { waiters = rest }, some next)

pub wake_next : ℕ → Pool → Pool × Option ℕ
unfolding close_first
wake_next capacity p =
    if leb (current_cap capacity) p.active then (p, none) else close_first p p.waiters

-- The body of the release function; `sync.Once` makes the holder run it once.
pub release : ℕ → Pool → Pool × Option ℕ
release capacity p =
    wake_next capacity (if ltb 0 p.active then record p { active = p.active - 1 } else p)

pub remove_first : ℕ → List ℕ → List ℕ
remove_first waiter [] = []
remove_first waiter (candidate ∷ rest) =
    if nat_eq candidate waiter then rest else candidate ∷ remove_first waiter rest

pub remove_waiter : ℕ → Pool → Pool
remove_waiter waiter p = record p { waiters = remove_first waiter p.waiters }

pub snapshot : ℕ → Pool → Snapshot
snapshot capacity p = record {
  active = p.active;
  waiting = length p.waiters;
  cap = current_cap capacity;
}
