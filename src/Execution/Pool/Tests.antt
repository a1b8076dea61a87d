-- ===== src/Execution/Pool/Tests.antt =====
-- internal/app/runexecutor/process_pool.go: runs with one slot.
use lark_bridge_agent_sdk.Base.{ℕ, ◌+◌, ◌≤◌, ◌≡◌, refl, [], ◌∷◌, arith, length}
use lark_bridge_agent_sdk.Execution.Pool.{
  new_process_pool, current_cap, acquire_round, release, wake_next,
}
use lark_bridge_agent_sdk.Execution.Pool.Threads.{
  System, start, arrives, releases, serves, Reach, ServedReach, here, next,
}
use lark_bridge_agent_sdk.Execution.Pool.Accounting.{Reach-Counted}
use lark_bridge_agent_sdk.Execution.Pool.Wakeups.{served_waiters_promised}

-- One goroutine holds the only slot and two wait.
abbrev crowded : System
crowded = record {
  pool = record { active = 1; waiters = 0 ∷ 1 ∷ [] };
  holders = 1;
  woken = [];
  next_channel = 2;
}

-- The holder is done, and the first waiter has been woken.
abbrev handed_over : System
handed_over = record {
  pool = record { active = 0; waiters = 1 ∷ [] };
  holders = 0;
  woken = 0 ∷ [];
  next_channel = 2;
}

abbrev One : ℕ → Type 0
One c = c ≡ 1

One-le : (c : ℕ) → One c → current_cap c ≤ 1
unfolding current_cap
One-le c e = ground arith

crowded_reached : Reach One start crowded
unfolding start new_process_pool acquire_round current_cap
crowded_reached = next 1 refl (next 1 refl (next 1 refl here arrives) arrives) arrives

Reach-Counted_example : (crowded.pool.active ≡ 1) × (1 ≤ 1)
Reach-Counted_example = Reach-Counted One 1 One-le crowded_reached

handed_over_reached : ServedReach 1 start handed_over
unfolding start new_process_pool acquire_round current_cap serves release wake_next
handed_over_reached =
    next (next (next (next here arrives refl) arrives refl) arrives refl) (releases (omega arith))
      refl

served_waiters_promised_example : current_cap 1 ≤ handed_over.pool.active + length handed_over.woken
served_waiters_promised_example = served_waiters_promised 1 handed_over_reached (λ e. cc)
