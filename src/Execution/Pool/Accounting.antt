-- ===== src/Execution/Pool/Accounting.antt =====
-- internal/app/runexecutor/process_pool.go: the counter of the pool is the number of holders.
use lark_bridge_agent_sdk.Base.{ℕ, ◌+◌, ◌-◌, ◌≤◌, ◌≡◌, refl, Bool, some, List, arith, if◌then◌else◌}
use lark_bridge_agent_sdk.Execution.Pool.{
  Pool, new_process_pool, current_cap, acquire_round, try_acquire, release, wake_next,
  remove_waiter,
}
use lark_bridge_agent_sdk.Execution.Pool.Threads.{
  System, start, after_round, after_release, Step, tries, arrives, resumes, releases, cancels,
  abandons, Reach, here, next,
}

abbrev Counted : ℕ → System → Type 0
Counted n s = (s.pool.active ≡ s.holders) × (s.holders ≤ n)

module _ (c n : ℕ) (le : current_cap c ≤ n) (s : System) (h : Counted n s) where
  try-Counted :
      (p : Pool)
      → try_acquire c s.pool ≡ some p
      → Counted n (record s { pool = p; holders = s.holders + 1 })
  unfolding try_acquire
  try-Counted p e = ground arith

  round-Counted :
      (w : ℕ) (woken : List ℕ) → Counted n (after_round s woken (acquire_round c w s.pool))
  unfolding acquire_round
  round-Counted w woken = ground arith

  release-Counted : Counted n (after_release s (release c s.pool))
  unfolding release wake_next
  release-Counted = ground arith

  Step-Counted : {t : System} → Step c s t → Counted n t
  unfolding remove_waiter
  Step-Counted (tries p e) = try-Counted p e
  Step-Counted arrives = round-Counted s.next_channel s.woken
  Step-Counted (resumes w m) = round-Counted s.next_channel _
  Step-Counted (releases p) = release-Counted
  Step-Counted (cancels w m) = h
  Step-Counted (abandons w m) = h

-- Whatever the goroutines do and however the capacity changes, the counter of the pool is the
-- number of goroutines that hold a slot, and while the capacity stays at most `n` there are never
-- more than `n` of them.
pub Reach-Counted :
    (P : ℕ → Type 0) (n : ℕ)
    → ((c : ℕ) → P c → current_cap c ≤ n)
    → {s : System} → Reach P start s
    → (s.pool.active ≡ s.holders) × (s.holders ≤ n)
unfolding start new_process_pool
Reach-Counted P n le here = ground arith
Reach-Counted P n le (next {t = t} c p r e) = Step-Counted c n (le c p) t (Reach-Counted P n le r) e

-- Giving a slot back lowers the counter by one, whoever is woken.
pub release-active : (c : ℕ) (p : Pool) → (release c p).0.active ≡ p.active - 1
unfolding release wake_next
release-active c p = ground arith

pub try_acquire-active : (c : ℕ) (p q : Pool) → try_acquire c p ≡ some q → q.active ≡ p.active + 1
unfolding try_acquire
try_acquire-active c p q e = ground arith

pub acquire_round-active :
    (c w : ℕ) (p q : Pool) (b : Bool)
    → acquire_round c w p ≡ (q, b)
    → q.active ≡ (if b then p.active + 1 else p.active)
unfolding acquire_round
acquire_round-active c w p q b e = ground arith

pub remove_waiter-active : (w : ℕ) (p : Pool) → (remove_waiter w p).active ≡ p.active
unfolding remove_waiter
remove_waiter-active w p = refl
