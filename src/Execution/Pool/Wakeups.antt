-- ===== src/Execution/Pool/Wakeups.antt =====
-- internal/app/runexecutor/process_pool.go: whether a free slot is ever kept from a waiter.
use mathlib.Core.List.{Memᴰ}
use lark_bridge_agent_sdk.Base.{
  ℕ, ◌+◌, ◌≤◌, ◌<◌, ◌≡◌, ◌≢◌, ◌⊎◌, inl, refl, true, some, List, [], ◌∷◌, arith, length,
}
use lark_bridge_agent_sdk.Execution.Pool.{
  Pool, new_process_pool, current_cap, acquire_round, try_acquire, release, wake_next,
  remove_waiter, remove_first,
}
use lark_bridge_agent_sdk.Execution.Pool.Threads.{
  System, start, after_round, after_release, Step, tries, arrives, resumes, releases, cancels,
  abandons, abandoned, serves, ServedReach, here, next,
}

-- Each free slot is promised to a woken goroutine, or nobody waits.
abbrev pub Promised : ℕ → System → Type 0
Promised c s = (s.pool.waiters ≡ []) ⊎ (current_cap c ≤ s.pool.active + length s.woken)

length-remove_first : (w : ℕ) (xs : List ℕ) → Memᴰ w xs → length (remove_first w xs) + 1 ≡ length xs
unfolding remove_first
length-remove_first w [] m = elim m [ ]
length-remove_first w (x ∷ xs) (Memᴰ.head e) = ground arith
length-remove_first w (x ∷ xs) (Memᴰ.tail m) = ground (arith, length-remove_first w xs m)

module _ (c : ℕ) (s : System) (h : Promised c s) where
  try-Promised :
      (p : Pool)
      → try_acquire c s.pool ≡ some p
      → Promised c (record s { pool = p; holders = s.holders + 1 })
  unfolding try_acquire
  try-Promised p e = ground arith

  arrive-Promised : Promised c (after_round s s.woken (acquire_round c s.next_channel s.pool))
  unfolding acquire_round
  arrive-Promised = ground arith

  resume-Promised :
      (w : ℕ)
      → Memᴰ w s.woken
      → Promised c (after_round s (remove_first w s.woken) (acquire_round c s.next_channel s.pool))
  unfolding acquire_round
  resume-Promised w m = ground (arith, length-remove_first w s.woken m)

  release-Promised : Promised c (after_release s (release c s.pool))
  unfolding release wake_next
  release-Promised = ground arith

  cancel-Promised :
      (w : ℕ) → Memᴰ w s.pool.waiters → Promised c (record s { pool = remove_waiter w s.pool })
  unfolding remove_waiter remove_first
  cancel-Promised w m = ground arith

  Step-Promised : {t : System} (e : Step c s t) → serves e ≡ true → Promised c t
  unfolding serves
  Step-Promised (tries p e) _ = try-Promised p e
  Step-Promised arrives _ = arrive-Promised
  Step-Promised (resumes w m) _ = resume-Promised w m
  Step-Promised (releases p) _ = release-Promised
  Step-Promised (cancels w m) _ = cancel-Promised w m
  Step-Promised (abandons w m) e = absurd (cc e)

ServedReach-Promised : (c : ℕ) {s : System} → ServedReach c start s → Promised c s
unfolding start new_process_pool
ServedReach-Promised c here = inl refl
ServedReach-Promised c (next {t = t} r e h) = Step-Promised c t (ServedReach-Promised c r) e h

-- At a fixed capacity, as long as every woken goroutine runs before its context ends, no free slot
-- is kept from a waiter: while somebody waits, the slots in use and the goroutines that were woken
-- for one fill the capacity.
pub served_waiters_promised :
    (c : ℕ) {s : System}
    → ServedReach c start s
    → s.pool.waiters ≢ []
    → current_cap c ≤ s.pool.active + length s.woken
served_waiters_promised c r w = ground (arith, ServedReach-Promised c r)

-- The wake-up is lost when a woken goroutine's context ends before it runs: if the slots in use and
-- the woken goroutines just filled the capacity, the waiters are the same afterwards, and a free
-- slot is promised to none of them.
pub abandoned_loses_wakeup :
    (c w : ℕ) (s : System)
    → Memᴰ w s.woken
    → remove_first w s.pool.waiters ≡ s.pool.waiters
    → s.pool.active + length s.woken ≡ current_cap c
    → ((abandoned w s).pool.waiters ≡ s.pool.waiters)
      × ((abandoned w s).pool.active + length (abandoned w s).woken < current_cap c)
unfolding remove_waiter
abandoned_loses_wakeup c w s m fresh full = (fresh, omega (arith, length-remove_first w s.woken m))
