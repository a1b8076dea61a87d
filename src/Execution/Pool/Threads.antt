-- ===== src/Execution/Pool/Threads.antt =====
-- internal/app/runexecutor/process_pool.go: the goroutines that share the pool, as a step relation.
-- A step is one critical section. `woken` holds the channels that were closed and whose goroutines
-- have not run since; the capacity may be another at every step.
use mathlib.Core.List.{Memᴰ}
use lark_bridge_agent_sdk.Base.{
  ℕ, suc, ◌+◌, ◌-◌, ◌<◌, ◌≡◌, Bool, true, false, Option, none, some, List, [], ◌∷◌,
}
use lark_bridge_agent_sdk.Execution.Pool.{
  Pool, new_process_pool, acquire_round, try_acquire, release, remove_waiter, remove_first,
}

pub record System : Type 0 where
  pub pool : Pool
  pub holders : ℕ  -- goroutines that hold a release function they have not called
  pub woken : List ℕ
  pub next_channel : ℕ

unfoldable pub start : System
start = record { pool = new_process_pool; holders = 0; woken = []; next_channel = 0 }

-- After a round of `Acquire` the goroutine holds a slot, or waits on a new channel.
abbrev pub after_round : System → List ℕ → Pool × Bool → System
after_round s woken (p, true) = record s { pool = p; holders = s.holders + 1; woken = woken }
after_round s woken (p, false) = record s {
  pool = p;
  woken = woken;
  next_channel = suc s.next_channel;
}

abbrev pub closed_channels : Option ℕ → List ℕ → List ℕ
closed_channels none woken = woken
closed_channels (some w) woken = w ∷ woken

abbrev pub after_release : System → Pool × Option ℕ → System
after_release s (p, closed) = record s {
  pool = p;
  holders = s.holders - 1;
  woken = closed_channels closed s.woken;
}

-- `Acquire` returns the context's error, and the closed channel is forgotten.
abbrev pub abandoned : ℕ → System → System
abandoned w s = record s { pool = remove_waiter w s.pool; woken = remove_first w s.woken }

pub data Step (c : ℕ) (s : System) : System → Type 0 where
  -- `TryAcquire` with a slot free.
  tries :
      (p : Pool)
      → try_acquire c s.pool ≡ some p
      → Step c s (record s { pool = p; holders = s.holders + 1 })
  -- A goroutine enters `Acquire`.
  arrives : Step c s (after_round s s.woken (acquire_round c s.next_channel s.pool))
  -- A woken goroutine takes the lock again.
  resumes :
      (w : ℕ)
      → Memᴰ w s.woken
      → Step c s (after_round s (remove_first w s.woken) (acquire_round c s.next_channel s.pool))
  -- A holder calls its release function.
  releases : 0 < s.holders → Step c s (after_release s (release c s.pool))
  -- The context of a waiting goroutine ends.
  cancels : (w : ℕ) → Memᴰ w s.pool.waiters → Step c s (record s { pool = remove_waiter w s.pool })
  -- The context of a woken goroutine ends before it runs, and `select` takes that case.
  abandons : (w : ℕ) → Memᴰ w s.woken → Step c s (abandoned w s)

-- Any steps, each at its own capacity; the capacities satisfy `P`.
pub data Reach (P : ℕ → Type 0) (s : System) : System → Type 0 where
  here : Reach P s s
  next : {t u : System} (c : ℕ) → P c → Reach P s t → Step c t u → Reach P s u

-- Whether a step is no `abandons`.
unfoldable pub serves : {c : ℕ} {s t : System} → Step c s t → Bool
serves (abandons w m) = false
serves _ = true

-- Steps at one capacity in which every woken goroutine runs.
pub data ServedReach (c : ℕ) (s : System) : System → Type 0 where
  here : ServedReach c s s
  next : {t u : System} → ServedReach c s t → (e : Step c t u) → serves e ≡ true → ServedReach c s u
