-- ===== src/Execution/Submit.antt =====
-- internal/app/runexecutor/run_executor.go: `Submit`. Each call that takes the registry's lock is
-- preceded by `others k`, what the other goroutines did to the registry since the call before; the
-- agent, the clock and the context are answers of the environment. The log lines that the method
-- writes are left out. The reason of a pause takes the lock once more.
mod Reserve
pub mod Outcome
pub mod Processes
pub mod Progress
mod Tests
use lark_bridge_agent_sdk.Base.{
  ℕ, ◌+◌, String, Bool, true, false, not, ◌&&◌, Option, none, some, List, [], ◌∷◌, ◌++◌, ltb, leb,
  nat_eq, ◌==◌, if◌then◌else◌, Result, ok, err,
}
use lark_bridge_agent_sdk.Permissions.{AccessMode, CodexSandboxMode, ClaudePermissionMode}
use lark_bridge_agent_sdk.Execution.Pool.{Pool, try_acquire, acquire_round, release, remove_waiter}
use lark_bridge_agent_sdk.Execution.Runs.{
  ActiveRuns, reserve, release_reservation, register, unregister, new_runs_paused,
}

pub data SubmitError : Type 0 where
  agent_required policy_expired run_already_active pool_full : SubmitError
  reconnect_in_progress : String → SubmitError
  context_error agent_prepare_failed agent_spawn_failed : SubmitError

-- `expires_at` is `none` for the zero time.
pub record RunPolicy : Type 0 where
  pub prompt : String
  pub cwd_realpath : String
  pub access_mode : AccessMode
  pub sandbox : CodexSandboxMode
  pub permission_mode : ClaudePermissionMode
  pub expires_at : Option ℕ

-- Its `Observability` is for the log only.
pub record SubmitInput : Type 0 where
  pub scope_id : String
  pub policy : RunPolicy
  pub session_id : String
  pub thread_id : String
  pub model : String
  pub images : List String
  pub stop_grace_ms : ℕ
  pub nowait : Bool

-- What the agent is told; the number of the run, which is drawn at random, stands in the effects.
pub record AgentRunOptions : Type 0 where
  pub prompt : String
  pub cwd : String
  pub session_id : String
  pub thread_id : String
  pub model : String
  pub images : List String
  pub sandbox : CodexSandboxMode
  pub permission_mode : ClaudePermissionMode
  pub stop_grace_ms : ℕ

unfoldable pub run_options : SubmitInput → AgentRunOptions
run_options input = record {
  prompt = input.policy.prompt;
  cwd = input.policy.cwd_realpath;
  session_id = input.session_id;
  thread_id = input.thread_id;
  model = input.model;
  images = input.images;
  sandbox = input.policy.sandbox;
  permission_mode = input.policy.permission_mode;
  stop_grace_ms = input.stop_grace_ms;
}

-- The calls of the agent, in order; the latest stands first.
pub data Effect : Type 0 where
  prepares : AgentRunOptions → Effect
  spawns : AgentRunOptions → ℕ → Effect
  stops waits_for_exit : ℕ → Effect

pub record World : Type 0 where
  pub runs : ActiveRuns
  pub pool : Pool
  pub effects : List Effect

-- What `Submit` meets. `wait` is the pool in the round of `Acquire` in which a goroutine that had
-- to wait finds a slot, or `none` if its context ends before.
pub record Env : Type 0 where
  pub has_agent : Bool
  pub now : ℕ
  pub capacity : ℕ
  pub others : ℕ → ActiveRuns → ActiveRuns
  pub waiter : ℕ
  pub wait : Pool → Option Pool
  pub prepare_fails : Bool
  pub cancelled_after_prepare : Bool
  pub spawned : Option ℕ
  pub cancelled_after_spawn : Bool

abbrev Outcome : Type 0
Outcome = Result SubmitError ℕ × World

expired : Option ℕ → ℕ → Bool
expired none now = false
expired (some at) now = leb at now

pub pause_reason : ActiveRuns → SubmitError
pause_reason a =
    reconnect_in_progress
      (if a.pause_reason == "" then "new runs are temporarily paused" else a.pause_reason)

abbrev at : Env → ℕ → World → World
at env k w = record w { runs = env.others k w.runs }

abbrev log : Effect → World → World
log e w = record w { effects = e ∷ w.effects }

module _ (env : Env) (input : SubmitInput) where
  -- `releaseBoth`: the slot of the pool, then the reservation.
  pub release_both : World → World
  release_both w = record w {
    pool = (release env.capacity w.pool).0;
    runs = release_reservation input.scope_id (env.others 5 w.runs);
  }

  registered : ℕ → World → Option ActiveRuns → Outcome
  unfolding release_both
  registered run w none = (err run_already_active, log (stops run) (release_both w))
  registered run w (some runs) = (ok run, record w { runs = runs })

  pub register_stage : ℕ → World → Outcome
  unfolding registered
  register_stage run w =
      if env.cancelled_after_spawn
      then (err context_error, log (stops run) (release_both w))
      else registered run (at env 4 w) (register input.scope_id run (env.others 4 w.runs))

  spawned_as : World → Option ℕ → Outcome
  spawned_as w none = (err agent_spawn_failed, release_both w)
  spawned_as w (some run) = register_stage run (log (spawns (run_options input) run) w)

  -- The third look at the pause, then the agent's process.
  pub spawn_stage : World → Outcome
  unfolding spawned_as
  spawn_stage w =
      if new_runs_paused (env.others 3 w.runs)
      then (
        err (pause_reason (env.others 6 (env.others 3 w.runs))),
        release_both (at env 6 (at env 3 w)),
      )
      else spawned_as (at env 3 w) env.spawned

  -- The second look at the pause, then the agent's preparation.
  pub prepare_stage : World → Outcome
  prepare_stage w =
      if new_runs_paused (env.others 2 w.runs)
      then (
        err (pause_reason (env.others 6 (env.others 2 w.runs))),
        release_both (at env 6 (at env 2 w)),
      )
      else if env.prepare_fails
      then (
        err agent_prepare_failed,
        release_both (log (prepares (run_options input)) (at env 2 w)),
      )
      else if env.cancelled_after_prepare
      then (err context_error, release_both (log (prepares (run_options input)) (at env 2 w)))
      else spawn_stage (log (prepares (run_options input)) (at env 2 w))

  give_up : SubmitError → World → Outcome
  give_up e w =
      (err e, record w { runs = release_reservation input.scope_id (env.others 5 w.runs) })

  -- `TryAcquire` for a caller that does not wait.
  acquired_now : World → Option Pool → Outcome
  unfolding give_up
  acquired_now w none = give_up pool_full w
  acquired_now w (some pool) = prepare_stage (record w { pool = pool })

  acquired_later : World → Pool → Option Pool → Outcome
  unfolding give_up
  acquired_later w queued none =
      give_up context_error (record w { pool = remove_waiter env.waiter queued })
  acquired_later w queued (some pool) =
      prepare_stage (record w { pool = record pool { active = pool.active + 1 } })

  acquired_round : World → Pool × Bool → Outcome
  unfolding acquired_later
  acquired_round w (pool, true) = prepare_stage (record w { pool = pool })
  acquired_round w (queued, false) = acquired_later w queued (env.wait queued)

  pub acquire_stage : Bool → World → Outcome
  unfolding acquired_now acquired_round
  acquire_stage true w = acquired_now w (try_acquire env.capacity w.pool)
  acquire_stage false w = acquired_round w (acquire_round env.capacity env.waiter w.pool)

  reserved_as : Bool → World → Option ActiveRuns → Outcome
  reserved_as nowait w none = (err run_already_active, w)
  reserved_as nowait w (some runs) = acquire_stage nowait (record w { runs = runs })

  pub reserve_stage : Bool → World → Outcome
  unfolding reserved_as
  reserve_stage nowait w =
      if new_runs_paused (env.others 0 w.runs)
      then (err (pause_reason (env.others 6 (env.others 0 w.runs))), at env 6 (at env 0 w))
      else reserved_as nowait (at env 1 (at env 0 w))
          (reserve input.scope_id (env.others 1 (env.others 0 w.runs)))

pub submit : Env → SubmitInput → World → Outcome
unfolding expired
submit env input w =
    if not env.has_agent
    then (err agent_required, w)
    else if expired input.policy.expires_at env.now
    then (err policy_expired, w)
    else reserve_stage env input input.nowait w
