-- ===== src/Execution/Submit/Progress.antt =====
-- internal/app/runexecutor/run_executor.go: a submission with nothing in its way.
use lark_bridge_agent_sdk.Base.{ℕ, ◌<◌, Bool, true, false, none, some, ◌≡◌, ok, arith, ap, ◌∙◌, ◌+◌}
use lark_bridge_agent_sdk.Base.Map.{lookup, insert}
use lark_bridge_agent_sdk.Execution.Pool.{current_cap, try_acquire, acquire_round}
use lark_bridge_agent_sdk.Execution.Runs.{ActiveRuns, reserve, register, new_runs_paused}
use lark_bridge_agent_sdk.Execution.Submit.{
  run_options, Env, SubmitInput, World, at, log, expired, submit, reserve_stage, reserved_as,
  acquire_stage, acquired_now, acquired_round, prepare_stage, spawn_stage, spawned_as,
  register_stage, registered, spawns, prepares,
}

-- Nobody else touches the registry, the agent starts the run and the context does not end.
abbrev pub Unhindered : Env → ℕ → Type 0
Unhindered env run =
    (env.has_agent ≡ true)
    × ((k : ℕ) (a : ActiveRuns) → env.others k a ≡ a)
    × (env.prepare_fails ≡ false)
    × (env.cancelled_after_prepare ≡ false)
    × (env.spawned ≡ some run)
    × (env.cancelled_after_spawn ≡ false)

module _ (env : Env) (run : ℕ) (free : Unhindered env run) (input : SubmitInput) where
  at-same : (k : ℕ) (w : World) → at env k w ≡ w
  at-same k w = ap (λ a. record w { runs = a }) (free.1 k w.runs)

  register_stage-ok :
      (w : World)
      → lookup input.scope_id w.runs.handles ≡ none
      → (register_stage env input run w).0 ≡ ok run
  unfolding register_stage registered register
  register_stage-ok w h = ground (arith, free.1 4 w.runs, h, free.5)

  spawn_stage-ok :
      (w : World)
      → new_runs_paused w.runs ≡ false
      → lookup input.scope_id w.runs.handles ≡ none
      → (spawn_stage env input w).0 ≡ ok run
  unfolding spawn_stage spawned_as
  spawn_stage-ok w p h = ground (
    arith,
    free.1 3 w.runs,
    p,
    h,
    free.4,
    register_stage-ok (log (spawns (run_options input) run) (at env 3 w))
        (ap (λ a. lookup input.scope_id a.handles) (free.1 3 w.runs) ∙ h),
  )

  prepare_stage-ok :
      (w : World)
      → new_runs_paused w.runs ≡ false
      → lookup input.scope_id w.runs.handles ≡ none
      → (prepare_stage env input w).0 ≡ ok run
  unfolding prepare_stage
  prepare_stage-ok w p h = ground (
    arith,
    free.1 2 w.runs,
    p,
    h,
    free.2,
    free.3,
    spawn_stage-ok (log (prepares (run_options input)) (at env 2 w))
        (ap new_runs_paused (free.1 2 w.runs) ∙ p)
        (ap (λ a. lookup input.scope_id a.handles) (free.1 2 w.runs) ∙ h),
  )

  acquire_stage-ok :
      (nowait : Bool) (w : World)
      → w.pool.active < current_cap env.capacity
      → new_runs_paused w.runs ≡ false
      → lookup input.scope_id w.runs.handles ≡ none
      → (acquire_stage env input nowait w).0 ≡ ok run
  unfolding acquire_stage acquired_now acquired_round try_acquire acquire_round
  acquire_stage-ok true w c p h = ground (
    arith,
    c,
    prepare_stage-ok (record w { pool = record w.pool { active = w.pool.active + 1 } }) p h,
  )
  acquire_stage-ok false w c p h = ground (
    arith,
    c,
    prepare_stage-ok (record w { pool = record w.pool { active = w.pool.active + 1 } }) p h,
  )

  reserved_as-ok :
      (nowait : Bool) (w : World)
      → w.pool.active < current_cap env.capacity
      → new_runs_paused w.runs ≡ false
      → lookup input.scope_id w.runs.handles ≡ none
      → lookup input.scope_id w.runs.reservations ≡ none
      → (reserved_as env input nowait w (reserve input.scope_id w.runs)).0 ≡ ok run
  unfolding reserved_as reserve new_runs_paused
  reserved_as-ok nowait w c p h k =
      let a = w.runs in
      ground (
        arith,
        h,
        k,
        acquire_stage-ok nowait
            (record w {
              runs = record a { reservations = insert input.scope_id tt a.reservations };
            })
            c p h,
      )

  reserve_stage-ok :
      (nowait : Bool) (w : World)
      → w.pool.active < current_cap env.capacity
      → new_runs_paused w.runs ≡ false
      → lookup input.scope_id w.runs.handles ≡ none
      → lookup input.scope_id w.runs.reservations ≡ none
      → (reserve_stage env input nowait w).0 ≡ ok run
  unfolding reserve_stage
  reserve_stage-ok nowait w c p h k =
      let same = at-same 1 (at env 0 w) ∙ at-same 0 w in
      ground (
        arith,
        free.1 0 w.runs,
        p,
        reserved_as-ok nowait (at env 1 (at env 0 w)) c (ap (λ v. new_runs_paused v.runs) same ∙ p)
            (ap (λ v. lookup input.scope_id v.runs.handles) same ∙ h)
            (ap (λ v. lookup input.scope_id v.runs.reservations) same ∙ k),
      )

-- A submission with nothing in its way starts its run: new runs are not paused, the scope has
-- neither a run nor a reservation, a slot is free, the policy has not expired, the agent prepares
-- and spawns the run, the context does not end, and no other goroutine touches the registry.
pub submit-ok :
    (env : Env) (run : ℕ) (input : SubmitInput) (w : World) (at : ℕ)
    → Unhindered env run
    → input.policy.expires_at ≡ some at
    → env.now < at
    → w.pool.active < current_cap env.capacity
    → new_runs_paused w.runs ≡ false
    → lookup input.scope_id w.runs.handles ≡ none
    → lookup input.scope_id w.runs.reservations ≡ none
    → (submit env input w).0 ≡ ok run
unfolding submit expired
submit-ok env run input w at free e l c p h k =
    ground (arith, free.0, e, l, reserve_stage-ok env run free input input.nowait w c p h k)
