-- ===== src/Execution/Submit/Processes.antt =====
-- internal/app/runexecutor/run_executor.go: which processes `Submit` starts, and which it stops.
use lark_bridge_agent_sdk.Base.{
  ℕ, suc, ◌+◌, ◌≡◌, refl, Bool, true, false, Option, none, some, List, [], ◌∷◌, arith, ok, err,
  Bool-cases, if-lift, not, inl, inr,
}
use lark_bridge_agent_sdk.Execution.Pool.{Pool}
use lark_bridge_agent_sdk.Execution.Runs.{ActiveRuns, new_runs_paused}
use lark_bridge_agent_sdk.Execution.Submit.{
  run_options, Env, World, SubmitInput, Outcome, Effect, AgentRunOptions, prepares, spawns, stops,
  at, log, release_both, register_stage, spawned_as, spawn_stage, prepare_stage, acquired_now,
  acquired_later, acquired_round, acquire_stage, reserved_as, reserve_stage, submit, expired,
  SubmitError,
}

abbrev pub spawn_count : List Effect → ℕ
spawn_count [] = 0
spawn_count (spawns options run ∷ es) = suc (spawn_count es)
spawn_count (_ ∷ es) = spawn_count es

abbrev pub stop_count : List Effect → ℕ
stop_count [] = 0
stop_count (stops run ∷ es) = suc (stop_count es)
stop_count (_ ∷ es) = stop_count es

-- The processes that were started and not stopped since the effects `before`.
abbrev pub Balanced : List Effect → Outcome → Type 0
Balanced before (err e, w) =
    spawn_count w.effects + stop_count before ≡ spawn_count before + stop_count w.effects
Balanced before (ok run, w) =
    spawn_count w.effects + stop_count before ≡ spawn_count before + stop_count w.effects + 1

-- No process was started since the effects `before`, and no run is returned.
abbrev pub Unstarted : List Effect → Outcome → Type 0
Unstarted before (err e, w) = spawn_count w.effects ≡ spawn_count before
Unstarted before (ok run, w) = ⊥

module _ (env : Env) (input : SubmitInput) where
  register_stage-Balanced :
      (run : ℕ) (w : World)
      → Balanced w.effects (register_stage env input run (log (spawns (run_options input) run) w))
  unfolding register_stage release_both
  register_stage-Balanced run w = ground arith

  spawned_as-Balanced :
      (w : World) (spawned : Option ℕ) → Balanced w.effects (spawned_as env input w spawned)
  unfolding spawned_as release_both
  spawned_as-Balanced w none = refl
  spawned_as-Balanced w (some run) = register_stage-Balanced run w

  spawn_stage-Balanced : (w : World) → Balanced w.effects (spawn_stage env input w)
  unfolding spawn_stage release_both
  spawn_stage-Balanced w = elim (Bool-cases (new_runs_paused (env.others 3 w.runs))) [
    | inl e ↦ rw e refl
    | inr e ↦ rw e (spawned_as-Balanced (at env 3 w) env.spawned)
  ]

  prepare_stage-Balanced : (w : World) → Balanced w.effects (prepare_stage env input w)
  unfolding prepare_stage release_both
  prepare_stage-Balanced w =
      ground (arith, spawn_stage-Balanced (log (prepares (run_options input)) (at env 2 w)))

  -- Once a process may not be started, the stages before the spawn return an error.
  module _ (paused : (a : ActiveRuns) → new_runs_paused (env.others 3 a) ≡ true) where
    spawn_stage-Unstarted : (w : World) → Unstarted w.effects (spawn_stage env input w)
    unfolding spawn_stage release_both
    spawn_stage-Unstarted w = rw (paused w.runs) refl

    prepare_stage-Unstarted : (w : World) → Unstarted w.effects (prepare_stage env input w)
    unfolding prepare_stage release_both
    prepare_stage-Unstarted w =
        ground (arith, spawn_stage-Unstarted (log (prepares (run_options input)) (at env 2 w)))

  -- What holds of a failure with no further effect, and of the stages from the second look at the
  -- pause on, holds of the whole submission.
  module _ (P : List Effect → Outcome → Type 0)
      (fails : (e : SubmitError) (w : World) → P w.effects (err e, w))
      (continues : (w : World) → P w.effects (prepare_stage env input w)) where
    acquired_now-lift : (w : World) (r : Option Pool) → P w.effects (acquired_now env input w r)
    unfolding acquired_now
    acquired_now-lift w none = fails _ _
    acquired_now-lift w (some q) = continues _

    acquired_later-lift :
        (w : World) (q : Pool) (r : Option Pool) → P w.effects (acquired_later env input w q r)
    unfolding acquired_later
    acquired_later-lift w q none = fails _ _
    acquired_later-lift w q (some p) = continues _

    acquired_round-lift : (w : World) (r : Pool × Bool) → P w.effects (acquired_round env input w r)
    unfolding acquired_round
    acquired_round-lift w (q, true) = continues _
    acquired_round-lift w (q, false) = acquired_later-lift w q (env.wait q)

    acquire_stage-lift :
        (nowait : Bool) (w : World) → P w.effects (acquire_stage env input nowait w)
    unfolding acquire_stage
    acquire_stage-lift true w = acquired_now-lift w _
    acquire_stage-lift false w = acquired_round-lift w _

    reserved_as-lift :
        (nowait : Bool) (w : World) (r : Option ActiveRuns)
        → P w.effects (reserved_as env input nowait w r)
    unfolding reserved_as
    reserved_as-lift nowait w none = fails _ _
    reserved_as-lift nowait w (some runs) = acquire_stage-lift nowait _

    reserve_stage-lift :
        (nowait : Bool) (w : World) → P w.effects (reserve_stage env input nowait w)
    unfolding reserve_stage
    reserve_stage-lift nowait w = elim (Bool-cases (new_runs_paused (env.others 0 w.runs))) [
      | inl e ↦ rw e (fails _ _)
      | inr e ↦ rw e (reserved_as-lift nowait _ _)
    ]

module _ (P : List Effect → Outcome → Type 0)
    (fails : (e : SubmitError) (w : World) → P w.effects (err e, w)) (env : Env)
    (input : SubmitInput) (continues : (w : World) → P w.effects (prepare_stage env input w)) where
  submit-lift : (w : World) → P w.effects (submit env input w)
  unfolding submit
  submit-lift w = if-lift (P w.effects) (not env.has_agent) _ _ (fails _ _) (
      if-lift (P w.effects) (expired input.policy.expires_at env.now) _ _ (fails _ _)
        (reserve_stage-lift env input P fails continues input.nowait w))

-- No process is orphaned: a failed submission has stopped every process that it started, and a
-- successful one leaves exactly one running.
pub submit-Balanced :
    (env : Env) (input : SubmitInput) (w : World) → Balanced w.effects (submit env input w)
submit-Balanced env input w =
    submit-lift Balanced (λ e v. refl) env input (prepare_stage-Balanced env input) w

-- If new runs are paused when `Submit` looks for the third time, the submission fails and no
-- process is started, whatever happened before.
pub submit_while_paused :
    (env : Env) (input : SubmitInput) (w : World)
    → ((a : ActiveRuns) → new_runs_paused (env.others 3 a) ≡ true)
    → Unstarted w.effects (submit env input w)
submit_while_paused env input w paused =
    submit-lift Unstarted (λ e v. refl) env input (prepare_stage-Unstarted env input paused) w

-- What the agent was told since the effects `before`, where a run is returned: to prepare it and to
-- start it, both with these options.
abbrev pub Spawns : AgentRunOptions → List Effect → Outcome → Type 0
Spawns options before (err e, w) = Unit
Spawns options before (ok run, w) = w.effects ≡ spawns options run ∷ prepares options ∷ before

module _ (env : Env) (input : SubmitInput) where
  register_stage-Spawns :
      (run : ℕ) (w : World) (before : List Effect)
      → w.effects ≡ prepares (run_options input) ∷ before
      → Spawns
          (run_options input)
          before
          (register_stage env input run (log (spawns (run_options input) run) w))
  unfolding register_stage release_both
  register_stage-Spawns run w before h = ground (arith, h)

  spawn_stage-Spawns :
      (w : World) (before : List Effect)
      → w.effects ≡ prepares (run_options input) ∷ before
      → Spawns (run_options input) before (spawn_stage env input w)
  unfolding spawn_stage spawned_as
  spawn_stage-Spawns w before h =
      if-lift {A = Outcome} (Spawns (run_options input) before)
        (new_runs_paused (env.others 3 w.runs)) _ _ tt (by_answer env.spawned)
    where
      by_answer :
          (o : Option ℕ) → Spawns (run_options input) before (spawned_as env input (at env 3 w) o)
      by_answer none = tt
      by_answer (some run) = register_stage-Spawns run (at env 3 w) before h

  prepare_stage-Spawns :
      (w : World) → Spawns (run_options input) w.effects (prepare_stage env input w)
  unfolding prepare_stage
  prepare_stage-Spawns w =
      let P = Spawns (run_options input) w.effects in
      let prepared = log (prepares (run_options input)) (at env 2 w) in
      if-lift {A = Outcome} P (new_runs_paused (env.others 2 w.runs)) _ _ tt (
        if-lift {A = Outcome} P env.prepare_fails _ _ tt (
          if-lift {A = Outcome} P env.cancelled_after_prepare _ _ tt
            (spawn_stage-Spawns prepared w.effects refl)))

  pub submit-Spawns : (w : World) → Spawns (run_options input) w.effects (submit env input w)
  submit-Spawns w =
      submit-lift (Spawns (run_options input)) (λ e v. tt) env input prepare_stage-Spawns w
