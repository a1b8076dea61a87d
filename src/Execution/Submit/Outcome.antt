-- ===== src/Execution/Submit/Outcome.antt =====
-- internal/app/runexecutor/run_executor.go: what `Submit` leaves behind, on every branch.
use lark_bridge_agent_sdk.Base.{
  ℕ, ◌+◌, ◌≡◌, refl, String, Bool, true, false, Option, none, some, arith, eq_refl, ok, err,
  Bool-cases, inl, inr, ◌⊎◌, ◌∙◌, sym,
}
use lark_bridge_agent_sdk.Base.Map.{lookup, lookup-insert, lookup-delete}
use lark_bridge_agent_sdk.Execution.Pool.{Pool, try_acquire, acquire_round, remove_waiter}
use lark_bridge_agent_sdk.Execution.Pool.Accounting.{
  release-active, try_acquire-active, acquire_round-active, remove_waiter-active,
}
use lark_bridge_agent_sdk.Execution.Runs.{
  ActiveRuns, reserve, release_reservation, register, new_runs_paused,
}
use lark_bridge_agent_sdk.Execution.Submit.Reserve.{reserve-some}
use lark_bridge_agent_sdk.Execution.Submit.{
  run_options, Env, World, SubmitInput, Outcome, SubmitError, release_both, register_stage,
  spawned_as, spawn_stage, prepare_stage, give_up, acquired_now, acquired_later, acquired_round,
  acquire_stage, reserved_as, reserve_stage, submit, at, log, prepares, spawns, pool_full,
  context_error,
}

-- The other goroutines leave the entries of this scope alone.
abbrev pub Frame : Env → String → Type 0
Frame env scope_id =
    (k : ℕ) (a : ActiveRuns)
    → (lookup scope_id (env.others k a).handles ≡ lookup scope_id a.handles)
      × (lookup scope_id (env.others k a).reservations ≡ lookup scope_id a.reservations)

-- The scope is reserved for this submission, and one slot above `n` is taken.
abbrev Holds : String → ℕ → World → Type 0
Holds scope_id n w =
    (lookup scope_id w.runs.handles ≡ none)
    × (lookup scope_id w.runs.reservations ≡ some tt)
    × (w.pool.active ≡ n + 1)

-- The scope has no run and no reservation, and the slot is back.
abbrev Freed : String → ℕ → World → Type 0
Freed scope_id n w =
    (lookup scope_id w.runs.handles ≡ none)
    × (lookup scope_id w.runs.reservations ≡ none)
    × (w.pool.active ≡ n)

-- After a failure all is given back; after a success the scope has its run.
abbrev Settled : String → ℕ → Outcome → Type 0
Settled scope_id n (err e, w) = Freed scope_id n w
Settled scope_id n (ok run, w) =
    (lookup scope_id w.runs.handles ≡ some run)
    × (lookup scope_id w.runs.reservations ≡ none)
    × (w.pool.active ≡ n + 1)

-- The counter of the pool just before this submission takes its slot.
abbrev later_slots : Pool → Option Pool → ℕ
later_slots queued none = queued.active
later_slots queued (some pool) = pool.active

abbrev round_slots : Env → Pool → Pool × Bool → ℕ
round_slots env p (pool, true) = p.active
round_slots env p (queued, false) = later_slots queued (env.wait queued)

abbrev pub slots_before : Env → Bool → Pool → ℕ
slots_before env true p = p.active
slots_before env false p = round_slots env p (acquire_round env.capacity env.waiter p)

module _ (env : Env) (input : SubmitInput) (frame : Frame env input.scope_id) (n : ℕ) where
  release_both-Freed :
      (w : World) → Holds input.scope_id n w → Freed input.scope_id n (release_both env input w)
  unfolding release_both release_reservation
  release_both-Freed w h = ground (
    arith,
    frame 5 w.runs,
    release-active env.capacity w.pool,
    lookup-delete input.scope_id input.scope_id (env.others 5 w.runs).reservations,
    eq_refl input.scope_id,
  )

  register_stage-Settled :
      (run : ℕ) (w : World)
      → Holds input.scope_id n w
      → Settled input.scope_id n (register_stage env input run w)
  unfolding register_stage register
  register_stage-Settled run w h = ground (
    arith,
    frame 4 w.runs,
    release_both-Freed w h,
    lookup-insert input.scope_id input.scope_id run (env.others 4 w.runs).handles,
    lookup-delete input.scope_id input.scope_id (env.others 4 w.runs).reservations,
    eq_refl input.scope_id,
  )

  at-Holds : (k : ℕ) (w : World) → Holds input.scope_id n w → Holds input.scope_id n (at env k w)
  at-Holds k w h = ground (arith, frame k w.runs)

  spawned_as-Settled :
      (w : World) (spawned : Option ℕ)
      → Holds input.scope_id n w
      → Settled input.scope_id n (spawned_as env input w spawned)
  unfolding spawned_as
  spawned_as-Settled w none h = release_both-Freed w h
  spawned_as-Settled w (some run) h =
      register_stage-Settled run (log (spawns (run_options input) run) w) h

  spawn_stage-Settled :
      (w : World) → Holds input.scope_id n w → Settled input.scope_id n (spawn_stage env input w)
  unfolding spawn_stage
  spawn_stage-Settled w h =
      let held = at-Holds 3 w h in
      elim (Bool-cases (new_runs_paused (env.others 3 w.runs))) [
        | inl e ↦ rw e (release_both-Freed (at env 6 (at env 3 w)) (at-Holds 6 (at env 3 w) held))
        | inr e ↦ rw e (spawned_as-Settled (at env 3 w) env.spawned held)
      ]

  prepare_stage-Settled :
      (w : World) → Holds input.scope_id n w → Settled input.scope_id n (prepare_stage env input w)
  unfolding prepare_stage
  prepare_stage-Settled w h =
      let held = at-Holds 2 w h in
      let prepared = log (prepares (run_options input)) (at env 2 w) in
      ground (
        arith,
        release_both-Freed (at env 6 (at env 2 w)) (at-Holds 6 (at env 2 w) held),
        release_both-Freed prepared held,
        spawn_stage-Settled prepared held,
      )

  give_up-Freed :
      (e : SubmitError) (w : World)
      → lookup input.scope_id w.runs.handles ≡ none
      → w.pool.active ≡ n
      → Settled input.scope_id n (give_up env input e w)
  unfolding give_up release_reservation
  give_up-Freed e w h p = ground (
    arith,
    frame 5 w.runs,
    lookup-delete input.scope_id input.scope_id (env.others 5 w.runs).reservations,
    eq_refl input.scope_id,
  )

  acquired_now-Settled :
      (w : World) (r : Option Pool)
      → lookup input.scope_id w.runs.handles ≡ none
      → lookup input.scope_id w.runs.reservations ≡ some tt
      → w.pool.active ≡ n
      → try_acquire env.capacity w.pool ≡ r
      → Settled input.scope_id n (acquired_now env input w r)
  unfolding acquired_now
  acquired_now-Settled w none h k p e = give_up-Freed pool_full w h p
  acquired_now-Settled w (some q) h k p e =
      prepare_stage-Settled (record w { pool = q })
        (h, k, omega (arith, try_acquire-active env.capacity w.pool q e))

  acquired_later-Settled :
      (w : World) (queued : Pool) (r : Option Pool)
      → lookup input.scope_id w.runs.handles ≡ none
      → lookup input.scope_id w.runs.reservations ≡ some tt
      → later_slots queued r ≡ n
      → Settled input.scope_id n (acquired_later env input w queued r)
  unfolding acquired_later
  acquired_later-Settled w queued none h k p =
      give_up-Freed context_error (record w { pool = remove_waiter env.waiter queued }) h
        (remove_waiter-active env.waiter queued ∙ p)
  acquired_later-Settled w queued (some q) h k p =
      prepare_stage-Settled (record w { pool = record q { active = q.active + 1 } })
        (h, k, omega arith)

  acquired_round-Settled :
      (w : World) (r : Pool × Bool)
      → lookup input.scope_id w.runs.handles ≡ none
      → lookup input.scope_id w.runs.reservations ≡ some tt
      → round_slots env w.pool r ≡ n
      → acquire_round env.capacity env.waiter w.pool ≡ r
      → Settled input.scope_id n (acquired_round env input w r)
  unfolding acquired_round
  acquired_round-Settled w (q, true) h k p e =
      prepare_stage-Settled (record w { pool = q })
        (h, k, omega (arith, acquire_round-active env.capacity env.waiter w.pool q true e, p))
  acquired_round-Settled w (q, false) h k p e = acquired_later-Settled w q (env.wait q) h k p

  acquire_stage-Settled :
      (nowait : Bool) (w : World)
      → lookup input.scope_id w.runs.handles ≡ none
      → lookup input.scope_id w.runs.reservations ≡ some tt
      → slots_before env nowait w.pool ≡ n
      → Settled input.scope_id n (acquire_stage env input nowait w)
  unfolding acquire_stage
  acquire_stage-Settled true w h k p = acquired_now-Settled w _ h k p refl
  acquire_stage-Settled false w h k p = acquired_round-Settled w _ h k p refl

-- What a submission may change in the entries of its scope and in the counter of the pool.
abbrev pub Submitted : Env → SubmitInput → World → Outcome → Type 0
Submitted env input w (err e, w') =
    (lookup input.scope_id w'.runs.handles ≡ lookup input.scope_id w.runs.handles)
    × (lookup input.scope_id w'.runs.reservations ≡ lookup input.scope_id w.runs.reservations)
    × ((w'.pool.active ≡ w.pool.active) ⊎ (w'.pool.active ≡ slots_before env input.nowait w.pool))
Submitted env input w (ok run, w') =
    (lookup input.scope_id w.runs.handles ≡ none)
    × (lookup input.scope_id w.runs.reservations ≡ none)
    × (lookup input.scope_id w'.runs.handles ≡ some run)
    × (lookup input.scope_id w'.runs.reservations ≡ none)
    × (w'.pool.active ≡ slots_before env input.nowait w.pool + 1)

Settled→Submitted :
    (env : Env) (input : SubmitInput) (w : World) (r : Outcome)
    → lookup input.scope_id w.runs.handles ≡ none
    → lookup input.scope_id w.runs.reservations ≡ none
    → Settled input.scope_id (slots_before env input.nowait w.pool) r
    → Submitted env input w r
Settled→Submitted env input w (err e, w') h k s = (s.0 ∙ sym h, s.1 ∙ sym k, inr s.2)
Settled→Submitted env input w (ok run, w') h k s = (h, k, s.0, s.1, s.2)

module _ (env : Env) (input : SubmitInput) (frame : Frame env input.scope_id) where
  reserved_as-Submitted :
      (w : World) (r : Option ActiveRuns)
      → reserve input.scope_id (env.others 1 (env.others 0 w.runs)) ≡ r
      → Submitted env input w (reserved_as env input input.nowait (at env 1 (at env 0 w)) r)
  unfolding reserved_as
  reserved_as-Submitted w none e = ground (arith, frame 0 w.runs, frame 1 (env.others 0 w.runs))
  reserved_as-Submitted w (some runs) e =
      let (h, k, same, taken) = reserve-some input.scope_id _ runs e in
      let (h₀, k₀) = frame 0 w.runs in
      let (h₁, k₁) = frame 1 (env.others 0 w.runs) in
      Settled→Submitted env input w
        (acquire_stage env input input.nowait (record w { runs = runs })) (cc (h, h₀, h₁))
        (cc (k, k₀, k₁))
        (acquire_stage-Settled env input frame (slots_before env input.nowait w.pool) input.nowait
          (record w { runs = runs }) (cc (h, same)) taken refl)

  reserve_stage-Submitted :
      (w : World) → Submitted env input w (reserve_stage env input input.nowait w)
  unfolding reserve_stage
  reserve_stage-Submitted w = ground (
    arith,
    frame 0 w.runs,
    frame 6 (env.others 0 w.runs),
    reserved_as-Submitted w (reserve input.scope_id (env.others 1 (env.others 0 w.runs))) refl,
  )

  -- As long as the other goroutines leave the scope alone, a submission that fails, for whatever
  -- reason, leaves the scope's run and reservation as they were and keeps no slot of the pool; one
  -- that succeeds started on a free scope, and leaves the scope with exactly its own run, no
  -- reservation, and one more slot in use.
  pub submit-Submitted : (w : World) → Submitted env input w (submit env input w)
  unfolding submit
  submit-Submitted w = ground (arith, reserve_stage-Submitted w)
