-- ===== src/Execution/Runs/Laws.antt =====
-- internal/app/runexecutor/active_runs.go: what the registry promises across its operations.
use lark_bridge_agent_sdk.Base.{
  ℕ, zero, suc, ltb, ◌≡◌, ◌≢◌, String, false, Option, none, some, List, [], ◌∷◌, arith, eq_refl,
  ◌==◌,
}
use lark_bridge_agent_sdk.Base.Map.{lookup, lookup-insert, lookup-delete}
use lark_bridge_agent_sdk.Execution.Runs.{
  ActiveRuns, has_handle, reserve, register, unregister, pause_new_runs, resume_new_runs,
  new_runs_paused, interrupt,
}

-- A scope is never reserved twice, nor while it has a run: a second reservation fails until the
-- first is given back or turned into a run.
pub reserve_exclusive :
    (scope_id : String) (a b : ActiveRuns)
    → reserve scope_id a ≡ some b
    → (has_handle scope_id a ≡ false)
      × (reserve scope_id b ≡ none)
      × ((run : ℕ) (c : ActiveRuns) → register scope_id run b ≡ some c → reserve scope_id c ≡ none)
unfolding reserve register has_handle
reserve_exclusive scope_id a b e = (
  ground arith,
  ground (arith, lookup-insert scope_id scope_id tt a.reservations, eq_refl scope_id),
  λ run c r. ground (arith, lookup-insert scope_id scope_id run b.handles, eq_refl scope_id),
)

-- When a run is interrupted and another one takes its scope, the late clean-up of the old run leaves
-- the new one registered; the new run's own clean-up frees the scope.
pub stale_unregister :
    (scope_id : String) (old new : ℕ) (a b c : ActiveRuns)
    → interrupt scope_id a ≡ (b, some old)
    → register scope_id new b ≡ some c
    → new ≢ old
    → (lookup scope_id (unregister scope_id old c).handles ≡ some new)
      × (lookup scope_id (unregister scope_id new c).handles ≡ none)
unfolding interrupt register unregister
stale_unregister scope_id old new a b c i r ne = ground (
  arith,
  lookup-insert scope_id scope_id new b.handles,
  lookup-delete scope_id scope_id c.handles,
  eq_refl scope_id,
)

-- No operation on a scope touches the run of another scope.
pub others_untouched :
    (scope_id j : String) (run : ℕ) (a b : ActiveRuns)
    → (scope_id == j) ≡ false
    → (reserve scope_id a ≡ some b → lookup j b.handles ≡ lookup j a.handles)
      × (register scope_id run a ≡ some b → lookup j b.handles ≡ lookup j a.handles)
      × (lookup j (unregister scope_id run a).handles ≡ lookup j a.handles)
      × (lookup j (interrupt scope_id a).0.handles ≡ lookup j a.handles)
unfolding reserve register unregister interrupt
others_untouched scope_id j run a b ne = (
  λ e. ground arith,
  λ e. ground (arith, lookup-insert scope_id j run a.handles),
  ground (arith, lookup-delete scope_id j a.handles),
  ground (arith, lookup-delete scope_id j a.handles),
)

-- A call of `PauseNewRuns`, or the first call of a function that it returned.
pub data PauseCall : Type 0 where
  pauses : String → PauseCall
  resumes : PauseCall

pub after_calls : List PauseCall → ActiveRuns → ActiveRuns
after_calls [] a = a
after_calls (pauses reason ∷ cs) a = after_calls cs (pause_new_runs reason a)
after_calls (resumes ∷ cs) a = after_calls cs (resume_new_runs a)

-- The pauses that are not resumed after the calls, if `n` were not before; `none` if a resume has
-- no pause, which cannot be since `PauseNewRuns` gives each resume out once.
abbrev pub outstanding : ℕ → List PauseCall → Option ℕ
outstanding n [] = some n
outstanding n (pauses reason ∷ cs) = outstanding (suc n) cs
outstanding zero (resumes ∷ cs) = none
outstanding (suc n) (resumes ∷ cs) = outstanding n cs

-- Overlapping pauses count: after any interleaving of pauses and resumes new runs are paused exactly
-- while some pause has not been resumed.
pub paused_iff_outstanding :
    (n m : ℕ) (cs : List PauseCall) (a : ActiveRuns)
    → a.pause_depth ≡ n
    → outstanding n cs ≡ some m
    → new_runs_paused (after_calls cs a) ≡ ltb 0 m
unfolding after_calls new_runs_paused pause_new_runs resume_new_runs
paused_iff_outstanding n m [] a h e = ground arith
paused_iff_outstanding n m (pauses reason ∷ cs) a h e =
    paused_iff_outstanding (suc n) m cs (pause_new_runs reason a) (omega arith) e
paused_iff_outstanding zero m (resumes ∷ cs) a h e = absurd (cc e)
paused_iff_outstanding (suc n) m (resumes ∷ cs) a h e =
    paused_iff_outstanding n m cs (resume_new_runs a) (ground arith) e
