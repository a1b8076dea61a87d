-- ===== src/Execution/Runs.antt =====
-- internal/app/runexecutor/active_runs.go: which scope has a run, and which one is reserved. A
-- spawned run is a number. `Register` makes one handle for a run, so a handle is named by its run,
-- and its flag, which outlives the entry of the map, is kept in `interrupted`.
pub mod Laws
mod Tests
use lark_bridge_agent_sdk.Base.{
  ℕ, suc, ◌+◌, ◌-◌, String, Bool, true, false, Option, none, some, List, [], ◌∷◌, ◌++◌, ltb, nat_eq,
  is_some, if◌then◌else◌, Result, ok, err,
}
use lark_bridge_agent_sdk.Base.Map.{Map, lookup, insert, delete, values, keys}

pub record ActiveRuns : Type 0 where
  pub handles : Map ℕ
  pub reservations : Map (Unit {0})
  pub pause_depth : ℕ
  pub pause_reason : String
  pub interrupted : List ℕ

unfoldable pub new_active_runs : ActiveRuns
new_active_runs = record {
  handles = [];
  reservations = [];
  pause_depth = 0;
  pause_reason = "";
  interrupted = [];
}

pub has_handle : String → ActiveRuns → Bool
has_handle scope_id a = is_some (lookup scope_id a.handles)

pub has_reservation : String → ActiveRuns → Bool
has_reservation scope_id a = is_some (lookup scope_id a.reservations)

-- `none` is the nil release function.
unfoldable pub reserve : String → ActiveRuns → Option ActiveRuns
unfolding has_handle has_reservation
reserve scope_id a =
    if has_handle scope_id a
    then none
    else if has_reservation scope_id a
    then none
    else some (record a { reservations = insert scope_id tt a.reservations })

-- The body of the function that `Reserve` returns.
unfoldable pub release_reservation : String → ActiveRuns → ActiveRuns
release_reservation scope_id a = record a { reservations = delete scope_id a.reservations }

-- `none` is the rejection `run-already-active`.
unfoldable pub register : String → ℕ → ActiveRuns → Option ActiveRuns
unfolding has_handle
register scope_id run a =
    if has_handle scope_id a
    then none
    else some (record a {
      reservations = delete scope_id a.reservations;
      handles = insert scope_id run a.handles;
    })

is_run : Option ℕ → ℕ → Bool
is_run none run = false
is_run (some existing) run = nat_eq existing run

-- Only the run that is registered is removed.
unfoldable pub unregister : String → ℕ → ActiveRuns → ActiveRuns
unfolding is_run
unregister scope_id run a =
    if is_run (lookup scope_id a.handles) run
    then record a { handles = delete scope_id a.handles }
    else a

unfoldable pub pause_new_runs : String → ActiveRuns → ActiveRuns
pause_new_runs reason a = record a { pause_depth = a.pause_depth + 1; pause_reason = reason }

clear_reason : ActiveRuns → ActiveRuns
clear_reason a = if nat_eq a.pause_depth 0 then record a { pause_reason = "" } else a

-- The body of the function that `PauseNewRuns` returns.
unfoldable pub resume_new_runs : ActiveRuns → ActiveRuns
unfolding clear_reason
resume_new_runs a =
    clear_reason (if ltb 0 a.pause_depth then record a { pause_depth = a.pause_depth - 1 } else a)

unfoldable pub new_runs_paused : ActiveRuns → Bool
new_runs_paused a = ltb 0 a.pause_depth

-- The entry found, its handle is marked, and the run is stopped by a goroutine: the second part.
interrupt_handle : String → ActiveRuns → Option ℕ → ActiveRuns × Option ℕ
interrupt_handle scope_id a none = (a, none)
interrupt_handle scope_id a (some run) = (
  record a {
    interrupted = run ∷ a.interrupted;
    reservations = delete scope_id a.reservations;
    handles = delete scope_id a.handles;
  },
  some run,
)

unfoldable pub interrupt : String → ActiveRuns → ActiveRuns × Option ℕ
unfolding interrupt_handle
interrupt scope_id a = interrupt_handle scope_id a (lookup scope_id a.handles)

-- The runs to stop are the second part.
unfoldable pub stop_all : ActiveRuns → ActiveRuns × List ℕ
stop_all a = (
  record a { interrupted = values a.handles ++ a.interrupted; handles = []; reservations = [] },
  values a.handles,
)

unfoldable pub scopes : ActiveRuns → List String
scopes a = keys a.handles
