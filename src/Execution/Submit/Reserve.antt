-- ===== src/Execution/Submit/Reserve.antt =====
-- internal/app/runexecutor/active_runs.go: a reservation as `Submit` uses it.
use lark_bridge_agent_sdk.Base.{◌≡◌, String, none, some, arith, eq_refl}
use lark_bridge_agent_sdk.Base.Map.{lookup, lookup-insert}
use lark_bridge_agent_sdk.Execution.Runs.{ActiveRuns, reserve}

-- A scope is reserved only when it is free, and then its handles stay.
pub reserve-some :
    (scope_id : String) (a b : ActiveRuns)
    → reserve scope_id a ≡ some b
    → (lookup scope_id a.handles ≡ none)
      × (lookup scope_id a.reservations ≡ none)
      × (b.handles ≡ a.handles)
      × (lookup scope_id b.reservations ≡ some tt)
unfolding reserve
reserve-some scope_id a b e =
    ground (arith, lookup-insert scope_id scope_id tt a.reservations, eq_refl scope_id)
