-- ===== src/Execution/Lifecycle/Tests.antt =====
-- internal/app/runexecutor/run_executor.go: an execution that is stopped twice while it ends.
use lark_bridge_agent_sdk.Base.{◌≡◌, refl, true, false, List, [], ◌∷◌, any}
use lark_bridge_agent_sdk.Execution.Submit.{World}
use lark_bridge_agent_sdk.Execution.Lifecycle.{Execution, Event, stop, stream_ends, steps}
use lark_bridge_agent_sdk.Execution.Lifecycle.Release.{steps_release_once}

abbrev running : Execution
running = record { run = 7; scope_id = "chat"; cleaned = false; stop_called = false }

abbrev occupied : World
occupied = record {
  runs = record {
    handles = ("chat", 7) ∷ [];
    reservations = [];
    pause_depth = 0;
    pause_reason = "";
    interrupted = [];
  };
  pool = record { active = 1; waiters = [] };
  effects = [];
}

abbrev ending : List Event
ending = stop 1 false ∷ stream_ends 1 true ∷ stop 1 false ∷ []

steps_release_once_example : (steps ending (running, occupied)).1.pool.active ≡ 0
unfolding any
steps_release_once_example = (steps_release_once ending running occupied refl).1 refl
