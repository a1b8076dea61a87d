-- ===== src/Execution/Runs/Tests.antt =====
-- internal/app/runexecutor/active_runs.go: a registry in which the scope `chat` has the run 1.
use lark_bridge_agent_sdk.Base.{List, [], ◌∷◌}
use lark_bridge_agent_sdk.Execution.Runs.{ActiveRuns}
use lark_bridge_agent_sdk.Execution.Runs.Laws.{PauseCall, pauses, resumes}

abbrev busy : ActiveRuns
busy = record {
  handles = ("chat", 1) ∷ [];
  reservations = [];
  pause_depth = 0;
  pause_reason = "";
  interrupted = [];
}

abbrev freed : ActiveRuns
freed = record busy { handles = []; interrupted = 1 ∷ [] }

abbrev taken : ActiveRuns
taken = record freed { handles = ("chat", 2) ∷ [] }

abbrev reserved : ActiveRuns
reserved = record busy { reservations = ("doc", tt) ∷ [] }

abbrev overlapping : List PauseCall
overlapping = pauses "reconnect" ∷ pauses "account" ∷ resumes ∷ []
