-- ===== src/Execution/Submit/Tests.antt =====
-- internal/app/runexecutor/run_executor.go: submissions with one slot and quiet neighbours.
use lark_bridge_agent_sdk.Base.{◌≡◌, refl, true, false, none, some, [], arith}
use lark_bridge_agent_sdk.Permissions.{read_only, sandbox_read_only, plan}
use lark_bridge_agent_sdk.Execution.Runs.{ActiveRuns, new_runs_paused, pause_new_runs}
use lark_bridge_agent_sdk.Execution.Submit.{Env, World, SubmitInput, submit}
use lark_bridge_agent_sdk.Execution.Submit.Outcome.{Frame, Submitted, submit-Submitted}
use lark_bridge_agent_sdk.Execution.Submit.Processes.{Balanced, submit-Balanced}

abbrev idle : World
idle = record {
  runs = record {
    handles = [];
    reservations = [];
    pause_depth = 0;
    pause_reason = "";
    interrupted = [];
  };
  pool = record { active = 0; waiters = [] };
  effects = [];
}

abbrev quiet : Env
quiet = record {
  has_agent = true;
  now = 100;
  capacity = 1;
  others = λ k a. a;
  waiter = 0;
  wait = λ p. none;
  prepare_fails = false;
  cancelled_after_prepare = false;
  spawned = some 7;
  cancelled_after_spawn = false;
}

abbrev request : SubmitInput
request = record {
  scope_id = "chat";
  policy = record {
    prompt = "hello";
    cwd_realpath = "/work";
    access_mode = read_only;
    sandbox = sandbox_read_only;
    permission_mode = plan;
    expires_at = some 400;
  };
  session_id = "";
  thread_id = "";
  model = "";
  images = [];
  stop_grace_ms = 0;
  nowait = true;
}

quiet-Frame : Frame quiet "chat"
quiet-Frame k a = (refl, refl)

-- The agent's preparation fails.
abbrev failing : Env
failing = record quiet { prepare_fails = true }

-- A reconnect begins while the run is being prepared.
abbrev reconnecting : Env
reconnecting = record quiet { others = λ k a. pause_new_runs "reconnect" a }

submit-Submitted_example : Submitted quiet request idle (submit quiet request idle)
submit-Submitted_example = submit-Submitted quiet request quiet-Frame idle

submit-Balanced_example : Balanced [] (submit failing request idle)
submit-Balanced_example = submit-Balanced failing request idle

always_paused : (a : ActiveRuns) → new_runs_paused (pause_new_runs "reconnect" a) ≡ true
unfolding new_runs_paused pause_new_runs
always_paused a = ground arith
