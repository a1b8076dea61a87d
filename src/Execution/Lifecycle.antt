-- ===== src/Execution/Lifecycle.antt =====
-- internal/app/runexecutor/run_executor.go: the end of an execution, which its own `Stop` and the
-- end of its event stream both bring about.
mod Release
mod Tests
use lark_bridge_agent_sdk.Base.{
  ℕ, String, Bool, true, false, not, List, [], ◌∷◌, nat_eq, any, if◌then◌else◌,
}
use lark_bridge_agent_sdk.Execution.Pool.{release}
use lark_bridge_agent_sdk.Execution.Runs.{ActiveRuns, unregister}
use lark_bridge_agent_sdk.Execution.Submit.{World, Effect, stops, waits_for_exit}

-- `cleaned` and `stop_called` are the flags of the two `sync.Once` values.
pub record Execution : Type 0 where
  pub run : ℕ
  pub scope_id : String
  pub cleaned : Bool
  pub stop_called : Bool

abbrev record_effect : Effect → World → World
record_effect e w = record w { effects = e ∷ w.effects }

-- `waitOrStop`: the process is stopped unless it exited within the grace period.
pub wait_or_stop : ℕ → Bool → World → World
wait_or_stop run exited w =
    let waited = record_effect (waits_for_exit run) w in
    if exited then waited else record_effect (stops run) waited

-- The body of `cleanup`; `exited` is what `WaitForExit` answers, if it is called.
pub clean_up : ℕ → Execution → Bool → Bool → World → World
unfolding wait_or_stop
clean_up capacity x wait_for_exit exited w =
    let freed = record w {
      runs = unregister x.scope_id x.run w.runs;
      pool = (release capacity w.pool).0;
    } in
    if wait_for_exit then wait_or_stop x.run exited freed else freed

pub clean_up_once : ℕ → Bool → Bool → Execution × World → Execution × World
unfolding clean_up
clean_up_once capacity wait_for_exit exited (x, w) =
    if x.cleaned
    then (x, w)
    else (record x { cleaned = true }, clean_up capacity x wait_for_exit exited w)

-- `MarkInterrupted` on the handle of this execution.
mark_interrupted : Execution → World → World
mark_interrupted x w =
    let runs = w.runs in record w { runs = record runs { interrupted = x.run ∷ runs.interrupted } }

-- The body of `Stop`: an error of the agent's `Stop` ends it before the clean-up.
stop_body : ℕ → Bool → Execution × World → Execution × World
unfolding mark_interrupted
stop_body capacity stop_fails (x, w) =
    let called = record x { stop_called = true } in
    let stopped = record_effect (stops x.run) (mark_interrupted x w) in
    if stop_fails
    then (called, stopped)
    else clean_up_once capacity false false (called, record_effect (waits_for_exit x.run) stopped)

-- The end of the event stream: a run that was not interrupted is waited for.
fanout_done : ℕ → Bool → Execution × World → Execution × World
fanout_done capacity exited (x, w) =
    clean_up_once capacity (not (any (λ r. nat_eq r x.run) w.runs.interrupted)) exited (x, w)

pub data Event : Type 0 where
  stop : (capacity : ℕ) (stop_fails : Bool) → Event
  stream_ends : (capacity : ℕ) (exited : Bool) → Event

pub step : Event → Execution × World → Execution × World
unfolding stop_body fanout_done
step (stop capacity stop_fails) (x, w) =
    if x.stop_called then (x, w) else stop_body capacity stop_fails (x, w)
step (stream_ends capacity exited) (x, w) = fanout_done capacity exited (x, w)

pub steps : List Event → Execution × World → Execution × World
steps [] s = s
steps (e ∷ es) s = steps es (step e s)
