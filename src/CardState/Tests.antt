-- ===== src/CardState/Tests.antt =====
-- internal/app/cardrender/state.go: a run that writes, calls a tool, writes again and ends.
use lark_bridge_agent_sdk.Base.{◌≡◌, refl, none, some, List, [], ◌∷◌}
use lark_bridge_agent_sdk.CardState.{
  succeeded, tool_use, tool_result, done, other_status, Event, RunState, RunStateInput,
}
use lark_bridge_agent_sdk.Samples.{event, says}
use lark_bridge_agent_sdk.CardState.Reduce.{
  new_run_state, reduce, reduce_all, apply, stamp, apply_metadata, status_from_termination,
}
use lark_bridge_agent_sdk.CardState.Transcript.{text_of, text_of-reduce_all}

abbrev input : RunStateInput
input = record {
  run_id = "r1";
  scope = "chat";
  cwd = "/work";
  session_id = "";
  thread_id = "";
  model = "";
  status = other_status "";
  started_at = none;
  updated_at = none;
  elapsed = 0;
}

abbrev calls : Event
calls = record (event tool_use) { id = some "t1"; name = some "ls" }

abbrev answers : Event
answers = record (event tool_result) { id = some "t1"; output = some "a.go" }

abbrev events : List Event
events = says "one " ∷ says "two" ∷ calls ∷ answers ∷ says " three" ∷ event done ∷ []

run_ends : (reduce_all (new_run_state input) events).status ≡ succeeded
unfolding reduce_all reduce apply stamp apply_metadata new_run_state status_from_termination
run_ends = refl

text_of-reduce_all_example :
    text_of (reduce_all (new_run_state input) events).blocks ≡ "one two three"
unfolding new_run_state
text_of-reduce_all_example = text_of-reduce_all (new_run_state input) events

abbrev fresh : RunState
unfolding new_run_state
fresh = new_run_state input

abbrev calling : RunState
calling = reduce (new_run_state input) calls
