-- ===== src/CardState/Reduce.antt =====
-- internal/app/cardrender/state.go: the reducer. A state here is a value, so the copies that
-- `cloneState` makes of the blocks and the cost are the state itself.
use lark_bridge_agent_sdk.Base.{
  ℕ, Bool, true, false, ◌||◌, Option, none, some, List, [], ◌∷◌, ◌++◌, ◌==◌, or_else, if◌then◌else◌,
}
use lark_bridge_agent_sdk.Base.Json.{Json}
use lark_bridge_agent_sdk.CardState.Blocks.{
  value, append_text, close_streaming, add_text, tool_block, finish_tools,
}
use lark_bridge_agent_sdk.CardState.{
  RunStatus, queued, running, succeeded, failed, cancelled, timed_out, other_status, FooterStatus,
  no_footer, thinking_footer, tool_footer, streaming_footer, EventType, system, text, user_action,
  thinking, tool_use, tool_result, usage, done, error, other_event, TerminationReason, normal,
  interrupted, timeout, failure, other_reason, Usage, Event, Reasoning, RunState, RunStateInput,
}

abbrev is_empty_status : RunStatus → Bool
is_empty_status (other_status s) = s == ""
is_empty_status _ = false

abbrev pub is_queued : RunStatus → Bool
is_queued queued = true
is_queued _ = false

abbrev pub is_running : RunStatus → Bool
is_running running = true
is_running _ = false

unfoldable pub new_run_state : RunStateInput → RunState
new_run_state input = record {
  run_id = input.run_id;
  scope = input.scope;
  cwd = input.cwd;
  session_id = input.session_id;
  thread_id = input.thread_id;
  model = input.model;
  status = if is_empty_status input.status then queued else input.status;
  blocks = [];
  reasoning = record { content = ""; active = false };
  footer = no_footer;
  error = "";
  usage = record {
    input_tokens = 0;
    output_tokens = 0;
    cached_input_tokens = 0;
    reasoning_output_tokens = 0;
    cost_usd = none;
  };
  last_event = none;
  started_at = input.started_at;
  updated_at = input.updated_at;
  elapsed = input.elapsed;
  timeout_minutes = 0;
}

unfoldable pub apply_metadata : RunState → Event → RunState
apply_metadata s e = record s {
  run_id = or_else e.run_id s.run_id;
  scope = or_else e.scope s.scope;
  cwd = or_else e.cwd s.cwd;
  session_id = or_else e.session_id s.session_id;
  thread_id = or_else e.thread_id s.thread_id;
  model = or_else e.model s.model;
}

-- A new cost replaces the old one, and no cost leaves it.
abbrev or_keep : Option Json → Option Json → Option Json
or_keep none old = old
or_keep (some v) old = some v

unfoldable pub apply_usage : RunState → Event → RunState
apply_usage s e = record s {
  usage = record {
    input_tokens = or_else e.input_tokens u.input_tokens;
    output_tokens = or_else e.output_tokens u.output_tokens;
    cached_input_tokens = or_else e.cached_input_tokens u.cached_input_tokens;
    reasoning_output_tokens = or_else e.reasoning_output_tokens u.reasoning_output_tokens;
    cost_usd = or_keep e.cost_usd u.cost_usd;
  };
}
  where
    u : Usage
    u = s.usage

abbrev or_thinking : FooterStatus → FooterStatus
or_thinking no_footer = thinking_footer
or_thinking f = f

abbrev or_running : RunStatus → RunStatus
or_running queued = running
or_running (other_status s) = if s == "" then running else other_status s
or_running status = status

unfoldable pub ensure_running : RunState → RunState
ensure_running s = record s { status = or_running s.status; footer = or_thinking s.footer }

unfoldable pub status_from_termination : TerminationReason → Bool → RunStatus
status_from_termination interrupted from_error = cancelled
status_from_termination timeout from_error = timed_out
status_from_termination normal from_error = if from_error then failed else succeeded
status_from_termination (other_reason s) from_error =
    if s == "" then (if from_error then failed else succeeded) else failed
status_from_termination failure from_error = failed

abbrev pub set_active : Bool → Reasoning → Reasoning
set_active b r = record r { active = b }

-- The assignments that end a run: no block streams, no reasoning is active, the footer is empty.
abbrev pub settle : RunStatus → RunState → RunState
settle status s = record s {
  blocks = close_streaming s.blocks;
  reasoning = set_active false s.reasoning;
  footer = no_footer;
  status = status;
}

abbrev pub is_failed : RunStatus → Bool
is_failed failed = true
is_failed _ = false

abbrev set_error : Event → RunState → RunState
set_error e s = if is_failed s.status then record s { error = value e.message } else s

abbrev start_thinking : RunState → RunState
start_thinking s =
    if is_queued s.status then record s { status = running; footer = thinking_footer } else s

-- The `switch` of `Reduce`; an event of another type changes nothing more.
unfoldable pub apply : EventType → Event → RunState → RunState
unfolding ensure_running apply_usage
apply text e s =
    let r = ensure_running s in
    record r {
      blocks = add_text e s.blocks;
      reasoning = set_active false s.reasoning;
      footer = streaming_footer;
    }
apply user_action e s =
    let r = ensure_running s in
    record r { blocks = close_streaming s.blocks; reasoning = set_active false s.reasoning }
apply thinking e s =
    let r = ensure_running s in
    record r {
      reasoning = record {
        content = append_text r.reasoning.content (value e.delta);
        active = true;
      };
      footer = thinking_footer;
    }
apply tool_use e s =
    let r = ensure_running s in
    record r {
      blocks = close_streaming s.blocks ++ tool_block e ∷ [];
      reasoning = set_active false s.reasoning;
      footer = tool_footer;
    }
apply tool_result e s = record s { blocks = finish_tools e s.blocks }
apply usage e s = apply_usage (ensure_running s) e
apply error e s = set_error e (settle (status_from_termination e.termination_reason true) s)
apply done e s = settle (status_from_termination e.termination_reason false) s
apply system e s = start_thinking s
apply (other_event name) e s = s

unfoldable pub stamp : Option ℕ → RunState → RunState
stamp none s = s
stamp (some at) s = record s { started_at = some (or_else s.started_at at); updated_at = some at }

unfoldable pub reduce : RunState → Event → RunState
reduce s e = apply e.type e (stamp e.at (record (apply_metadata s e) { last_event = some e.type }))

unfoldable pub reduce_all : RunState → List Event → RunState
reduce_all s [] = s
reduce_all s (e ∷ es) = reduce_all (reduce s e) es

unfoldable pub mark_cancelled : RunState → RunState
mark_cancelled = settle cancelled

unfoldable pub mark_timeout : RunState → ℕ → RunState
mark_timeout s minutes = let t = settle timed_out s in record t { timeout_minutes = minutes }

unfoldable pub finalize_if_running : RunState → RunState
finalize_if_running s = if is_running s.status || is_queued s.status then settle succeeded s else s
