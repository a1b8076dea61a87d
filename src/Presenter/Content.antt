-- ===== src/Presenter/Content.antt =====
-- internal/app/impresenter/presenter.go: what of a state is shown, and the small decisions.
use lark_bridge_agent_sdk.Base.{
  ℕ, ◌+◌, ◌-◌, ◌/◌, ◌==◌, String, Bool, true, false, not, ◌&&◌, ◌||◌, List, [], ◌∷◌, ltb, nat_eq,
  if◌then◌else◌, is_some,
}
use lark_bridge_agent_sdk.Base.Text.{is_blank, is_empty}
use lark_bridge_agent_sdk.CardState.{
  RunStatus, queued, running, other_status, Event, EventType, tool_use, tool_result, Block,
  RunState, no_footer,
}
use lark_bridge_agent_sdk.CardState.Blocks.{is_text, value, is_final_phase, is_no_phase}
use lark_bridge_agent_sdk.Presenter.{ReplyMode, reply_markdown, other_mode, Input}

abbrev pub active_status : RunStatus → Bool
active_status queued = true
active_status running = true
active_status (other_status s) = is_empty s
active_status _ = false

abbrev pub is_active : RunState → Bool
is_active s = active_status s.status

abbrev pub block_has_content : Block → Bool
block_has_content b = if is_text b.kind then not (is_blank b.content) else is_some b.tool

unfoldable pub blocks_have_content : List Block → Bool
blocks_have_content [] = false
blocks_have_content (b ∷ bs) = block_has_content b || blocks_have_content bs

abbrev pub has_card_content : RunState → Bool
has_card_content s =
    not (is_blank s.reasoning.content) || not (is_blank s.error) || blocks_have_content s.blocks

abbrev pub is_final_block : Block → Bool
is_final_block b = is_text b.kind && is_final_phase b.phase

unfoldable pub keep : (Block → Bool) → List Block → List Block
keep p [] = []
keep p (b ∷ bs) = if p b then b ∷ keep p bs else keep p bs

unfoldable pub has_final : List Block → Bool
has_final [] = false
has_final (b ∷ bs) = is_final_block b || has_final bs

-- With a final answer only it is kept, and without one the text that has no phase.
abbrev pub shows_answer : Bool → Block → Bool
shows_answer final b =
    is_text b.kind && (is_final_phase b.phase || (not final && is_no_phase b.phase))

abbrev pub final_answer_only_state : RunState → RunState
final_answer_only_state s = record s {
  reasoning = record { content = ""; active = false };
  footer = no_footer;
  blocks = keep (shows_answer (has_final s.blocks)) s.blocks;
}

abbrev pub progress_only_state : RunState → RunState
progress_only_state s = record s { blocks = keep (λ b. not (is_final_block b)) s.blocks }

abbrev pub without_tools : RunState → RunState
without_tools s = record s { blocks = keep (λ b. is_text b.kind) s.blocks }

abbrev pub render_run_state : Input → RunState → RunState
render_run_state input s =
    let shown = if input.final_answer_only then final_answer_only_state s else s in
    if input.hide_tool_calls then without_tools shown else shown

abbrev pub normalize_reply_mode : ReplyMode → ReplyMode
normalize_reply_mode (other_mode s) = reply_markdown
normalize_reply_mode mode = mode

-- Durations are in nanoseconds; none is negative here, as zero and less are one case.
abbrev pub stream_throttle : ℕ → ℕ
stream_throttle delay = if nat_eq delay 0 then 400000000 else delay

abbrev pub max_message_updates : ℕ → ℕ
max_message_updates limit = if nat_eq limit 0 then 18 else limit

unfoldable pub idle_timeout_minutes : ℕ → ℕ
idle_timeout_minutes timeout =
    let minutes = (timeout + 60000000000 - 1) / 60000000000 in
    if nat_eq timeout 0 then 0 else if ltb minutes 1 then 1 else minutes

unfoldable pub remove_id : String → List String → List String
remove_id id [] = []
remove_id id (i ∷ is) = if i == id then remove_id id is else i ∷ remove_id id is

unfoldable pub add_id : String → List String → List String
unfolding remove_id
add_id id is = id ∷ remove_id id is

unfoldable pub track : EventType → String → List String → List String
track tool_use id is = add_id id is
track tool_result id is = remove_id id is
track _ id is = is

-- The set of tools that run is a list without repetition.
unfoldable pub track_tool_flight : List String → Event → List String
unfolding track
track_tool_flight in_flight e =
    let id = value e.id in if is_empty id then in_flight else track e.type id in_flight
