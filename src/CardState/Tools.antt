-- ===== src/CardState/Tools.antt =====
-- internal/app/cardrender/state.go: a tool call and its result.
use lark_bridge_agent_sdk.Base.{
  ◌≡◌, eq_iff, ap, ◌∙◌, String, Option, none, some, Bool, true, false, List, [], ◌∷◌, arith, ◌==◌,
  ◌||◌, ◌&&◌, if◌then◌else◌,
}
use lark_bridge_agent_sdk.CardState.{
  EventType, tool_result, Event, ToolEntry, ToolStatus, tool_running, BlockKind, block_text,
  block_tool, Block, RunState,
}
use lark_bridge_agent_sdk.CardState.Blocks.{
  value, finish_tool, finish_option, finish_block, finish_tools,
}
use lark_bridge_agent_sdk.CardState.Reduce.{reduce, apply, apply_metadata}
use lark_bridge_agent_sdk.CardState.Streaming.{stamp-blocks}

abbrev is_running_tool : ToolStatus → Bool
is_running_tool tool_running = true
is_running_tool _ = false

-- The block is a running call of the tool with this id.
abbrev pub waits_for : String → BlockKind → Option ToolEntry → Bool
waits_for id block_text tool = false
waits_for id block_tool none = false
waits_for id block_tool (some tool) = tool.id == id && is_running_tool tool.status

abbrev pub waiting : String → List Block → Bool
waiting id [] = false
waiting id (b ∷ bs) = waits_for id b.kind b.tool || waiting id bs

waits_for-finish :
    (e : Event) (j : String) (kind : BlockKind) (tool : Option ToolEntry)
    → waits_for j kind (finish_option e kind tool)
      ≡ (if value e.id == j then false else waits_for j kind tool)
unfolding finish_option finish_tool
waits_for-finish e j block_text tool = ground arith
waits_for-finish e j block_tool none = ground arith
waits_for-finish e j block_tool (some tool) =
    ground (arith, eq_iff tool.id (value e.id), eq_iff tool.id j, eq_iff (value e.id) j)

waiting-finish_tools :
    (e : Event) (j : String) (bs : List Block)
    → waiting j (finish_tools e bs) ≡ (if value e.id == j then false else waiting j bs)
unfolding finish_tools finish_block
waiting-finish_tools e j [] = ground arith
waiting-finish_tools e j (b ∷ bs) =
    ground (arith, waits_for-finish e j b.kind b.tool, waiting-finish_tools e j bs)

apply-waiting :
    (t : EventType) (e : Event) (s : RunState) (j : String)
    → t ≡ tool_result
    → waiting j (apply t e s).blocks ≡ (if value e.id == j then false else waiting j s.blocks)
unfolding apply
apply-waiting tool_result e s j h = waiting-finish_tools e j s.blocks
apply-waiting _ e s j h = absurd (cc h)

-- A tool result ends every running call with its id, and leaves the calls with other ids waiting or
-- not, as they were.
pub reduce-waiting :
    (s : RunState) (e : Event) (j : String)
    → e.type ≡ tool_result
    → waiting j (reduce s e).blocks ≡ (if value e.id == j then false else waiting j s.blocks)
unfolding reduce apply_metadata
reduce-waiting s e j h =
    apply-waiting e.type e _ j h
    ∙ ap (λ bs. if value e.id == j then false else waiting j bs) (stamp-blocks e.at _)
