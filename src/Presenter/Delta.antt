-- ===== src/Presenter/Delta.antt =====
-- internal/app/impresenter/card_rollover.go: what a state has beyond a state that was shown.
use lark_bridge_agent_sdk.Base.{
  String, Bool, true, false, ◌&&◌, Option, none, some, List, [], ◌∷◌, ◌++◌, ◌==◌, if◌then◌else◌,
}
use lark_bridge_agent_sdk.Base.Json.{
  Json, null, bool, num, str, arr, obj, Items, no_items, item, Fields, no_fields, field,
}
use lark_bridge_agent_sdk.Base.Text.{strip_prefix, is_empty}
use lark_bridge_agent_sdk.CardState.{
  ToolStatus, tool_running, tool_done, tool_error, ToolEntry, Block, RunState,
}
use lark_bridge_agent_sdk.CardState.Blocks.{is_text, phase_eq}

unfoldable pub string_delta : String → String → String
unfolding strip_prefix
string_delta previous current = elim (strip_prefix previous current) [
  | some rest ↦ rest
  | none ↦ if current == previous then "" else current
]

abbrev pub same_bool : Bool → Bool → Bool
same_bool true b = b
same_bool false true = false
same_bool false false = true

-- `reflect.DeepEqual`; the fields of an object stand in the order of their keys.
unfoldable mutual
  pub same_json : Json → Json → Bool
  same_json null null = true
  same_json (bool a) (bool b) = same_bool a b
  same_json (num a) (num b) = a == b
  same_json (str a) (str b) = a == b
  same_json (arr a) (arr b) = same_items a b
  same_json (obj a) (obj b) = same_fields a b
  same_json _ _ = false

  pub same_items : Items → Items → Bool
  same_items no_items no_items = true
  same_items (item a more) (item b rest) = same_json a b && same_items more rest
  same_items _ _ = false

  pub same_fields : Fields → Fields → Bool
  same_fields no_fields no_fields = true
  same_fields (field k a more) (field l b rest) = k == l && same_json a b && same_fields more rest
  same_fields _ _ = false

abbrev pub same_status : ToolStatus → ToolStatus → Bool
same_status tool_running tool_running = true
same_status tool_done tool_done = true
same_status tool_error tool_error = true
same_status _ _ = false

unfoldable pub same_tool : Option ToolEntry → Option ToolEntry → Bool
same_tool none none = true
same_tool (some a) (some b) =
    a.id == b.id
    && a.name == b.name
    && same_json a.input b.input
    && same_status a.status b.status
    && a.output == b.output
same_tool _ _ = false

unfoldable pub same_block : Block → Block → Bool
unfolding same_tool
same_block a b =
    same_bool (is_text a.kind) (is_text b.kind)
    && phase_eq a.phase b.phase
    && a.id == b.id
    && a.content == b.content
    && same_bool a.streaming b.streaming
    && same_tool a.tool b.tool

unfoldable pub block_delta : Block → Block → List Block
block_delta previous b =
    if is_text b.kind && is_text previous.kind
    then (let content = string_delta previous.content b.content in
        if is_empty content then [] else record b { content = content } ∷ [])
    else if same_block previous b
    then []
    else b ∷ []

unfoldable pub blocks_delta : List Block → List Block → List Block
unfolding block_delta
blocks_delta published [] = []
blocks_delta [] (b ∷ bs) = b ∷ blocks_delta [] bs
blocks_delta (p ∷ published) (b ∷ bs) = block_delta p b ++ blocks_delta published bs

unfoldable pub card_state_delta : RunState → RunState → RunState
unfolding blocks_delta
card_state_delta published current = record current {
  blocks = blocks_delta published.blocks current.blocks;
  reasoning = record current.reasoning {
    content = string_delta published.reasoning.content current.reasoning.content;
  };
}
