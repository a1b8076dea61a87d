-- ===== src/Presenter/Same.antt =====
-- internal/app/impresenter/card_rollover.go: a value is `reflect.DeepEqual` to itself.
use lark_bridge_agent_sdk.Base.{◌≡◌, refl, Bool, true, false, Option, none, some, arith, eq_refl}
use lark_bridge_agent_sdk.Base.Json.{
  Json, null, bool, num, str, arr, obj, Items, no_items, item, Fields, no_fields, field,
}
use lark_bridge_agent_sdk.CardState.{
  ToolStatus, tool_running, tool_done, tool_error, TextPhase, commentary, final_answer, other_phase,
  ToolEntry, Block,
}
use lark_bridge_agent_sdk.CardState.Blocks.{is_text, phase_eq}
use lark_bridge_agent_sdk.Presenter.Delta.{
  same_bool, same_json, same_items, same_fields, same_status, same_tool, same_block,
}

same_bool_refl : (b : Bool) → same_bool b b ≡ true
same_bool_refl true = refl
same_bool_refl false = refl

phase_eq_refl : (p : TextPhase) → phase_eq p p ≡ true
phase_eq_refl commentary = refl
phase_eq_refl final_answer = refl
phase_eq_refl (other_phase s) = eq_refl s

same_status_refl : (s : ToolStatus) → same_status s s ≡ true
same_status_refl tool_running = refl
same_status_refl tool_done = refl
same_status_refl tool_error = refl

mutual
  unfolding same_json same_items same_fields

  same_json_refl : (v : Json) → same_json v v ≡ true
  same_json_refl null = refl
  same_json_refl (bool b) = same_bool_refl b
  same_json_refl (num n) = eq_refl n
  same_json_refl (str s) = eq_refl s
  same_json_refl (arr items) = same_items_refl items
  same_json_refl (obj fields) = same_fields_refl fields

  same_items_refl : (items : Items) → same_items items items ≡ true
  same_items_refl no_items = refl
  same_items_refl (item v items) = ground (arith, same_json_refl v, same_items_refl items)

  same_fields_refl : (fields : Fields) → same_fields fields fields ≡ true
  same_fields_refl no_fields = refl
  same_fields_refl (field k v fields) =
      ground (arith, eq_refl k, same_json_refl v, same_fields_refl fields)

same_tool_refl : (t : Option ToolEntry) → same_tool t t ≡ true
unfolding same_tool
same_tool_refl none = refl
same_tool_refl (some t) = ground (
  arith,
  eq_refl t.id,
  eq_refl t.name,
  same_json_refl t.input,
  same_status_refl t.status,
  eq_refl t.output,
)

pub same_block_refl : (b : Block) → same_block b b ≡ true
unfolding same_block
same_block_refl b = ground (
  arith,
  same_bool_refl (is_text b.kind),
  phase_eq_refl b.phase,
  eq_refl b.id,
  eq_refl b.content,
  same_bool_refl b.streaming,
  same_tool_refl b.tool,
)
