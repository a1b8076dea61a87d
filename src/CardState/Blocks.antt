-- ===== src/CardState/Blocks.antt =====
-- internal/app/cardrender/state.go: how an event changes the list of blocks.
use Prim.Native.String
use lark_bridge_agent_sdk.Base.{
  String, Bool, true, false, ◌&&◌, Option, none, some, List, [], ◌∷◌, ◌++◌, ◌==◌, or_else,
  if◌then◌else◌,
}
use lark_bridge_agent_sdk.Base.Text.{is_empty}
use lark_bridge_agent_sdk.CardState.{
  tool_running, tool_done, tool_error, TextPhase, commentary, final_answer, other_phase, Event,
  ToolEntry, BlockKind, block_text, block_tool, Block,
}

-- `value` and `boolValue`: a nil pointer reads as the zero value.
abbrev pub value : Option String → String
value v = or_else v ""

abbrev pub bool_value : Option Bool → Bool
bool_value v = or_else v false

abbrev pub append_text : String → String → String
append_text s t = String.◌++◌ s t

abbrev pub phase_eq : TextPhase → TextPhase → Bool
phase_eq commentary commentary = true
phase_eq final_answer final_answer = true
phase_eq (other_phase s) (other_phase t) = s == t
phase_eq _ _ = false

abbrev pub is_final_phase : TextPhase → Bool
is_final_phase final_answer = true
is_final_phase _ = false

abbrev pub is_no_phase : TextPhase → Bool
is_no_phase (other_phase s) = is_empty s
is_no_phase _ = false

abbrev pub is_text : BlockKind → Bool
is_text block_text = true
is_text block_tool = false

unfoldable pub close_block : Block → Block
close_block b = if is_text b.kind then record b { streaming = false } else b

unfoldable pub close_streaming : List Block → List Block
unfolding close_block
close_streaming [] = []
close_streaming (b ∷ bs) = close_block b ∷ close_streaming bs

-- Whether a delta goes to this block, and the block with it.
unfoldable pub accepts : Event → Block → Bool
accepts e b = is_text b.kind && b.streaming && phase_eq b.phase e.phase && b.id == value e.id

unfoldable pub with_delta : Event → Block → Block
with_delta e b = record b { content = append_text b.content (value e.delta) }

unfoldable pub text_block : Event → Block
text_block e = record {
  kind = block_text;
  phase = e.phase;
  id = value e.id;
  content = value e.delta;
  streaming = true;
  tool = none;
}

-- The last block takes the delta, or all are closed and a new one is opened.
unfoldable pub last_accepts : Event → List Block → Bool
unfolding accepts
last_accepts e [] = false
last_accepts e (b ∷ []) = accepts e b
last_accepts e (b ∷ c ∷ bs) = last_accepts e (c ∷ bs)

unfoldable pub extend_last : Event → List Block → List Block
unfolding with_delta
extend_last e [] = []
extend_last e (b ∷ []) = with_delta e b ∷ []
extend_last e (b ∷ c ∷ bs) = b ∷ extend_last e (c ∷ bs)

unfoldable pub add_text : Event → List Block → List Block
unfolding last_accepts extend_last close_streaming text_block
add_text e bs =
    if last_accepts e bs then extend_last e bs else close_streaming bs ++ text_block e ∷ []

unfoldable pub tool_block : Event → Block
tool_block e = record {
  kind = block_tool;
  phase = other_phase "";
  id = "";
  content = "";
  streaming = false;
  tool = some (record {
    id = value e.id;
    name = value e.name;
    input = e.input;
    status = tool_running;
    output = "";
  });
}

unfoldable pub finish_tool : Event → ToolEntry → ToolEntry
finish_tool e tool =
    if tool.id == value e.id
    then record tool {
      status = if bool_value e.is_error then tool_error else tool_done;
      output = value e.output;
    }
    else tool

unfoldable pub finish_option : Event → BlockKind → Option ToolEntry → Option ToolEntry
finish_option e block_text tool = tool
finish_option e block_tool none = none
finish_option e block_tool (some tool) = some (finish_tool e tool)

unfoldable pub finish_block : Event → Block → Block
finish_block e b = record b { tool = finish_option e b.kind b.tool }

unfoldable pub finish_tools : Event → List Block → List Block
finish_tools e [] = []
finish_tools e (b ∷ bs) = finish_block e b ∷ finish_tools e bs
