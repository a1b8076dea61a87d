-- ===== src/Presenter/Markdown/Text.antt =====
-- internal/app/cardrender/render.go and internal/app/impresenter/presenter.go: the text of a
-- message.
use Prim.Native.String
use lark_bridge_agent_sdk.Base.{ℕ, String, Option, none, some, List, [], ◌∷◌, ◌++◌, if◌then◌else◌}
use lark_bridge_agent_sdk.Base.Text.{is_empty, trim_space}
use lark_bridge_agent_sdk.CardState.{
  ToolEntry, Block, RunState, RunStatus, queued, running, cancelled, timed_out, failed,
  FooterStatus, no_footer, thinking_footer, tool_footer, streaming_footer,
}
use lark_bridge_agent_sdk.CardState.Blocks.{is_text}
use lark_bridge_agent_sdk.Presenter.{Input}
use lark_bridge_agent_sdk.Presenter.Content.{render_run_state}

abbrev pub footer_line : FooterStatus → List String
footer_line no_footer = []
footer_line thinking_footer = "_🧠 正在思考…_" ∷ []
footer_line tool_footer = "_🧰 正在调用工具…_" ∷ []
footer_line streaming_footer = "_✍\u{fe0f} 正在输出…_" ∷ []

abbrev pub tool_part : (ToolEntry → String) → Option ToolEntry → List String
tool_part tool_line none = []
tool_part tool_line (some t) = String.◌++◌ "> " (tool_line t) ∷ []

unfoldable pub block_part : (ToolEntry → String) → Block → List String
block_part tool_line b =
    let content = trim_space b.content in
    if is_text b.kind
    then (if is_empty content then [] else content ∷ [])
    else tool_part tool_line b.tool

unfoldable pub block_parts : (ToolEntry → String) → List Block → List String
unfolding block_part
block_parts tool_line [] = []
block_parts tool_line (b ∷ bs) = block_part tool_line b ++ block_parts tool_line bs

unfoldable pub status_part : (ℕ → String) → RunState → RunStatus → List String
status_part timeout_line s cancelled = "_⏹ 已被中断_" ∷ []
status_part timeout_line s timed_out = timeout_line s.timeout_minutes ∷ []
status_part timeout_line s failed =
    if is_empty s.error then [] else String.◌++◌ "⚠\u{fe0f} agent 失败:" s.error ∷ []
status_part timeout_line s queued = footer_line s.footer
status_part timeout_line s running = footer_line s.footer
status_part timeout_line s _ = []

-- `strings.Join` with an empty line between two parts.
unfoldable pub join_parts : List String → String
join_parts [] = ""
join_parts (p ∷ []) = p
join_parts (p ∷ q ∷ ps) = String.◌++◌ p (String.◌++◌ "\n\n" (join_parts (q ∷ ps)))

-- The content of `RenderText`.
unfoldable pub render_text : Input → RunState → String
unfolding block_parts status_part join_parts
render_text input s =
    join_parts (block_parts input.tool_line s.blocks ++ status_part input.timeout_line s s.status)

unfoldable pub render_run_markdown : Input → RunState → String
unfolding render_text
render_run_markdown input s = render_text input (render_run_state input s)

unfoldable pub render_settled_run_markdown : Input → RunState → String
unfolding render_text
render_settled_run_markdown input s =
    render_text input (record (render_run_state input s) { footer = no_footer })
