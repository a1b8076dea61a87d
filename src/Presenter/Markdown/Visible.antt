-- ===== src/Presenter/Markdown/Visible.antt =====
-- internal/app/impresenter/markdown_rollover.go: the states that the messages of a run were made of,
-- and their text. A message is said to show the text of that state; how it renders it is left aside.
use lark_bridge_agent_sdk.Base.{String, ◌≡◌, sym, ap, ◌∙◌, true, false, List, [], ◌∷◌, Result, ok}
use lark_bridge_agent_sdk.Base.Text.{is_empty}
use lark_bridge_agent_sdk.CardState.{RunState}
use lark_bridge_agent_sdk.CardState.Blocks.{append_text}
use lark_bridge_agent_sdk.CardState.Transcript.{text_of}
use lark_bridge_agent_sdk.Presenter.Delta.{blocks_delta}
use lark_bridge_agent_sdk.Presenter.Shown.{IsShown, IsShown-text_of}
use lark_bridge_agent_sdk.Presenter.Markdown.{
  MarkdownStream, Sent, posted, patched, settled_before, Done,
}

-- The states of the messages of a run, the newest first, after one more that the channel took.
unfoldable pub show : Sent → List RunState → List RunState
show (posted s body) ms = s ∷ ms
show (patched id s body) [] = []
show (patched id s body) (m ∷ ms) = s ∷ ms
show (settled_before id s body) (m ∷ n ∷ ms) = m ∷ s ∷ ms
show (settled_before id s body) ms = ms

unfoldable pub all_shown : List Sent → List RunState → List RunState
unfolding show
all_shown [] ms = ms
all_shown (a ∷ more) ms = all_shown more (show a ms)

unfoldable pub chat_text : List RunState → String
chat_text [] = ""
chat_text (m ∷ ms) = append_text (chat_text ms) (text_of m.blocks)

-- The messages that belong to a stream: none, or the newest, which shows what the published state
-- has beyond the base, and older ones, which show the text of the base.
pub data Follows : MarkdownStream → List RunState → Type 0 where
  unopened :
      (s : MarkdownStream)
      → is_empty s.message_id ≡ true
      → s.segment_base.blocks ≡ []
      → s.published.blocks ≡ []
      → Follows s []
  opened :
      (s : MarkdownStream) (m : RunState) (old : List RunState)
      → is_empty s.message_id ≡ false
      → text_of m.blocks ≡ text_of (blocks_delta s.segment_base.blocks s.published.blocks)
      → chat_text old ≡ text_of s.segment_base.blocks
      → IsShown s.segment_base.blocks s.published.blocks
      → Follows s (m ∷ old)

-- A later state of the run.
abbrev pub Ahead : MarkdownStream → RunState → Type 0
Ahead s state = IsShown s.segment_base.blocks state.blocks × IsShown s.published.blocks state.blocks

pub chat_text-Follows :
    (s : MarkdownStream) (ms : List RunState)
    → Follows s ms
    → chat_text ms ≡ text_of s.published.blocks
unfolding chat_text
chat_text-Follows _ _ (Follows.unopened s h hb hp) = ap text_of (sym hp)
chat_text-Follows _ _ (Follows.opened s m old h hm ho shown) =
    ap (append_text (chat_text old)) hm
    ∙ ap (λ t. append_text t (text_of (blocks_delta s.segment_base.blocks s.published.blocks))) ho
    ∙ IsShown-text_of s.segment_base.blocks s.published.blocks shown

-- What a method of the stream keeps.
abbrev pub Kept : RunState → List RunState → Done → Type 0
Kept state ms r = Follows r.stream (all_shown r.sent ms) × Ahead r.stream state

-- The identifiers of new messages are not empty.
abbrev pub IsNamed : Result String String → Type 0
IsNamed answer = (id : String) → answer ≡ ok id → is_empty id ≡ false
