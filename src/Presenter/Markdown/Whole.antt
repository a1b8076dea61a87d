-- ===== src/Presenter/Markdown/Whole.antt =====
-- internal/app/impresenter/markdown_rollover.go: a whole run as Markdown messages.
use lark_bridge_agent_sdk.Base.{◌≡◌, refl, sym, subst, List, [], ◌∷◌, ◌++◌}
use lark_bridge_agent_sdk.CardState.{RunState, Event}
use lark_bridge_agent_sdk.CardState.Reduce.{reduce}
use lark_bridge_agent_sdk.CardState.Transcript.{text_of}
use lark_bridge_agent_sdk.Presenter.{Input}
use lark_bridge_agent_sdk.Presenter.Grows.{IsShown-reduce}
use lark_bridge_agent_sdk.Presenter.Shown.{IsShown}
use lark_bridge_agent_sdk.Presenter.Markdown.{
  MarkdownStream, new_markdown_stream, Answers, Sent, flush,
}
use lark_bridge_agent_sdk.Presenter.Markdown.Visible.{
  all_shown, chat_text, Follows, Ahead, IsNamed, chat_text-Follows,
}
use lark_bridge_agent_sdk.Presenter.Markdown.Keeps.{flush-Kept}

-- An event of the run, or a flush with the answers of the channel.
pub data Step : Type 0 where
  event_step : Event → Step
  flush_step : Answers → Step

-- What a run sends, and where the state and the stream end.
unfoldable pub run_markdown :
    Input → List Step → RunState → MarkdownStream → List Sent × (RunState × MarkdownStream)
unfolding flush
run_markdown input [] state s = ([], (state, s))
run_markdown input (event_step e ∷ steps) state s = run_markdown input steps (reduce state e) s
run_markdown input (flush_step answers ∷ steps) state s =
    let r = flush input answers state s in
    let (sent, last) = run_markdown input steps state r.stream in (r.sent ++ sent, last)

-- The channel names every message.
unfoldable pub AllNamed : List Step → Type 0
AllNamed [] = Unit
AllNamed (event_step e ∷ steps) = AllNamed steps
AllNamed (flush_step answers ∷ steps) = IsNamed answers.send × AllNamed steps

pub all_shown-append :
    (sent more : List Sent) (ms : List RunState)
    → all_shown (sent ++ more) ms ≡ all_shown more (all_shown sent ms)
unfolding all_shown
all_shown-append [] more ms = refl
all_shown-append (a ∷ sent) more ms = all_shown-append sent more _

pub run_markdown-Kept :
    (input : Input) (steps : List Step) (state : RunState) (s : MarkdownStream) (ms : List RunState)
    → AllNamed steps
    → Follows s ms
    → Ahead s state
    → Follows
        (run_markdown input steps state s).1.1
        (all_shown (run_markdown input steps state s).0 ms)
      × Ahead (run_markdown input steps state s).1.1 (run_markdown input steps state s).1.0
unfolding run_markdown AllNamed all_shown
run_markdown-Kept input [] state s ms named f a = (f, a)
run_markdown-Kept input (event_step e ∷ steps) state s ms named f a =
    run_markdown-Kept input steps (reduce state e) s ms named f (
      IsShown-reduce s.segment_base.blocks state e (a.0),
      IsShown-reduce s.published.blocks state e (a.1),
    )
run_markdown-Kept input (flush_step answers ∷ steps) state s ms (here, named) f a =
    let r = flush input answers state s in
    let (f', a') = flush-Kept input answers state s ms here f a in
    let rest = run_markdown-Kept input steps state r.stream _ named f' a' in
    (subst (Follows _) (sym (all_shown-append r.sent _ ms)) (rest.0), rest.1)

-- The messages of a run show together the text of the state that was published last: each text
-- once, in order, and none twice, whatever the answers of the channel are, as long as it names the
-- messages.
pub messages_show_run :
    (input : Input) (steps : List Step) (state : RunState)
    → AllNamed steps
    → chat_text (all_shown (run_markdown input steps state new_markdown_stream).0 [])
      ≡ text_of (run_markdown input steps state new_markdown_stream).1.1.published.blocks
messages_show_run input steps state named = chat_text-Follows _ _ (
    (run_markdown-Kept input steps state new_markdown_stream [] named
      (Follows.unopened new_markdown_stream refl refl refl)
      (IsShown.nothing state.blocks, IsShown.nothing state.blocks)).0)
