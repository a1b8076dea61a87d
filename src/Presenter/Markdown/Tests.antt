-- ===== src/Presenter/Markdown/Tests.antt =====
-- internal/app/impresenter/markdown_rollover.go: a run whose messages are updated once each.
use lark_bridge_agent_sdk.Base.{
  String, ◌≡◌, refl, true, false, none, some, List, [], ◌∷◌, arith, ok, err,
}
use lark_bridge_agent_sdk.Base.Text.{is_blank, is_empty, is_space, trim_left, trim_right}
use lark_bridge_agent_sdk.Samples.{says, event}
use lark_bridge_agent_sdk.CardState.{RunState, done}
use lark_bridge_agent_sdk.CardState.Blocks.{add_text}
use lark_bridge_agent_sdk.CardState.Reduce.{reduce, apply, stamp, apply_metadata}
use lark_bridge_agent_sdk.Presenter.Delta.{card_state_delta, string_delta}
use lark_bridge_agent_sdk.Presenter.Markdown.Text.{render_run_markdown, render_settled_run_markdown}
use lark_bridge_agent_sdk.CardState.Transcript.{text_of}
use lark_bridge_agent_sdk.Presenter.{Input, reply_markdown}
use lark_bridge_agent_sdk.Presenter.Markdown.{
  MarkdownStream, zero_state, new_markdown_stream, Answers, Sent,
}
use lark_bridge_agent_sdk.Presenter.Markdown.Visible.{all_shown, IsNamed}
use lark_bridge_agent_sdk.Presenter.Markdown.Whole.{Step, event_step, flush_step, run_markdown}

abbrev one_update : Input
one_update = record {
  reply_mode = reply_markdown;
  stream_throttle = 0;
  max_message_updates = 1;
  hide_tool_calls = false;
  card_rollover = record { max_bytes = 0; max_updates = 0 };
  final_answer_only = false;
  size = λ s. none;
  tool_line = λ t. t.name;
  timeout_line = λ n. "timeout";
}

abbrev taking : String → Answers
taking id = record { send = ok id; can_update = true; update_error = none; settles = λ n. true }

abbrev refusing : Answers
refusing = record {
  send = err "refused";
  can_update = true;
  update_error = some "refused";
  settles = λ n. false;
}

named : (id : String) → is_empty id ≡ false → IsNamed (ok id)
named id h other e = ground (arith, h, e)

abbrev steps : List Step
steps =
    event_step (says "one")
    ∷ flush_step (taking "om_1")
    ∷ event_step (says "two")
    ∷ flush_step (taking "om_2")
    ∷ event_step (says "three")
    ∷ flush_step refusing
    ∷ flush_step (taking "om_3")
    ∷ event_step (says "four")
    ∷ event_step (event done)
    ∷ []

abbrev ran : List Sent × (RunState × MarkdownStream)
ran = run_markdown one_update steps zero_state new_markdown_stream

unfoldable texts_of : List RunState → List String
texts_of [] = []
texts_of (m ∷ ms) = text_of m.blocks ∷ texts_of ms

two_messages : texts_of (all_shown ran.0 []) ≡ "three" ∷ "onetwo" ∷ []
unfolding texts_of all_shown run_markdown is_blank render_run_markdown reduce apply add_text stamp
    apply_metadata trim_right trim_left is_space card_state_delta render_settled_run_markdown
    string_delta
two_messages = refl
