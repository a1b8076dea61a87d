-- ===== src/Presenter/Present/Conclude.antt =====
-- internal/app/impresenter/presenter.go: the end of `Present` and `sendFinal`.
use lark_bridge_agent_sdk.Base.{
  ℕ, String, Bool, true, false, not, ◌&&◌, Option, none, some, List, [], ◌∷◌, ◌++◌, Result,
  if◌then◌else◌,
}
use lark_bridge_agent_sdk.Base.Text.{is_empty}
use lark_bridge_agent_sdk.CardState.{
  Block, block_text, RunState, RunStatus, succeeded, final_answer,
}
use lark_bridge_agent_sdk.CardState.Reduce.{mark_timeout, finalize_if_running}
use lark_bridge_agent_sdk.Presenter.{ReplyMode, reply_markdown, reply_card}
use lark_bridge_agent_sdk.Presenter.Content.{
  is_active, has_card_content, final_answer_only_state, progress_only_state, render_run_state,
  idle_timeout_minutes,
}
use lark_bridge_agent_sdk.Presenter.Delta.{card_state_delta}
use lark_bridge_agent_sdk.Presenter.Rollover.{
  Rolled, rolled, roll_failed, still_rolling, new_card_stream, prepare_final,
}
use lark_bridge_agent_sdk.Presenter.Split.{Outcome, send_split_final_cards, should_split_final_card}
use lark_bridge_agent_sdk.Presenter.Markdown.{
  new_markdown_stream, Done, settle_markdown_message, settled_by, patched, send_markdown,
  send_final,
}
use lark_bridge_agent_sdk.Presenter.Markdown as Messages
use lark_bridge_agent_sdk.Presenter.Actions.{ActionDelivery}
use lark_bridge_agent_sdk.Presenter.Present.{
  Setup, Presenting, separate_final, input_of, mode_of, StepAnswers, resume_progress,
}

-- The answers to what the end sends: `BeforeFinal`, the late `ResumeProgress`, the size of the whole
-- card, the split cards, the update of the card, and the messages with the fallback.
pub record EndAnswers : Type 0 where
  pub before_final : Option String
  pub late_resume : Bool
  pub step : StepAnswers
  pub plain_size : RunState → Option ℕ
  pub split : ℕ → Option String
  pub card_update : Option String
  pub again : Messages.Answers

-- How the run was delivered. A split that ran out of fuel, and roll-overs that are still rolling, stand
-- for a loop that has not returned, and `Present` with it. The error of `Present` joins these errors with those of the actions
-- that were not delivered.
pub data Delivery : Type 0 where
  hook_failed : String → Delivery
  only_actions : Delivery
  split_cards : Outcome → Delivery
  cards_failed : Rolled → Delivery
  card_updated : String → RunState → Option String → Delivery
  card_sent : RunState → Result String String → Delivery
  messages_sent : Done → Delivery

-- What `Present` returns, with its variables.
pub record Presented : Type 0 where
  pub state : RunState
  pub presenting : Presenting
  pub delivery : Delivery

-- A run that is still active is over now.
unfoldable pub settled_state : Setup → Presenting → RunState
settled_state setup p =
    if is_active p.state
    then (if p.idle_fired
        then mark_timeout p.state (idle_timeout_minutes setup.idle_timeout)
        else finalize_if_running p.state)
    else p.state

-- Before a final answer of its own, the progress is shown for the last time.
abbrev pub settled_progress : Setup → EndAnswers → Presenting → Presenting
settled_progress setup a p =
    let progress = progress_only_state p.state in
    let shown = card_state_delta p.markdown.segment_base progress in
    record p {
      messages =
          p.messages
          ++ settled_by (patched p.markdown.message_id shown) (
              settle_markdown_message (input_of setup p) a.step.markdown p.markdown.message_id
                shown);
      final_answer_only = true;
      defer_until_done = true;
      card = new_card_stream p.state;
      markdown = new_markdown_stream;
      settled_card =
          if a.step.card.can_update && not (is_empty p.card.message_id)
          then some (p.card.message_id, progress)
          else none;
    }

unfoldable pub separated : Setup → EndAnswers → Presenting → Presenting
unfolding settle_markdown_message
separated setup a p =
    if separate_final setup && not p.final_answer_only then settled_progress setup a p else p

abbrev is_succeeded : RunStatus → Bool
is_succeeded succeeded = true
is_succeeded _ = false

abbrev pub no_answer_block : Block
no_answer_block = record {
  kind = block_text;
  phase = final_answer;
  id = "";
  content = "本轮未返回最终回复。";
  streaming = false;
  tool = none;
}

-- A run that succeeded without a final answer, where one is wanted.
unfoldable pub lacks_answer : Presenting → Bool
lacks_answer p =
    p.final_answer_only
    && is_succeeded p.state.status
    && not (has_card_content (final_answer_only_state p.state))

abbrev pub some_delivered : ActionDelivery → Bool
some_delivered d = some_of d.delivered
  where
    some_of : List String → Bool
    some_of [] = false
    some_of (key ∷ keys) = true

-- `sendFinal` with a card.
abbrev pub final_card : Setup → EndAnswers → RunState → Presenting → Delivery
final_card setup a s p =
    if not (is_empty p.card.message_id) && a.step.card.can_update
    then card_updated p.card.message_id s a.card_update
    else card_sent s a.step.card_send

abbrev pub after_prepare : Setup → EndAnswers → Rolled → Presenting → Presenting × Delivery
after_prepare setup a (rolled cs s) p =
    let prepared = record p { card = s; changes = p.changes ++ cs } in
    (prepared, final_card setup a (if is_empty s.message_id then p.state else s.state) prepared)
after_prepare setup a (roll_failed cs s e) p =
    (record p { card = s; changes = p.changes ++ cs }, cards_failed (roll_failed cs s e))
after_prepare setup a (still_rolling cs s) p =
    (record p { card = s; changes = p.changes ++ cs }, cards_failed (still_rolling cs s))

abbrev pub deliver_card : Setup → EndAnswers → Presenting → Presenting × Delivery
deliver_card setup a p =
    if not p.defer_until_done
    then after_prepare setup a
        (prepare_final (input_of setup p) a.step.card p.state a.step.fuel p.card) p
    else if should_split_final_card (input_of setup p) a.plain_size p.state
    then (
      p,
      split_cards (
          send_split_final_cards (input_of setup p) a.split a.step.fuel
            (render_run_state (input_of setup p) p.state)),
    )
    else (p, final_card setup a p.state p)

-- `sendFinal` with messages: a stream of messages is there in Markdown only.
abbrev pub final_messages : Setup → EndAnswers → ReplyMode → Presenting → Done
final_messages setup a reply_markdown p =
    if is_empty p.markdown.message_id
    then send_markdown (input_of setup p) a.step.markdown p.state p.markdown
    else send_final (input_of setup p) a.step.markdown a.again p.markdown_update_failed p.state
        p.markdown
final_messages setup a _ p = send_markdown (input_of setup p) a.step.markdown p.state p.markdown

abbrev pub deliver_in : ReplyMode → Setup → EndAnswers → Presenting → Presenting × Delivery
deliver_in reply_card setup a p = deliver_card setup a p
deliver_in mode setup a p =
    let r = final_messages setup a mode p in
    (record p { markdown = r.stream; messages = p.messages ++ r.sent }, messages_sent r)

unfoldable pub deliver : Setup → EndAnswers → Presenting → Presenting × Delivery
unfolding prepare_final send_split_final_cards send_markdown send_final
deliver setup a p = deliver_in (mode_of setup) setup a p

abbrev pub presented : Presenting × Delivery → Presented
presented (p, delivery) = record { state = p.state; presenting = p; delivery = delivery }

-- The delivery of a state that is over.
unfoldable pub finish_present : Setup → EndAnswers → Presenting → Presented
unfolding deliver lacks_answer
finish_present setup a p =
    let answered = record p {
      state = record p.state { blocks = p.state.blocks ++ no_answer_block ∷ [] };
    } in
    if lacks_answer p && p.action_pending && some_delivered p.actions
    then presented (p, only_actions)
    else presented (deliver setup a (if lacks_answer p then answered else p))

-- `BeforeFinal` fails, or the delivery follows.
unfoldable pub after_hook : Setup → EndAnswers → Option String → Presenting → Presenting → Presented
unfolding separated finish_present
after_hook setup a (some e) over resumed = presented (over, hook_failed e)
after_hook setup a none over resumed = finish_present setup a (separated setup a resumed)

-- What follows the loop.
unfoldable pub conclude : Setup → EndAnswers → Presenting → Presented
unfolding settled_state resume_progress after_hook
conclude setup a p =
    let over = record p { state = settled_state setup p } in
    let resumed =
      if a.late_resume && over.resume_open then resume_progress setup false a.step over else over in
    after_hook setup a a.before_final over resumed
