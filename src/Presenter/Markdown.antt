-- ===== src/Presenter/Markdown.antt =====
-- internal/app/impresenter/markdown_rollover.go: a run as Markdown messages. A message is updated
-- a few times only, so that a long run goes on in the next one.
pub mod Text
pub mod Visible
pub mod Keeps
pub mod Whole
pub mod Finish
pub mod Final
mod Tests
use Prim.Native.String
use lark_bridge_agent_sdk.Base.{
  ℕ, zero, suc, ◌+◌, String, Bool, true, false, not, ◌&&◌, ◌||◌, Option, none, some, List, [], ◌∷◌,
  ◌++◌, leb, ltb, Result, ok, err, if◌then◌else◌,
}
use lark_bridge_agent_sdk.Base.Text.{is_blank, is_empty}
use lark_bridge_agent_sdk.CardState.{RunState, other_status, no_footer}
use lark_bridge_agent_sdk.Presenter.{Input}
use lark_bridge_agent_sdk.Presenter.Content.{is_active, max_message_updates}
use lark_bridge_agent_sdk.Presenter.Delta.{card_state_delta}
use lark_bridge_agent_sdk.Presenter.Markdown.Text.{render_run_markdown, render_settled_run_markdown}

pub record MarkdownStream : Type 0 where
  pub message_id : String
  pub segment_base : RunState
  pub published : RunState
  pub successful_updates : ℕ

-- Go's zero value.
abbrev pub zero_state : RunState
zero_state = record {
  run_id = "";
  scope = "";
  cwd = "";
  session_id = "";
  thread_id = "";
  model = "";
  status = other_status "";
  blocks = [];
  reasoning = record { content = ""; active = false };
  footer = no_footer;
  error = "";
  usage = record {
    input_tokens = 0;
    output_tokens = 0;
    cached_input_tokens = 0;
    reasoning_output_tokens = 0;
    cost_usd = none;
  };
  last_event = none;
  started_at = none;
  updated_at = none;
  elapsed = 0;
  timeout_minutes = 0;
}

abbrev pub new_markdown_stream : MarkdownStream
new_markdown_stream = record {
  message_id = "";
  segment_base = zero_state;
  published = zero_state;
  successful_updates = 0;
}

-- The answers of the channel in one call: to a new message, whether messages can be updated, to an
-- update of the newest message, and whether it takes the update that settles a message.
pub record Answers : Type 0 where
  pub send : Result String String
  pub can_update : Bool
  pub update_error : Option String
  pub settles : ℕ → Bool

-- What the channel took, with the state that each body was made of: a new message, an update of
-- the newest one, and an update of the one before it.
pub data Sent : Type 0 where
  posted : RunState → String → Sent
  patched settled_before : String → RunState → String → Sent

-- What a method of the stream did: the messages, the stream, and its error.
pub record Done : Type 0 where
  pub sent : List Sent
  pub stream : MarkdownStream
  pub error : Option String

abbrev pub nothing_done : MarkdownStream → Done
nothing_done s = record { sent = []; stream = s; error = none }

abbrev pub failed_with : String → MarkdownStream → Done
failed_with e s = record { sent = []; stream = s; error = some e }

-- `start`.
abbrev pub started : RunState → String → Result String String → MarkdownStream → Done
started state body (err e) s = failed_with e s
started state body (ok id) s = record {
  sent = posted state body ∷ [];
  stream = record s { message_id = id; published = state; successful_updates = 0 };
  error = none;
}

unfoldable pub start : Input → Answers → RunState → MarkdownStream → Done
start input answers state s =
    let body = render_run_markdown input state in
    if is_blank body then nothing_done s else started state body answers.send s

abbrev pub no_content : String
no_content = "_（未返回内容）_"

abbrev pub updated : RunState → String → Option String → MarkdownStream → Done
updated state body (some e) s = failed_with e s
updated state body none s = record {
  sent = patched s.message_id (card_state_delta s.segment_base state) body ∷ [];
  stream = record s { published = state; successful_updates = suc s.successful_updates };
  error = none;
}

-- `update`.
unfoldable pub update : Input → Answers → RunState → MarkdownStream → Done
update input answers state s =
    let body = render_run_markdown input (card_state_delta s.segment_base state) in
    if not answers.can_update || is_empty s.message_id || (is_blank body && is_active state)
    then nothing_done s
    else updated state (if is_blank body then no_content else body) answers.update_error s

unfoldable pub has_unpublished_content : Input → RunState → MarkdownStream → Bool
has_unpublished_content input state s =
    not (is_blank (render_settled_run_markdown input (card_state_delta s.published state)))

-- Whether one of the attempts succeeds, from the one with the given number on.
unfoldable pub attempts : (ℕ → Bool) → ℕ → ℕ → Bool
attempts settles zero n = false
attempts settles (suc left) n = settles n || attempts settles left (suc n)

-- `settleMarkdownMessage`: the body that the channel took, if any.
unfoldable pub settle_markdown_message : Input → Answers → String → RunState → Option String
unfolding attempts
settle_markdown_message input answers id state =
    let body = render_settled_run_markdown input state in
    if answers.can_update
      && not (is_empty id)
      && not (is_blank body)
      && attempts answers.settles 2 0
    then some body
    else none

abbrev pub settled_by : (String → Sent) → Option String → List Sent
settled_by sent none = []
settled_by sent (some body) = sent body ∷ []

abbrev max_live_markdown : ℕ
max_live_markdown = 3000

abbrev pub continued :
    Input → Answers → RunState → String → Result String String → MarkdownStream → Done
continued input answers state body (err e) s = failed_with e s
continued input answers state body (ok id) s =
    let previous = card_state_delta s.segment_base s.published in
    record {
      sent =
          posted (card_state_delta s.published state) body
          ∷ settled_by (settled_before s.message_id previous)
              (settle_markdown_message input answers s.message_id previous);
      stream = record {
        message_id = id;
        segment_base = s.published;
        published = state;
        successful_updates = 0;
      };
      error = none;
    }

-- `rollover`.
unfoldable pub rollover : Input → Answers → RunState → MarkdownStream → Done
unfolding update settle_markdown_message
rollover input answers state s =
    let body = render_run_markdown input (card_state_delta s.published state) in
    if is_blank body
    then update input answers state s
    else if is_active state && ltb max_live_markdown (String.len body)
    then nothing_done s
    else continued input answers state body answers.send s

abbrev pub is_used_up : Input → MarkdownStream → Bool
is_used_up input s = leb (max_message_updates input.max_message_updates) s.successful_updates

-- `flush`.
unfoldable pub flush : Input → Answers → RunState → MarkdownStream → Done
unfolding start update rollover has_unpublished_content
flush input answers state s =
    if is_empty s.message_id
    then start input answers state s
    else if not (is_used_up input s)
    then update input answers state s
    else if has_unpublished_content input state s
    then rollover input answers state s
    else nothing_done s

-- `sendMarkdown`.
abbrev pub sent_whole : RunState → String → Result String String → MarkdownStream → Done
sent_whole state body (err e) s = failed_with e s
sent_whole state body (ok id) s = record { sent = posted state body ∷ []; stream = s; error = none }

unfoldable pub send_markdown : Input → Answers → RunState → MarkdownStream → Done
send_markdown input answers state s =
    let body = render_run_markdown input state in
    if is_blank body then nothing_done s else sent_whole state body answers.send s

-- `finish`.
unfoldable pub finish : Input → Answers → RunState → MarkdownStream → Done
unfolding update rollover has_unpublished_content send_markdown
finish input answers state s =
    if is_empty s.message_id
    then send_markdown input answers state s
    else if is_used_up input s && has_unpublished_content input state s
    then rollover input answers state s
    else update input answers state s

abbrev fell_back : Input → Answers → RunState → String → MarkdownStream → Done
fell_back input answers state body s =
    let shown = card_state_delta s.segment_base s.published in
    let settled =
      settled_by (patched s.message_id shown)
        (settle_markdown_message input answers s.message_id shown) in
    let last = sent_whole (card_state_delta s.published state) body answers.send s in
    record last { sent = settled ++ last.sent }

-- `sendFallback`.
unfoldable pub send_fallback : Input → Answers → RunState → MarkdownStream → Done
unfolding settle_markdown_message
send_fallback input answers state s =
    let body = render_run_markdown input (card_state_delta s.published state) in
    let shown = card_state_delta s.segment_base state in
    if is_blank body
    then record {
      sent =
          settled_by (patched s.message_id shown)
            (settle_markdown_message input answers s.message_id shown);
      stream = s;
      error = none;
    }
    else fell_back input answers state body s

-- The fallback after an error; the answers are those to the fallback.
unfoldable pub or_fallback : Input → Answers → RunState → Done → Option String → Done
unfolding send_fallback
or_fallback input again state r none = r
or_fallback input again state r (some e) =
    let last = send_fallback input again state r.stream in
    record last { sent = r.sent ++ last.sent }

-- `sendFinal` with Markdown, where the stream has a message and `update_failed` says that an update
-- of it was refused.
unfoldable pub send_final : Input → Answers → Answers → Bool → RunState → MarkdownStream → Done
unfolding send_markdown send_fallback finish or_fallback
send_final input answers again update_failed state s =
    if update_failed
    then send_fallback input answers state s
    else if answers.can_update
    then (let r = finish input answers state s in or_fallback input again state r r.error)
    else send_markdown input answers state s
