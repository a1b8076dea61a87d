-- ===== src/Presenter/Tests.antt =====
-- internal/app/impresenter/card_rollover.go: an answer of ten runes on cards of four.
use lark_bridge_agent_sdk.Base.{
  ℕ, zero, suc, String, ◌≡◌, refl, Bool, true, false, Option, none, some, List, [], ◌∷◌, ◌++◌,
  arith, leb, ok, ltb, if◌then◌else◌, min,
}
use lark_bridge_agent_sdk.Base.Text.{runes, take_runes, is_blank, is_space}
use lark_bridge_agent_sdk.Samples.{says}
use lark_bridge_agent_sdk.CardState.{Block, RunState, block_text, final_answer, running, no_footer}
use lark_bridge_agent_sdk.CardState.Blocks.{add_text, last_accepts, close_streaming, text_block}
use lark_bridge_agent_sdk.CardState.Reduce.{reduce, apply, stamp, apply_metadata, ensure_running}
use lark_bridge_agent_sdk.Presenter.Delta.{card_state_delta, string_delta}
use lark_bridge_agent_sdk.Presenter.Content.{blocks_have_content}
use lark_bridge_agent_sdk.CardState.Transcript.{text_of}
use lark_bridge_agent_sdk.Presenter.{Input, reply_card}
use lark_bridge_agent_sdk.Presenter.Prefix.{fitting_string_prefix}
use lark_bridge_agent_sdk.Presenter.Search.{longest_prefix, Shrinks, fitting_string_prefix-longest}
use lark_bridge_agent_sdk.Presenter.Weight.{weight, state_weight}
use lark_bridge_agent_sdk.Presenter.Split.{
  Segment, Outcome, all_sent, send_failed, out_of_fuel, send_split_final_cards,
}
use lark_bridge_agent_sdk.Presenter.Split.Ends.{Ends, send_split_final_cards-Ends}
use lark_bridge_agent_sdk.Presenter.Split.Delivered.{Delivers, send_split_final_cards-Delivers}
use lark_bridge_agent_sdk.Presenter.Split.Refused.{Endless, send_split_final_cards-Endless}
use lark_bridge_agent_sdk.Presenter.Rollover.{
  CardStream, Channel, flush, mark_sent, new_card_stream, reduce_stream,
}
use lark_bridge_agent_sdk.Presenter.RollsEnd.{Settles, flush-Settles, pending_weight}
use lark_bridge_agent_sdk.Presenter.WholeRun.{Step, event_step, flush_step}

abbrev state : List Block → String → RunState
state blocks error = record {
  run_id = "r1";
  scope = "chat";
  cwd = "/work";
  session_id = "";
  thread_id = "";
  model = "";
  status = running;
  blocks = blocks;
  reasoning = record { content = ""; active = false };
  footer = no_footer;
  error = error;
  usage = record {
    input_tokens = 0;
    output_tokens = 0;
    cached_input_tokens = 0;
    reasoning_output_tokens = 0;
    cost_usd = none;
  };
  last_event = none;
  started_at = none;
  updated_at = none;
  elapsed = 0;
  timeout_minutes = 0;
}

abbrev answer : Block
answer = record {
  kind = block_text;
  phase = final_answer;
  id = "";
  content = "0123456789";
  streaming = false;
  tool = none;
}

-- A card takes four runes of text.
abbrev small_cards : Input
small_cards = record {
  reply_mode = reply_card;
  stream_throttle = 0;
  max_message_updates = 0;
  hide_tool_calls = false;
  card_rollover = record { max_bytes = 4; max_updates = 0 };
  final_answer_only = false;
  size = λ s. some (runes (text_of s.blocks));
  tool_line = λ t. t.name;
  timeout_line = λ n. "timeout";
}

abbrev accepting : ℕ → Option String
accepting n = none

abbrev second_refused : ℕ → Option String
second_refused n = if ltb n 1 then none else some "refused"

unfoldable texts_of : List Segment → List String
texts_of [] = []
texts_of (c ∷ cs) = text_of c.state.blocks ∷ texts_of cs

abbrev texts : Outcome → List String
unfolding texts_of
texts (all_sent cs) = texts_of cs
texts (send_failed cs e) = texts_of cs ++ e ∷ []
texts (out_of_fuel cs) = texts_of cs

split_three :
    texts (send_split_final_cards small_cards accepting 12 (state (answer ∷ []) ""))
    ≡ "0123" ∷ "4567" ∷ "89" ∷ []
unfolding send_split_final_cards texts_of is_blank string_delta runes take_runes blocks_have_content
    is_space
split_three = refl

split_refused :
    texts (send_split_final_cards small_cards second_refused 12 (state (answer ∷ []) ""))
    ≡ "0123" ∷ "refused" ∷ []
unfolding send_split_final_cards texts_of is_blank string_delta runes take_runes blocks_have_content
    is_space
split_refused = refl

send_split_final_cards-Ends_example :
    Ends (send_split_final_cards small_cards second_refused 12 (state (answer ∷ []) ""))
unfolding is_blank weight runes
send_split_final_cards-Ends_example =
    let heavy : state_weight (state (answer ∷ []) "") ≡ 11 = refl in
    send_split_final_cards-Ends small_cards second_refused 12 (state (answer ∷ []) "") refl
      (ground (arith, heavy))

send_split_final_cards-Delivers_example :
    Delivers small_cards
      (state (answer ∷ []) "")
      (send_split_final_cards small_cards accepting 12 (state (answer ∷ []) ""))
send_split_final_cards-Delivers_example =
    send_split_final_cards-Delivers small_cards accepting 12 (state (answer ∷ []) "")

send_split_final_cards-Endless_example :
    Endless 50
      (send_split_final_cards small_cards accepting 50 (state (answer ∷ []) "exit status 1"))
unfolding is_blank is_space
send_split_final_cards-Endless_example =
    send_split_final_cards-Endless small_cards accepting 50 (state (answer ∷ []) "exit status 1")
      refl (λ k. refl)

abbrev up_to_four : String → Bool
up_to_four s = leb (runes s) 4

runes-take : (n : ℕ) (s : String) → runes (take_runes n s) ≡ min n (runes s)
unfolding runes take_runes
runes-take zero s = ground arith
runes-take (suc n) String.[] = ground arith
runes-take (suc n) (String.◌∷◌ c s) = ground (arith, runes-take n s)

up_to_four-Shrinks : (s : String) → Shrinks (λ k. up_to_four (take_runes k s))
up_to_four-Shrinks s a b h fit = ground (arith, runes-take a s, runes-take b s)

fitting_string_prefix-longest_example :
    fitting_string_prefix up_to_four "0123456789" ≡ longest_prefix up_to_four "0123456789"
fitting_string_prefix-longest_example =
    fitting_string_prefix-longest up_to_four "0123456789" (up_to_four-Shrinks "0123456789")

abbrev cards : Channel
cards = record { sends = λ n. ok "om_next"; can_update = true; update_error = none }

abbrev stream : CardStream
stream = reduce_stream (mark_sent "om_1" (new_card_stream (state [] ""))) (says "0123456789")

flush-Settles_example : Settles (flush small_cards cards 20 stream)
unfolding reduce apply stamp apply_metadata add_text last_accepts close_streaming text_block
    ensure_running card_state_delta runes weight is_blank string_delta
flush-Settles_example =
    let heavy : pending_weight stream ≡ 11 = refl in
    flush-Settles small_cards cards 20 stream refl (ground (arith, heavy))

abbrev steps : List Step
steps =
    event_step (says "012")
    ∷ flush_step cards 20
    ∷ event_step (says "3456789")
    ∷ flush_step cards 20
    ∷ []
