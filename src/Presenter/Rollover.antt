-- ===== src/Presenter/Rollover.antt =====
-- internal/app/impresenter/card_rollover.go: a card that grows while the run goes on, and that is
-- continued on another card when it is too large or was updated too often.
use lark_bridge_agent_sdk.Base.{
  ℕ, zero, suc, ◌+◌, String, Bool, false, not, ◌&&◌, ◌||◌, Option, none, some, List, [], ◌∷◌, leb,
  ltb, nat_eq, Result, ok, err, if◌then◌else◌,
}
use lark_bridge_agent_sdk.Base.Text.{is_empty}
use lark_bridge_agent_sdk.CardState.{Event, RunState, succeeded, no_footer}
use lark_bridge_agent_sdk.CardState.Blocks.{close_streaming}
use lark_bridge_agent_sdk.CardState.Reduce.{reduce, set_active}
use lark_bridge_agent_sdk.Presenter.{Input}
use lark_bridge_agent_sdk.Presenter.Content.{has_card_content, render_run_state}
use lark_bridge_agent_sdk.Presenter.Delta.{card_state_delta}
use lark_bridge_agent_sdk.Presenter.Prefix.{card_state_prefix}

-- A call of the channel for the cards of a run: a new card with its answer, an update of the newest
-- card with its error, and the update that closes the card before, whose error is ignored.
pub data CardCall : Type 0 where
  sends : RunState → Result String String → CardCall
  updates : RunState → Option String → CardCall
  closes : RunState → CardCall

-- `calls` is no field of the code: it has the calls of the channel so far, the latest first. A new
-- card that was refused is left out, as it changes neither the stream nor what is shown.
pub record CardStream : Type 0 where
  pub message_id : String
  pub state : RunState
  pub published : RunState
  pub successful_updates : ℕ
  pub calls : List CardCall

-- `input.Channel` during one flush: the answer to each new card, whether cards can be updated, and
-- the error of an update.
pub record Channel : Type 0 where
  pub sends : ℕ → Result String String
  pub can_update : Bool
  pub update_error : Option String

abbrev pub new_card_stream : RunState → CardStream
new_card_stream s = record {
  message_id = "";
  state = s;
  published = s;
  successful_updates = 0;
  calls = [];
}

abbrev pub reduce_stream : CardStream → Event → CardStream
reduce_stream s e = record s { state = reduce s.state e }

abbrev pub mark_sent : String → CardStream → CardStream
mark_sent id s = record s {
  message_id = id;
  published = s.state;
  successful_updates = 0;
  calls = sends s.state (ok id) ∷ s.calls;
}

abbrev too_large : ℕ → Option ℕ → Bool
too_large limit none = false
too_large limit (some n) = ltb limit n

unfoldable pub should_rollover : Input → CardStream → Bool
unfolding card_state_delta
should_rollover input s =
    let policy = input.card_rollover in
    let pending = card_state_delta s.published s.state in
    not (nat_eq policy.max_bytes 0 && nat_eq policy.max_updates 0)
    && has_card_content (render_run_state input pending)
    && ((not (nat_eq policy.max_updates 0) && leb policy.max_updates s.successful_updates)
        || (not (nat_eq policy.max_bytes 0) && too_large policy.max_bytes (input.size s.state)))

-- The card that ends before its continuation.
unfoldable pub continued_state : RunState → RunState
unfolding close_streaming
continued_state s = record s {
  status = succeeded;
  footer = no_footer;
  reasoning = set_active false s.reasoning;
  blocks = close_streaming s.blocks;
}

-- One roll-over: the state of the new card, the state that the stream had as published on the old
-- card, and the update that closes the old card, whose error is ignored.
pub record Change : Type 0 where
  pub opened : RunState
  pub left : RunState
  pub closing : Option RunState

unfoldable pub rollover_to : Input → Bool → CardStream → String → Change × CardStream
unfolding card_state_delta card_state_prefix continued_state
rollover_to input can_update s id =
    let pending = card_state_delta s.published s.state in
    let next = card_state_prefix input pending in
    let closed = can_update && not (is_empty s.message_id) in
    let sent = sends next (ok id) ∷ s.calls in
    (
      record {
        opened = next;
        left = s.published;
        closing = if closed then some (continued_state s.published) else none;
      },
      record {
        message_id = id;
        state = pending;
        published = next;
        successful_updates = 0;
        calls = if closed then closes (continued_state s.published) ∷ sent else sent;
      },
    )

-- The end of a loop of roll-overs, with those that were made.
pub data Rolled : Type 0 where
  rolled : List Change → CardStream → Rolled
  roll_failed : List Change → CardStream → String → Rolled
  still_rolling : List Change → CardStream → Rolled

unfoldable pub after_change : Change → Rolled → Rolled
after_change c (rolled cs s) = rolled (c ∷ cs) s
after_change c (roll_failed cs s e) = roll_failed (c ∷ cs) s e
after_change c (still_rolling cs s) = still_rolling (c ∷ cs) s

-- A new card that was taken, or the error of the channel.
unfoldable pub after_send : Result String String → CardStream → (String → Rolled) → Rolled
after_send (ok id) s next = next id
after_send (err e) s next = roll_failed [] s e

-- The loops of `flush` and `prepareFinal`; `between` is what the second does after each round.
unfoldable pub roll_over : Input → Channel → (CardStream → CardStream) → ℕ → ℕ → CardStream → Rolled
unfolding after_change after_send
roll_over input channel between zero n s = still_rolling [] s
roll_over input channel between (suc fuel) n s =
    let next : String → Rolled = λ id.
      let (change, s') = rollover_to input channel.can_update s id in
      after_change change (roll_over input channel between fuel (suc n) (between s')) in
    if should_rollover input s then after_send (channel.sends n) s next else rolled [] s

-- A refused update leaves what was published before.
abbrev pub after_update : Option String → CardStream → CardStream → Rolled
after_update none s updated = rolled [] (record updated { calls = updates s.state none ∷ s.calls })
after_update (some e) s updated =
    roll_failed [] (record s { calls = updates s.state (some e) ∷ s.calls }) e

unfoldable pub update_published : Channel → CardStream → Rolled
update_published channel s =
    let updated = record s { published = s.state; successful_updates = s.successful_updates + 1 } in
    if channel.can_update then after_update channel.update_error s updated else rolled [] updated

unfoldable pub or_update : Channel → Rolled → Rolled
unfolding update_published
or_update channel (rolled [] s) = update_published channel s
or_update channel r = r

unfoldable pub flush : Input → Channel → ℕ → CardStream → Rolled
unfolding or_update roll_over
flush input channel fuel s =
    if is_empty s.message_id
    then rolled [] s
    else or_update channel (roll_over input channel (λ r. r) fuel 0 s)

-- The fields that the end of the run decides; the blocks and the reasoning stay those of the card.
unfoldable pub apply_final_state : RunState → CardStream → CardStream
unfolding close_streaming
apply_final_state final s = if is_empty s.message_id then s else record s {
  state = record final {
    blocks = close_streaming s.state.blocks;
    reasoning = set_active false s.state.reasoning;
  };
}

unfoldable pub prepare_final : Input → Channel → RunState → ℕ → CardStream → Rolled
unfolding roll_over apply_final_state
prepare_final input channel final fuel s =
    roll_over input channel (apply_final_state final) fuel 0 (apply_final_state final s)
