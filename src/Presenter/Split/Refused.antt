-- ===== src/Presenter/Split/Refused.antt =====
-- internal/app/impresenter/card_rollover.go: `sendSplitFinalCards` at an error of the channel, and
-- with an error of the run.
use lark_bridge_agent_sdk.Base.{
  ℕ, zero, suc, ◌+◌, ◌<◌, String, ◌≡◌, refl, ap, Bool, true, false, Option, none, some, List, [],
  ◌∷◌, length, arith, if◌then◌else◌, ltb,
}
use lark_bridge_agent_sdk.Base.Text.{is_blank}
use lark_bridge_agent_sdk.CardState.{RunState}
use lark_bridge_agent_sdk.Presenter.{Input}
use lark_bridge_agent_sdk.Presenter.Content.{
  has_card_content, render_run_state, final_answer_only_state, without_tools,
}
use lark_bridge_agent_sdk.Presenter.Delta.{card_state_delta}
use lark_bridge_agent_sdk.Presenter.Prefix.{card_state_prefix}
use lark_bridge_agent_sdk.Presenter.Split.{
  Segment, Outcome, all_sent, send_failed, out_of_fuel, after_sending, or_failed, send_cards,
  send_split_final_cards,
}

-- Whether the channel took the cards of an outcome, counted from a number, and refused the next.
abbrev pub Answered : (ℕ → Option String) → ℕ → Outcome → Type 0
Answered answers n (all_sent cs) = (k : ℕ) → k < length cs → answers (n + k) ≡ none
Answered answers n (send_failed cs e) =
    ((k : ℕ) → k < length cs → answers (n + k) ≡ none) × (answers (n + length cs) ≡ some e)
Answered answers n (out_of_fuel cs) = (k : ℕ) → k < length cs → answers (n + k) ≡ none

shown_error :
    (input : Input) (s : RunState)
    → is_blank s.error ≡ false
    → has_card_content (render_run_state input s) ≡ true
shown_error input s h = shown input.final_answer_only input.hide_tool_calls
  where
    shown :
        (final hide : Bool)
        → has_card_content (
            let shown = if final then final_answer_only_state s else s in
            if hide then without_tools shown else shown)
          ≡ true
    shown true true = ground arith
    shown true false = ground arith
    shown false true = ground arith
    shown false false = ground arith

-- The loop was still sending when the fuel was used up: one card for each round.
abbrev pub Endless : ℕ → Outcome → Type 0
Endless fuel outcome = (cs : List Segment) × (outcome ≡ out_of_fuel cs) × (length cs ≡ fuel)

after_sending-Endless :
    (fuel : ℕ) (answer : Option String) (card : Segment) (more : Bool) (rest : Outcome)
    → answer ≡ none
    → more ≡ true
    → Endless fuel rest
    → Endless
        (suc fuel)
        (or_failed answer (after_sending card (if more then rest else all_sent [])))
unfolding after_sending
after_sending-Endless fuel none card true rest h m (cs, e, n) =
    (card ∷ cs, ap (after_sending card) e, ground arith)
after_sending-Endless fuel none card false rest h m ends = absurd (cc m)
after_sending-Endless fuel (some x) card more rest h m ends = absurd (cc h)

send_cards-Endless :
    (input : Input) (answers : ℕ → Option String) (fuel segment : ℕ) (s : RunState)
    → is_blank s.error ≡ false
    → ((k : ℕ) → answers k ≡ none)
    → Endless fuel (send_cards input answers fuel segment s)
unfolding send_cards card_state_delta
send_cards-Endless input answers zero segment s h taken = ([], refl, refl)
send_cards-Endless input answers (suc fuel) segment s h taken =
    let prefix = card_state_prefix input s in
    let next = card_state_delta prefix s in
    after_sending-Endless fuel (answers segment)
      (record { state = prefix; continued = ltb 0 segment })
      (has_card_content (render_run_state input next))
      (send_cards input answers fuel (suc segment) next) (taken segment) (shown_error input next h)
      (send_cards-Endless input answers fuel (suc segment) next h taken)

-- With an error of the run on the card the loop never ends while the channel takes the cards: after
-- any number of rounds it has sent that many cards and goes on, since the error stays in what is
-- left.
pub send_split_final_cards-Endless :
    (input : Input) (answers : ℕ → Option String) (fuel : ℕ) (s : RunState)
    → is_blank s.error ≡ false
    → ((k : ℕ) → answers k ≡ none)
    → Endless fuel (send_split_final_cards input answers fuel s)
unfolding send_split_final_cards
send_split_final_cards-Endless input answers fuel s h taken =
    send_cards-Endless input answers fuel 0 s h taken
