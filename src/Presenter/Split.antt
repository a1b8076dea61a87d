-- ===== src/Presenter/Split.antt =====
-- internal/app/impresenter/card_rollover.go: a final card that is too large is sent as several.
pub mod Delivered
pub mod Ends
pub mod Refused
use lark_bridge_agent_sdk.Base.{
  ℕ, zero, suc, String, Bool, true, false, Option, none, some, List, [], ◌∷◌, ltb, nat_eq, not,
  ◌&&◌, leb, if◌then◌else◌,
}
use lark_bridge_agent_sdk.CardState.{RunState}
use lark_bridge_agent_sdk.Presenter.{Input}
use lark_bridge_agent_sdk.Presenter.Content.{has_card_content, render_run_state}
use lark_bridge_agent_sdk.Presenter.Delta.{card_state_delta}
use lark_bridge_agent_sdk.Presenter.Prefix.{card_state_prefix}

-- A card that was sent: its state, and whether it has the note that it continues another.
pub record Segment : Type 0 where
  pub state : RunState
  pub continued : Bool

-- How the loop ends; it has no bound of its own, and can be cut short by the fuel only.
pub data Outcome : Type 0 where
  all_sent : List Segment → Outcome
  send_failed : List Segment → String → Outcome
  out_of_fuel : List Segment → Outcome

unfoldable pub after_sending : Segment → Outcome → Outcome
after_sending c (all_sent cs) = all_sent (c ∷ cs)
after_sending c (send_failed cs e) = send_failed (c ∷ cs) e
after_sending c (out_of_fuel cs) = out_of_fuel (c ∷ cs)

abbrev pub or_failed : Option String → Outcome → Outcome
or_failed none outcome = outcome
or_failed (some e) outcome = send_failed [] e

-- `answers` is the channel: the error of the card with a number, if any.
unfoldable pub send_cards : Input → (ℕ → Option String) → ℕ → ℕ → RunState → Outcome
unfolding card_state_prefix card_state_delta after_sending
send_cards input answers zero segment remaining = out_of_fuel []
send_cards input answers (suc fuel) segment remaining =
    let prefix = card_state_prefix input remaining in
    let next = card_state_delta prefix remaining in
    let rest = send_cards input answers fuel (suc segment) next in
    or_failed (answers segment) (
      after_sending (record { state = prefix; continued = ltb 0 segment })
        (if has_card_content (render_run_state input next) then rest else all_sent []))

unfoldable pub send_split_final_cards : Input → (ℕ → Option String) → ℕ → RunState → Outcome
unfolding send_cards
send_split_final_cards input answers fuel s = send_cards input answers fuel 0 s

-- `size` is of the card with the note; `plain_size` is of the card without.
abbrev pub should_split_final_card : Input → (RunState → Option ℕ) → RunState → Bool
should_split_final_card input plain_size s =
    not (nat_eq input.card_rollover.max_bytes 0) && larger (plain_size s)
  where
    larger : Option ℕ → Bool
    larger none = false
    larger (some n) = ltb input.card_rollover.max_bytes n
