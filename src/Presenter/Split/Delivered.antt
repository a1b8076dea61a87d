-- ===== src/Presenter/Split/Delivered.antt =====
-- internal/app/impresenter/card_rollover.go: what the cards of a split final card show together.
use package.text.Mathlib.TextLemmas.{append_assoc, nil-append}
use lark_bridge_agent_sdk.Base.{
  ℕ, zero, suc, String, ◌≡◌, refl, ap, ◌∙◌, Bool, true, false, Option, none, some, List, [], ◌∷◌,
  if◌then◌else◌, Bool-cases, inl, inr, ltb,
}
use lark_bridge_agent_sdk.CardState.{Block, RunState}
use lark_bridge_agent_sdk.CardState.Blocks.{is_text, append_text}
use lark_bridge_agent_sdk.CardState.Transcript.{text_of}
use lark_bridge_agent_sdk.Presenter.{Input}
use lark_bridge_agent_sdk.Presenter.Content.{has_card_content, render_run_state}
use lark_bridge_agent_sdk.Presenter.Delta.{card_state_delta}
use lark_bridge_agent_sdk.Presenter.Prefix.{card_state_prefix}
use lark_bridge_agent_sdk.Presenter.Segment.{segment-IsShown}
use lark_bridge_agent_sdk.Presenter.Shown.{IsShown, IsShown-text_of}
use lark_bridge_agent_sdk.Presenter.Cards.{IsCardPrefix, card_state_prefix-IsCardPrefix}
use lark_bridge_agent_sdk.Presenter.Split.{
  Segment, Outcome, all_sent, send_failed, out_of_fuel, after_sending, or_failed, send_cards,
  send_split_final_cards,
}

pub itself-IsShown : (bs : List Block) → IsShown bs bs
itself-IsShown [] = IsShown.nothing []
itself-IsShown (b ∷ bs) = elim (Bool-cases (is_text b.kind)) [
  | inl hb ↦ IsShown.same b b bs bs hb hb refl (itself-IsShown bs)
  | inr hb ↦ IsShown.panel b b bs bs hb hb (itself-IsShown bs)
]

pub prefix-IsShown : (s r : RunState) → IsCardPrefix s r → IsShown r.blocks s.blocks
prefix-IsShown _ _ (IsCardPrefix.everything s) = itself-IsShown s.blocks
prefix-IsShown _ _ (IsCardPrefix.blocks s seg e p) = segment-IsShown _ seg s.blocks p
prefix-IsShown _ _ (IsCardPrefix.reasoned s pausing seg e p) =
    segment-IsShown pausing seg s.blocks p
prefix-IsShown _ _ (IsCardPrefix.reasoning s n e) = IsShown.nothing s.blocks

-- A card and what is left after it show the text of the state.
pub prefix-text_of :
    (input : Input) (s : RunState)
    → append_text
        (text_of (card_state_prefix input s).blocks)
        (text_of (card_state_delta (card_state_prefix input s) s).blocks)
      ≡ text_of s.blocks
unfolding card_state_delta
prefix-text_of input s =
    let prefix = card_state_prefix input s in
    IsShown-text_of prefix.blocks s.blocks
      (prefix-IsShown s prefix (card_state_prefix-IsCardPrefix input s))

abbrev pub text_of_cards : List Segment → String
text_of_cards [] = ""
text_of_cards (c ∷ cs) = append_text (text_of c.state.blocks) (text_of_cards cs)

-- What is left of a state after the cards.
abbrev pub rest_after : RunState → List Segment → RunState
rest_after s [] = s
rest_after s (c ∷ cs) = rest_after (card_state_delta c.state s) cs

-- The text of the cards is that of the state up to what is left after them.
abbrev pub Reaches : RunState → List Segment → Type 0
Reaches s cs = append_text (text_of_cards cs) (text_of (rest_after s cs).blocks) ≡ text_of s.blocks

-- Where all cards were sent, nothing that a card would show is left.
abbrev pub Delivers : Input → RunState → Outcome → Type 0
Delivers input s (all_sent cs) =
    Reaches s cs × (has_card_content (render_run_state input (rest_after s cs)) ≡ false)
Delivers input s (send_failed cs e) = Reaches s cs
Delivers input s (out_of_fuel cs) = Reaches s cs

Reaches-nil : (s : RunState) → Reaches s []
Reaches-nil s = nil-append (text_of s.blocks)

Reaches-cons :
    (s : RunState) (c : Segment) (cs : List Segment)
    → append_text (text_of c.state.blocks) (text_of (card_state_delta c.state s).blocks)
      ≡ text_of s.blocks
    → Reaches (card_state_delta c.state s) cs
    → Reaches s (c ∷ cs)
Reaches-cons s c cs h r =
    append_assoc (text_of c.state.blocks) (text_of_cards cs)
      (text_of (rest_after (card_state_delta c.state s) cs).blocks)
    ∙ ap (append_text (text_of c.state.blocks)) r
    ∙ h

after_sending-Delivers :
    (input : Input) (s : RunState) (c : Segment) (outcome : Outcome)
    → append_text (text_of c.state.blocks) (text_of (card_state_delta c.state s).blocks)
      ≡ text_of s.blocks
    → Delivers input (card_state_delta c.state s) outcome
    → Delivers input s (after_sending c outcome)
unfolding after_sending
after_sending-Delivers input s c (all_sent cs) h (r, done) = (Reaches-cons s c cs h r, done)
after_sending-Delivers input s c (send_failed cs e) h r = Reaches-cons s c cs h r
after_sending-Delivers input s c (out_of_fuel cs) h r = Reaches-cons s c cs h r

or_failed-Delivers :
    (input : Input) (s : RunState) (answer : Option String) (outcome : Outcome)
    → Delivers input s outcome
    → Delivers input s (or_failed answer outcome)
or_failed-Delivers input s none outcome h = h
or_failed-Delivers input s (some e) outcome h = Reaches-nil s

more-Delivers :
    (input : Input) (next : RunState) (rest : Outcome)
    → Delivers input next rest
    → (more : Bool) → has_card_content (render_run_state input next) ≡ more
    → Delivers input next (if more then rest else all_sent [])
more-Delivers input next rest h true e = h
more-Delivers input next rest h false e = (Reaches-nil next, e)

send_cards-Delivers :
    (input : Input) (answers : ℕ → Option String) (fuel segment : ℕ) (s : RunState)
    → Delivers input s (send_cards input answers fuel segment s)
unfolding send_cards
send_cards-Delivers input answers zero segment s = Reaches-nil s
send_cards-Delivers input answers (suc fuel) segment s =
    let prefix = card_state_prefix input s in
    let next = card_state_delta prefix s in
    let has_more = has_card_content (render_run_state input next) in
    let rest = send_cards input answers fuel (suc segment) next in
    let more = if has_more then rest else all_sent [] in
    let card : Segment = record { state = prefix; continued = ltb 0 segment } in
    or_failed-Delivers input s (answers segment) (after_sending card more) (
      after_sending-Delivers input s card more (prefix-text_of input s) (
        more-Delivers input next rest (send_cards-Delivers input answers fuel (suc segment) next)
          has_more refl))

-- The text of the cards that were sent, in their order, and the text of what is left of the state
-- after taking each card away from it are the text of the state, also where the channel refused a
-- card. When all were sent, what is left holds nothing that a card would show.
pub send_split_final_cards-Delivers :
    (input : Input) (answers : ℕ → Option String) (fuel : ℕ) (s : RunState)
    → Delivers input s (send_split_final_cards input answers fuel s)
unfolding send_split_final_cards
send_split_final_cards-Delivers input answers fuel s = send_cards-Delivers input answers fuel 0 s
