-- ===== src/Presenter/Split/Ends.antt =====
-- internal/app/impresenter/card_rollover.go: the loop of `sendSplitFinalCards` ends without an error.
use lark_bridge_agent_sdk.Base.{
  ℕ, zero, suc, ◌<◌, String, ◌≡◌, refl, ap, Bool, true, false, Option, none, some, List, [], ◌∷◌,
  arith, if◌then◌else◌, if-lift, inl, inr, ltb, ◌⊎◌, subst, sym,
}
use lark_bridge_agent_sdk.Base.Text.{is_blank, runes_zero}
use lark_bridge_agent_sdk.CardState.{Block, RunState}
use lark_bridge_agent_sdk.CardState.Blocks.{is_text}
use lark_bridge_agent_sdk.Presenter.{Input}
use lark_bridge_agent_sdk.Presenter.Content.{
  has_card_content, blocks_have_content, keep, render_run_state, final_answer_only_state,
  without_tools, shows_answer, has_final,
}
use lark_bridge_agent_sdk.Presenter.Delta.{card_state_delta}
use lark_bridge_agent_sdk.Presenter.Prefix.{card_state_prefix}
use lark_bridge_agent_sdk.Presenter.Cards.{card_state_prefix-IsCardPrefix}
use lark_bridge_agent_sdk.Presenter.Weight.{weight, state_weight, card_prefix-weight}
use lark_bridge_agent_sdk.Presenter.Split.{
  Segment, Outcome, all_sent, send_failed, out_of_fuel, after_sending, or_failed, send_cards,
  send_split_final_cards,
}

-- The loop came to its end: all was sent, or a card was refused.
abbrev pub Ends : Outcome → Type 0
Ends (all_sent cs) = Unit
Ends (send_failed cs e) = Unit
Ends (out_of_fuel cs) = ⊥

after_sending-Ends :
    (c : Segment) (outcome : Outcome) → Ends outcome → Ends (after_sending c outcome)
unfolding after_sending
after_sending-Ends c (all_sent cs) h = tt
after_sending-Ends c (send_failed cs e) h = tt
after_sending-Ends c (out_of_fuel cs) h = elim h [ ]

or_failed-Ends :
    (answer : Option String) (outcome : Outcome) → Ends outcome → Ends (or_failed answer outcome)
or_failed-Ends none outcome h = h
or_failed-Ends (some e) outcome h = tt

weightless : (bs : List Block) → weight bs ≡ 0 → bs ≡ []
unfolding weight
weightless [] h = refl
weightless (b ∷ bs) h = ground arith

keep_none : (p : Block → Bool) (bs : List Block) → bs ≡ [] → keep p bs ≡ []
unfolding keep
keep_none p bs h = ap (keep p) h

no_content : (bs : List Block) → bs ≡ [] → blocks_have_content bs ≡ false
unfolding blocks_have_content
no_content bs h = ap blocks_have_content h

pub weightless_content :
    (input : Input) (s : RunState)
    → is_blank s.error ≡ true
    → state_weight s ≡ 0
    → has_card_content (render_run_state input s) ≡ false
unfolding is_blank
weightless_content input s h w = shown input.final_answer_only input.hide_tool_calls
  where
    blocks_none : s.blocks ≡ []
    blocks_none = weightless s.blocks (ground arith)

    reasoning_blank : is_blank s.reasoning.content ≡ true
    reasoning_blank = ap is_blank (runes_zero s.reasoning.content (ground arith))

    shown :
        (final hide : Bool)
        → has_card_content (
            let shown = if final then final_answer_only_state s else s in
            if hide then without_tools shown else shown)
          ≡ false
    shown true true = ground (
      arith,
      no_content (keep text_only (keep final_text s.blocks)) (
          keep_none text_only (keep final_text s.blocks)
            (keep_none final_text s.blocks blocks_none)),
    )
      where
        final_text : Block → Bool
        final_text = shows_answer (has_final s.blocks)

        text_only : Block → Bool
        text_only b = is_text b.kind
    shown true false = ground (
      arith,
      no_content (keep (shows_answer (has_final s.blocks)) s.blocks)
          (keep_none (shows_answer (has_final s.blocks)) s.blocks blocks_none),
    )
    shown false true = ground (
      arith,
      reasoning_blank,
      no_content (keep (λ b. is_text b.kind) s.blocks)
          (keep_none (λ b. is_text b.kind) s.blocks blocks_none),
    )
    shown false false = ground (arith, reasoning_blank, no_content s.blocks blocks_none)

-- After a card that left nothing, or less than the fuel.
continued-Ends :
    (input : Input) (fuel : ℕ) (next : RunState) (rest : Outcome)
    → is_blank next.error ≡ true
    → (state_weight next ≡ 0) ⊎ (state_weight next < fuel)
    → (state_weight next < fuel → Ends rest)
    → Ends (if has_card_content (render_run_state input next) then rest else all_sent [])
continued-Ends input fuel next rest h (inl zeroed) again =
    subst (λ more. Ends (if more then rest else all_sent []))
      (sym (weightless_content input next h zeroed)) tt
continued-Ends input fuel next rest h (inr less) again =
    if-lift Ends (has_card_content (render_run_state input next)) rest (all_sent []) (again less) tt

less_left : (m n fuel : ℕ) → n < suc fuel → (m ≡ 0) ⊎ (m < n) → (m ≡ 0) ⊎ (m < fuel)
less_left m n fuel w (inl zeroed) = inl zeroed
less_left m n fuel w (inr less) = inr (ground arith)

send_cards-Ends :
    (input : Input) (answers : ℕ → Option String) (fuel segment : ℕ) (s : RunState)
    → is_blank s.error ≡ true
    → state_weight s < fuel
    → Ends (send_cards input answers fuel segment s)
unfolding send_cards card_state_delta
send_cards-Ends input answers zero segment s h w = ground arith
send_cards-Ends input answers (suc fuel) segment s h w =
    let prefix = card_state_prefix input s in
    let next = card_state_delta prefix s in
    let rest = send_cards input answers fuel (suc segment) next in
    let more = if has_card_content (render_run_state input next) then rest else all_sent [] in
    let card : Segment = record { state = prefix; continued = ltb 0 segment } in
    let less : (state_weight next ≡ 0) ⊎ (state_weight next < fuel) =
      less_left (state_weight next) (state_weight s) fuel w
        (card_prefix-weight s prefix (card_state_prefix-IsCardPrefix input s) h) in
    let ends : Ends more =
      continued-Ends input fuel next rest h less
        (send_cards-Ends input answers fuel (suc segment) next h) in
    or_failed-Ends (answers segment) (after_sending card more) (after_sending-Ends card more ends)

-- Where the run has no error, the loop that sends a large final card in parts ends, whatever the
-- channel answers and whatever the size limit: one more round than the state has runes and blocks
-- is always enough.
pub send_split_final_cards-Ends :
    (input : Input) (answers : ℕ → Option String) (fuel : ℕ) (s : RunState)
    → is_blank s.error ≡ true
    → state_weight s < fuel
    → Ends (send_split_final_cards input answers fuel s)
unfolding send_split_final_cards
send_split_final_cards-Ends input answers fuel s h w = send_cards-Ends input answers fuel 0 s h w
