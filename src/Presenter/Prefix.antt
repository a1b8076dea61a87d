-- ===== src/Presenter/Prefix.antt =====
-- internal/app/impresenter/card_rollover.go: the part of a state that fits one card.
use lark_bridge_agent_sdk.Base.{
  ℕ, zero, suc, ◌+◌, ◌-◌, ◌/◌, String, Bool, false, not, ◌&&◌, ◌||◌, none, some, List, [], ◌∷◌,
  ◌++◌, leb, ltb, nat_eq, if◌then◌else◌,
}
use lark_bridge_agent_sdk.Base.Text.{is_empty, runes, take_runes}
use lark_bridge_agent_sdk.CardState.{Block, RunState}
use lark_bridge_agent_sdk.CardState.Blocks.{is_text}
use lark_bridge_agent_sdk.Presenter.{Input}
use lark_bridge_agent_sdk.Presenter.Content.{has_card_content}

abbrev pub serialized_card_fits : Input → RunState → Bool
serialized_card_fits input s = elim (input.size s) [
  | none ↦ false
  | some n ↦ leb n input.card_rollover.max_bytes
]

-- The binary search; a round of the loop takes one of the fuel.
unfoldable pub search : (ℕ → Bool) → ℕ → ℕ → ℕ → ℕ → ℕ
search fits zero low high best = best
search fits (suc fuel) low high best =
    let middle = low + (high - low) / 2 in
    let fit = fits middle in
    let rest =
      search fits fuel (if fit then middle + 1 else low) (if fit then high else middle - 1)
        (if fit then middle else best) in
    if leb low high then rest else best

-- At least one rune is taken, also where none fits. The interval shrinks in each round, so the
-- length of the text is enough fuel.
unfoldable pub fitting_length : (ℕ → Bool) → ℕ → ℕ
unfolding search
fitting_length fits n =
    let best = search fits n 1 n 0 in if nat_eq best 0 && ltb 0 n then 1 else best

unfoldable pub fitting_string_prefix : (String → Bool) → String → String
unfolding fitting_length
fitting_string_prefix fits content =
    take_runes (fitting_length (λ n. fits (take_runes n content)) (runes content)) content

abbrev pub add_block : RunState → Block → RunState
add_block s b = record s { blocks = s.blocks ++ b ∷ [] }

abbrev pub with_content : Block → String → Block
with_content b content = record b { content = content }

abbrev pub with_reasoning : RunState → String → RunState
with_reasoning s content = record s { reasoning = record s.reasoning { content = content } }

unfoldable pub cut_block : (RunState → Bool) → RunState → Block → Block
unfolding fitting_string_prefix
cut_block fits prefix b =
    with_content b (
      fitting_string_prefix (λ content. fits (add_block prefix (with_content b content))) b.content)

-- A block that does not fit is cut, or left for the next card, or kept whole.
unfoldable pub last_block : (RunState → Bool) → RunState → Block → RunState
unfolding cut_block
last_block fits prefix b =
    let cut = if is_text b.kind then cut_block fits prefix b else b in
    if (is_text b.kind && not (is_empty cut.content)) || not (has_card_content prefix)
    then add_block prefix cut
    else prefix

unfoldable pub fill : (RunState → Bool) → RunState → List Block → RunState
unfolding last_block
fill fits prefix [] = prefix
fill fits prefix (b ∷ bs) =
    let rest = fill fits (add_block prefix b) bs in
    if fits (add_block prefix b) then rest else last_block fits prefix b

unfoldable pub cut_reasoning : (RunState → Bool) → RunState → RunState → RunState
unfolding fitting_string_prefix
cut_reasoning fits s prefix =
    with_reasoning prefix
      (fitting_string_prefix (λ content. fits (with_reasoning prefix content)) s.reasoning.content)

unfoldable pub card_state_prefix : Input → RunState → RunState
unfolding fill cut_reasoning
card_state_prefix input s =
    let fits = serialized_card_fits input in
    let bare = record (with_reasoning s "") { blocks = [] } in
    let full = record bare { reasoning = s.reasoning } in
    if nat_eq input.card_rollover.max_bytes 0 || fits s
    then s
    else if is_empty s.reasoning.content
    then fill fits bare s.blocks
    else if fits full
    then fill fits full s.blocks
    else cut_reasoning fits s bare
