-- ===== src/Presenter/Cards.antt =====
-- internal/app/impresenter/card_rollover.go: the state that `cardStatePrefix` returns.
use lark_bridge_agent_sdk.Base.{
  ℕ, suc, ◌≡◌, refl, sym, ap, subst, ◌∙◌, Bool, true, false, not, ◌||◌, List, [], arith,
  if◌then◌else◌, nat_eq,
}
use lark_bridge_agent_sdk.Base.Text.{is_empty, is_empty-eq, is_blank, take_runes}
use lark_bridge_agent_sdk.CardState.{Block, RunState}
use lark_bridge_agent_sdk.Presenter.{Input}
use lark_bridge_agent_sdk.Presenter.Content.{has_card_content, blocks_have_content}
use lark_bridge_agent_sdk.Presenter.Prefix.{
  with_reasoning, fill, cut_reasoning, card_state_prefix, serialized_card_fits,
}
use lark_bridge_agent_sdk.Presenter.Segment.{
  IsSegment, Filled, with_blocks, fill-Filled, fitting_string_prefix-take,
}

-- What a card shows of a state: all, or a segment of the blocks with the whole reasoning, or the
-- start of the reasoning. Only with a reasoning or an error may it show no block at all.
pub data IsCardPrefix : RunState → RunState → Type 0 where
  everything : (s : RunState) → IsCardPrefix s s
  blocks :
      (s : RunState) (seg : List Block)
      → s.reasoning.content ≡ ""
      → IsSegment (not (is_blank s.error)) seg s.blocks
      → IsCardPrefix s (with_blocks s seg)
  reasoned :
      (s : RunState) (pausing : Bool) (seg : List Block)
      → is_empty s.reasoning.content ≡ false
      → IsSegment pausing seg s.blocks
      → IsCardPrefix s (with_blocks s seg)
  reasoning :
      (s : RunState) (n : ℕ)
      → is_empty s.reasoning.content ≡ false
      → IsCardPrefix s (with_blocks (with_reasoning s (take_runes (suc n) s.reasoning.content)) [])

abbrev bare : RunState → RunState
bare s = with_blocks (with_reasoning s "") []

abbrev full : RunState → RunState
full s = record (bare s) { reasoning = s.reasoning }

bare_content : (s : RunState) → has_card_content (bare s) ≡ not (is_blank s.error)
unfolding is_blank blocks_have_content
bare_content s = ground arith

Filled-blocks :
    (s r : RunState)
    → is_empty s.reasoning.content ≡ true
    → Filled (bare s) s.blocks r
    → IsCardPrefix s r
Filled-blocks s r h (seg, e, p) =
    subst (IsCardPrefix s)
      (ap (λ c. with_blocks (with_reasoning s c) seg) (is_empty-eq s.reasoning.content h) ∙ sym e)
      (IsCardPrefix.blocks s seg (is_empty-eq s.reasoning.content h)
        (subst (λ pausing. IsSegment pausing seg s.blocks) (bare_content s) p))

Filled-reasoned :
    (s r : RunState)
    → is_empty s.reasoning.content ≡ false
    → Filled (full s) s.blocks r
    → IsCardPrefix s r
Filled-reasoned s r h (seg, e, p) =
    subst (IsCardPrefix s) (sym e) (IsCardPrefix.reasoned s (has_card_content (full s)) seg h p)

cut_reasoning-IsCardPrefix :
    (fits : RunState → Bool) (s : RunState)
    → is_empty s.reasoning.content ≡ false
    → IsCardPrefix s (cut_reasoning fits s (bare s))
unfolding cut_reasoning
cut_reasoning-IsCardPrefix fits s h =
    let (n, e) =
      fitting_string_prefix-take (λ c. fits (with_reasoning (bare s) c)) s.reasoning.content in
    subst (λ c. IsCardPrefix s (with_blocks (with_reasoning s c) [])) (sym e)
      (IsCardPrefix.reasoning s n h)

pub card_state_prefix-IsCardPrefix :
    (input : Input) (s : RunState) → IsCardPrefix s (card_state_prefix input s)
unfolding card_state_prefix
card_state_prefix-IsCardPrefix input s =
    choose (nat_eq input.card_rollover.max_bytes 0 || fits s) (is_empty s.reasoning.content)
      (fits (full s)) refl
  where
    fits : RunState → Bool
    fits = serialized_card_fits input

    choose :
        (all none fit : Bool)
        → is_empty s.reasoning.content ≡ none
        → IsCardPrefix s (
            if all
            then s
            else if none
            then fill fits (bare s) s.blocks
            else if fit
            then fill fits (full s) s.blocks
            else cut_reasoning fits s (bare s))
    choose true none fit e = IsCardPrefix.everything s
    choose false true fit e =
        Filled-blocks s (fill fits (bare s) s.blocks) e (fill-Filled fits (bare s) s.blocks)
    choose false false true e =
        Filled-reasoned s (fill fits (full s) s.blocks) e (fill-Filled fits (full s) s.blocks)
    choose false false false e = cut_reasoning-IsCardPrefix fits s e
