-- ===== src/Presenter/Weight.antt =====
-- internal/app/impresenter/card_rollover.go: what is left of a state is less than the state.
use lark_bridge_agent_sdk.Base.{
  ℕ, suc, ◌+◌, ◌≤◌, ◌<◌, String, ◌≡◌, refl, sym, ap, subst, ◌∙◌, ◌⊎◌, true, false, not, Option,
  none, some, List, [], ◌∷◌, ◌++◌, arith, if◌then◌else◌, if-lift, inl, inr, ◌==◌,
}
use lark_bridge_agent_sdk.Base.Text.{
  is_empty, is_blank, runes, take_runes, drop_runes, take-drop_runes, runes-drop_suc, runes-drop,
  strip_prefix-length, strip_prefix,
}
use lark_bridge_agent_sdk.CardState.{Block, RunState}
use lark_bridge_agent_sdk.CardState.Blocks.{is_text}
use lark_bridge_agent_sdk.Presenter.Delta.{
  string_delta, block_delta, blocks_delta, card_state_delta,
}
use lark_bridge_agent_sdk.Presenter.Same.{same_block_refl}
use lark_bridge_agent_sdk.Presenter.Segment.{IsSegment}
use lark_bridge_agent_sdk.Presenter.Shown.{string_delta-append, string_delta-same}
use lark_bridge_agent_sdk.Presenter.Prefix.{with_content}
use lark_bridge_agent_sdk.Presenter.Cards.{IsCardPrefix}

unfoldable pub weight : List Block → ℕ
weight [] = 0
weight (b ∷ bs) = 1 + runes b.content + weight bs

-- The runes that a state has, and one for each block.
abbrev pub state_weight : RunState → ℕ
state_weight s = runes s.reasoning.content + weight s.blocks

block_delta-same : (b : Block) → block_delta b b ≡ []
unfolding block_delta
block_delta-same b =
    let nothing : is_empty (string_delta b.content b.content) ≡ true =
      ap is_empty (string_delta-same b.content) in
    ground (arith, same_block_refl b, nothing)

string_delta-length : (s t : String) → runes (string_delta s t) ≤ runes t
unfolding string_delta runes
string_delta-length s t = found (strip_prefix s t) refl
  where
    found :
        (o : Option String)
        → strip_prefix s t ≡ o
        → runes (elim o [ some rest ↦ rest | none ↦ if t == s then "" else t ]) ≤ runes t
    found (some r) e = strip_prefix-length s t r e
    found none e = if-lift (λ c. runes c ≤ runes t) (t == s) "" t (ground arith) (ground arith)

weight-append : (bs cs : List Block) → weight (bs ++ cs) ≡ weight bs + weight cs
unfolding weight
weight-append [] cs = ground arith
weight-append (b ∷ bs) cs = ground (arith, weight-append bs cs)

block_delta-weight : (p b : Block) → weight (block_delta p b) ≤ 1 + runes b.content
unfolding block_delta weight
block_delta-weight p b = ground (arith, string_delta-length p.content b.content)

blocks_delta-weight : (ps bs : List Block) → weight (blocks_delta ps bs) ≤ weight bs
unfolding blocks_delta weight
blocks_delta-weight ps [] = ground arith
blocks_delta-weight [] (b ∷ bs) = ground (arith, blocks_delta-weight [] bs)
blocks_delta-weight (p ∷ ps) (b ∷ bs) = ground (
  arith,
  weight-append (block_delta p b) (blocks_delta ps bs),
  block_delta-weight p b,
  blocks_delta-weight ps bs,
)

cut-weight :
    (n : ℕ) (b : Block)
    → is_text b.kind ≡ true
    → weight (block_delta (with_content b (take_runes (suc n) b.content)) b) ≤ runes b.content
unfolding block_delta weight
cut-weight n b h =
    let rest : string_delta (take_runes (suc n) b.content) b.content
        ≡ drop_runes (suc n) b.content =
      ap (string_delta (take_runes (suc n) b.content)) (sym (take-drop_runes (suc n) b.content))
      ∙ string_delta-append (take_runes (suc n) b.content) (drop_runes (suc n) b.content) in
    ground (arith, rest, runes-drop_suc n b.content)

segment-weight :
    (seg bs : List Block)
    → IsSegment false seg bs
    → (bs ≡ []) ⊎ (weight (blocks_delta seg bs) < weight bs)
unfolding blocks_delta weight
segment-weight _ _ (IsSegment.all _) = inl refl
segment-weight _ _ (IsSegment.whole _ b seg bs h) =
    inr (ground (arith, block_delta-same b, blocks_delta-weight seg bs))
segment-weight _ _ (IsSegment.part _ n b bs hb) = inr (
    ground (
      arith,
      weight-append (block_delta (with_content b (take_runes (suc n) b.content)) b)
          (blocks_delta [] bs),
      cut-weight n b hb,
      blocks_delta-weight [] bs,
    ))

shown_all : (bs : List Block) → blocks_delta bs bs ≡ []
unfolding blocks_delta
shown_all [] = refl
shown_all (b ∷ bs) = ground (arith, block_delta-same b, shown_all bs)

runes_positive : (s : String) → is_empty s ≡ false → 1 ≤ runes s
unfolding runes
runes_positive String.[] e = ground arith
runes_positive (String.◌∷◌ c t) e = ground arith

reasoning-weight :
    (n : ℕ) (content : String)
    → is_empty content ≡ false
    → runes (string_delta (take_runes (suc n) content) content) < runes content
unfolding runes
reasoning-weight n content h =
    let rest : string_delta (take_runes (suc n) content) content ≡ drop_runes (suc n) content =
      ap (string_delta (take_runes (suc n) content)) (sym (take-drop_runes (suc n) content))
      ∙ string_delta-append (take_runes (suc n) content) (drop_runes (suc n) content) in
    ground (arith, ap runes rest, runes-drop (suc n) content, runes_positive content h)

-- Without an error each card takes something of the state, or leaves nothing of it.
pub card_prefix-weight :
    (s r : RunState)
    → IsCardPrefix s r
    → is_blank s.error ≡ true
    → (state_weight (card_state_delta r s) ≡ 0)
      ⊎ (state_weight (card_state_delta r s) < state_weight s)
unfolding card_state_delta runes weight
card_prefix-weight _ _ (IsCardPrefix.everything s) h = inl (
    ground
      (arith, ap weight (shown_all s.blocks), ap runes (string_delta-same s.reasoning.content)))
card_prefix-weight _ _ (IsCardPrefix.blocks s seg e p) h =
    elim (segment-weight seg s.blocks (subst (λ b. IsSegment (not b) seg s.blocks) h p)) [
      | inl empty ↦ inl (
          ground (
            arith,
            ap runes (string_delta-same s.reasoning.content),
            ap runes e,
            ap weight empty,
            blocks_delta-weight seg s.blocks,
          ))
      | inr less ↦
          inr (ground (arith, string_delta-length s.reasoning.content s.reasoning.content, less))
    ]
card_prefix-weight _ _ (IsCardPrefix.reasoned s pausing seg e p) h = inr (
    ground (
      arith,
      ap runes (string_delta-same s.reasoning.content),
      runes_positive s.reasoning.content e,
      blocks_delta-weight seg s.blocks,
    ))
card_prefix-weight _ _ (IsCardPrefix.reasoning s n e) h =
    inr (ground (arith, reasoning-weight n s.reasoning.content e, blocks_delta-weight [] s.blocks))
