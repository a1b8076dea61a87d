-- ===== src/Presenter/Segment.antt =====
-- internal/app/impresenter/card_rollover.go: the blocks that `cardStatePrefix` takes.
use mathlib.Core.List.{append_assoc as ++_assoc, append-nil as ++-nil}
use lark_bridge_agent_sdk.Base.{
  ℕ, zero, suc, ◌≤◌, String, ◌≡◌, refl, sym, ap, subst, ◌∙◌, Bool, true, false, not, ◌&&◌, ◌||◌,
  List, [], ◌∷◌, ◌++◌, arith, if◌then◌else◌, if-lift, Bool-cases, inl, inr,
}
use lark_bridge_agent_sdk.Base.Text.{is_empty, runes, take_runes, drop_runes, take-drop_runes}
use lark_bridge_agent_sdk.CardState.{Block, RunState}
use lark_bridge_agent_sdk.CardState.Blocks.{is_text}
use lark_bridge_agent_sdk.Presenter.Content.{has_card_content}
use lark_bridge_agent_sdk.Presenter.Prefix.{
  add_block, with_content, fitting_length, fitting_string_prefix, cut_block, last_block, fill,
}
use lark_bridge_agent_sdk.Presenter.Shown.{IsShown}

-- The blocks at the start of a list, the last one cut or not. `pausing` says whether there may be
-- none of a list that is not empty.
pub data IsSegment : Bool → List Block → List Block → Type 0 where
  all : (pausing : Bool) → IsSegment pausing [] []
  pause : (b : Block) (bs : List Block) → IsSegment true [] (b ∷ bs)
  whole :
      (pausing : Bool) (b : Block) (seg bs : List Block)
      → IsSegment true seg bs
      → IsSegment pausing (b ∷ seg) (b ∷ bs)
  part :
      (pausing : Bool) (n : ℕ) (b : Block) (bs : List Block)
      → is_text b.kind ≡ true
      → IsSegment pausing (with_content b (take_runes (suc n) b.content) ∷ []) (b ∷ bs)

pub segment-IsShown :
    (pausing : Bool) (seg bs : List Block) → IsSegment pausing seg bs → IsShown seg bs
segment-IsShown _ _ _ (IsSegment.all pausing) = IsShown.nothing []
segment-IsShown _ _ _ (IsSegment.pause b bs) = IsShown.nothing (b ∷ bs)
segment-IsShown _ _ _ (IsSegment.whole pausing b seg bs h) = elim (Bool-cases (is_text b.kind)) [
  | inl hb ↦ IsShown.same b b seg bs hb hb refl (segment-IsShown true seg bs h)
  | inr hb ↦ IsShown.panel b b seg bs hb hb (segment-IsShown true seg bs h)
]
segment-IsShown _ _ _ (IsSegment.part pausing n b bs hb) =
    IsShown.last (with_content b (take_runes (suc n) b.content)) b bs (drop_runes (suc n) b.content)
      hb hb (sym (take-drop_runes (suc n) b.content))

loosen : (pausing : Bool) (seg bs : List Block) → IsSegment pausing seg bs → IsSegment true seg bs
loosen _ _ _ (IsSegment.all pausing) = IsSegment.all true
loosen _ _ _ (IsSegment.pause b bs) = IsSegment.pause b bs
loosen _ _ _ (IsSegment.whole pausing b seg bs h) = IsSegment.whole true b seg bs h
loosen _ _ _ (IsSegment.part pausing n b bs hb) = IsSegment.part true n b bs hb

predecessor : (n : ℕ) → 1 ≤ n → (m : ℕ) × (n ≡ suc m)
predecessor zero h = ground arith
predecessor (suc m) h = (m, refl)

pub fitting_length-suc : (fits : ℕ → Bool) (n : ℕ) → (m : ℕ) × (fitting_length fits (suc n) ≡ suc m)
unfolding fitting_length
fitting_length-suc fits n = predecessor (fitting_length fits (suc n)) (ground arith)

-- A cut takes a rune of a text that has one.
pub fitting_string_prefix-take :
    (fits : String → Bool) (content : String)
    → (n : ℕ) × (fitting_string_prefix fits content ≡ take_runes (suc n) content)
unfolding fitting_string_prefix fitting_length take_runes runes
fitting_string_prefix-take fits String.[] = (0, refl)
fitting_string_prefix-take fits (String.◌∷◌ c s) =
    let (n, h) = fitting_length-suc (λ n. fits (take_runes n (String.◌∷◌ c s))) (runes s) in
    (n, ap (λ m. take_runes m (String.◌∷◌ c s)) h)

abbrev pub with_blocks : RunState → List Block → RunState
with_blocks s bs = record s { blocks = bs }

-- A card that is filled: the state that it had and a segment of the blocks.
abbrev pub Filled : RunState → List Block → RunState → Type 0
Filled prefix bs r =
    (seg : List Block) × (r ≡ with_blocks prefix (prefix.blocks ++ seg))
    × IsSegment (has_card_content prefix) seg bs

none-IsSegment : (bs : List Block) → IsSegment true [] bs
none-IsSegment [] = IsSegment.all true
none-IsSegment (b ∷ bs) = IsSegment.pause b bs

taken-IsSegment :
    (pausing : Bool) (fits : RunState → Bool) (prefix : RunState) (b : Block) (bs : List Block)
    → (is : Bool) → is_text b.kind ≡ is
    → IsSegment pausing ((if is then cut_block fits prefix b else b) ∷ []) (b ∷ bs)
unfolding cut_block
taken-IsSegment pausing fits prefix b bs true e =
    let (n, h) =
      fitting_string_prefix-take (λ c. fits (add_block prefix (with_content b c))) b.content in
    subst (λ c. IsSegment pausing (with_content b c ∷ []) (b ∷ bs)) (sym h)
      (IsSegment.part pausing n b bs e)
taken-IsSegment pausing fits prefix b bs false e =
    IsSegment.whole pausing b [] bs (none-IsSegment bs)

-- The end of a card: the block that was taken, or nothing where the card shows something.
take_or_pause :
    (prefix : RunState) (taken b : Block) (bs : List Block)
    → IsSegment (has_card_content prefix) (taken ∷ []) (b ∷ bs)
    → (forced has : Bool) → has_card_content prefix ≡ has
    → Filled prefix (b ∷ bs) (if forced || not has then add_block prefix taken else prefix)
take_or_pause prefix taken b bs seg true has e = (taken ∷ [], refl, seg)
take_or_pause prefix taken b bs seg false true e = (
  [],
  ap (with_blocks prefix) (sym (++-nil prefix.blocks)),
  subst (λ pausing. IsSegment pausing [] (b ∷ bs)) (sym e) (IsSegment.pause b bs),
)
take_or_pause prefix taken b bs seg false false e = (taken ∷ [], refl, seg)

last_block-Filled :
    (fits : RunState → Bool) (prefix : RunState) (b : Block) (bs : List Block)
    → Filled prefix (b ∷ bs) (last_block fits prefix b)
unfolding last_block
last_block-Filled fits prefix b bs =
    let is = is_text b.kind in
    let taken = if is then cut_block fits prefix b else b in
    take_or_pause prefix taken b bs
      (taken-IsSegment (has_card_content prefix) fits prefix b bs is refl)
      (is && not (is_empty taken.content)) (has_card_content prefix) refl

pub fill-Filled :
    (fits : RunState → Bool) (prefix : RunState) (bs : List Block)
    → Filled prefix bs (fill fits prefix bs)
unfolding fill
fill-Filled fits prefix [] = (
  [],
  ap (with_blocks prefix) (sym (++-nil prefix.blocks)),
  IsSegment.all (has_card_content prefix),
)
fill-Filled fits prefix (b ∷ bs) =
    if-lift (Filled prefix (b ∷ bs)) (fits (add_block prefix b)) (fill fits (add_block prefix b) bs)
      (last_block fits prefix b) (more (fill-Filled fits (add_block prefix b) bs))
      (last_block-Filled fits prefix b bs)
  where
    more :
        Filled (add_block prefix b) bs (fill fits (add_block prefix b) bs)
        → Filled prefix (b ∷ bs) (fill fits (add_block prefix b) bs)
    more (seg, r, h) = (
      b ∷ seg,
      r ∙ ap (with_blocks prefix) (++_assoc prefix.blocks (b ∷ []) seg),
      IsSegment.whole (has_card_content prefix) b seg bs
          (loosen (has_card_content (add_block prefix b)) seg bs h),
    )
