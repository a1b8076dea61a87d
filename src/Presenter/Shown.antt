-- ===== src/Presenter/Shown.antt =====
-- internal/app/impresenter/card_rollover.go: what a card shows and what is left make up the text.
use package.text.Mathlib.TextLemmas.{append_assoc, append-nil, nil-append}
use lark_bridge_agent_sdk.Base.{
  String, ◌≡◌, refl, sym, ap, ◌∙◌, Bool, true, false, List, [], ◌∷◌, ◌++◌, arith,
}
use lark_bridge_agent_sdk.Base.Text.{strip_prefix-append, is_empty, is_empty-eq}
use lark_bridge_agent_sdk.CardState.{Block}
use lark_bridge_agent_sdk.CardState.Blocks.{is_text, append_text}
use lark_bridge_agent_sdk.CardState.Transcript.{text_of}
use lark_bridge_agent_sdk.Presenter.Delta.{string_delta, block_delta, blocks_delta}

-- The blocks of a card, and the blocks of a later state whose text starts with the card's.
pub data IsShown : List Block → List Block → Type 0 where
  nothing : (bs : List Block) → IsShown [] bs
  last :
      (p b : Block) (bs : List Block) (rest : String)
      → is_text p.kind ≡ true
      → is_text b.kind ≡ true
      → b.content ≡ append_text p.content rest
      → IsShown (p ∷ []) (b ∷ bs)
  same :
      (p b : Block) (ps bs : List Block)
      → is_text p.kind ≡ true
      → is_text b.kind ≡ true
      → b.content ≡ p.content
      → IsShown ps bs
      → IsShown (p ∷ ps) (b ∷ bs)
  panel :
      (p b : Block) (ps bs : List Block)
      → is_text p.kind ≡ false
      → is_text b.kind ≡ false
      → IsShown ps bs
      → IsShown (p ∷ ps) (b ∷ bs)

pub string_delta-append : (s t : String) → string_delta s (append_text s t) ≡ t
unfolding string_delta
string_delta-append s t = ground (arith, strip_prefix-append s t)

pub string_delta-same : (s : String) → string_delta s s ≡ ""
string_delta-same s = ap (string_delta s) (sym (append-nil s)) ∙ string_delta-append s ""

pub blocks_delta-nothing : (bs : List Block) → blocks_delta [] bs ≡ bs
unfolding blocks_delta
blocks_delta-nothing [] = refl
blocks_delta-nothing (b ∷ bs) = ap (◌∷◌ b) (blocks_delta-nothing bs)

-- The text of a block that is shown in part is the text of its delta.
text_of-rest :
    (p b : Block) (rest : String) (bs : List Block)
    → is_text p.kind ≡ true
    → is_text b.kind ≡ true
    → b.content ≡ append_text p.content rest
    → text_of (block_delta p b ++ bs) ≡ append_text rest (text_of bs)
unfolding block_delta
text_of-rest p b rest bs hp hb h = cut (is_empty rest) refl
  where
    delta : string_delta p.content b.content ≡ rest
    delta = ap (string_delta p.content) h ∙ string_delta-append p.content rest

    cut :
        (e : Bool)
        → is_empty rest ≡ e
        → text_of (block_delta p b ++ bs) ≡ append_text rest (text_of bs)
    cut true he = ground (arith, delta, is_empty-eq rest he, nil-append (text_of bs))
    cut false he = ground (arith, delta)

text_of-panel :
    (p b : Block) (bs : List Block)
    → is_text b.kind ≡ false
    → text_of (block_delta p b ++ bs) ≡ text_of bs
unfolding block_delta
text_of-panel p b bs hb = ground (arith, nil-append (text_of bs))

pub IsShown-text_of :
    (ps bs : List Block)
    → IsShown ps bs
    → append_text (text_of ps) (text_of (blocks_delta ps bs)) ≡ text_of bs
unfolding blocks_delta
IsShown-text_of _ _ (IsShown.nothing bs) =
    nil-append (text_of (blocks_delta [] bs)) ∙ ap text_of (blocks_delta-nothing bs)
IsShown-text_of _ _ (IsShown.last p b bs rest hp hb h) = ground (
  arith,
  text_of-rest p b rest (blocks_delta [] bs) hp hb h,
  append-nil p.content,
  append_assoc p.content rest (text_of bs),
  blocks_delta-nothing bs,
)
IsShown-text_of _ _ (IsShown.same p b ps bs hp hb h shown) = ground (
  arith,
  text_of-rest p b "" (blocks_delta ps bs) hp hb (h ∙ sym (append-nil p.content)),
  nil-append (text_of (blocks_delta ps bs)),
  append_assoc p.content (text_of ps) (text_of (blocks_delta ps bs)),
  IsShown-text_of ps bs shown,
)
IsShown-text_of _ _ (IsShown.panel p b ps bs hp hb shown) = ground (
  arith,
  text_of-panel p b (blocks_delta ps bs) hb,
  nil-append (text_of ps),
  nil-append (text_of bs),
  IsShown-text_of ps bs shown,
)
