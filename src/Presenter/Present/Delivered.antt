-- ===== src/Presenter/Present/Delivered.antt =====
-- internal/app/impresenter/presenter.go: what the cards show once `Present` has returned.
use lark_bridge_agent_sdk.Base.{ℕ, Bool, ◌≡◌, none, some, List, [], ◌∷◌, String, ◌⊎◌}
use lark_bridge_agent_sdk.CardState.{RunState}
use lark_bridge_agent_sdk.CardState.Blocks.{append_text}
use lark_bridge_agent_sdk.CardState.Transcript.{text_of}
use lark_bridge_agent_sdk.Presenter.Content.{render_run_state}
use lark_bridge_agent_sdk.Presenter.Rollover.{updates}
use lark_bridge_agent_sdk.Presenter.Mirror.{ShowsStart, shown, text_of_all}
use lark_bridge_agent_sdk.Presenter.Split.Delivered.{Delivers}
use lark_bridge_agent_sdk.Presenter.Present.{Setup, Presenting, input_of}
use lark_bridge_agent_sdk.Presenter.Present.Conclude.{
  EndAnswers, Delivery, split_cards, cards_failed, card_updated, card_sent, Presented,
}

-- What the channel shows on the cards before the newest.
abbrev pub before_newest : List String → List String
before_newest [] = []
before_newest (t ∷ ts) = ts

module _ (taken : ℕ → Bool) where
  -- What was delivered, where the channel took it, and what it shows where it did not: an update that
  -- was taken completes what the channel shows to the text of the run; a new card shows the text
  -- whole, or what the cards before the newest lack; and after a refusal a start of the text is shown.
  abbrev pub Whole : Setup → EndAnswers → Presenting → RunState → Delivery → Type 0
  Whole setup a p s (card_updated id card none) =
      text_of_all (shown taken (updates card none ∷ p.card.calls)) ≡ text_of s.blocks
  Whole setup a p s (card_updated id card (some e)) = ShowsStart taken p.card (text_of s.blocks)
  Whole setup a p s (card_sent card answer) =
      (text_of card.blocks ≡ text_of s.blocks)
      ⊎ (append_text (text_of_all (before_newest (shown taken p.card.calls))) (text_of card.blocks)
          ≡ text_of s.blocks)
  Whole setup a p s (split_cards outcome) =
      Delivers (input_of setup p) (render_run_state (input_of setup p) s) outcome
  Whole setup a p s (cards_failed r) = ShowsStart taken p.card (text_of s.blocks)
  Whole setup a p s _ = Unit

  abbrev pub IsWhole : Setup → EndAnswers → Presented → Type 0
  IsWhole setup a r = Whole setup a r.presenting r.state r.delivery
