-- ===== src/Presenter/RollsEnd.antt =====
-- internal/app/impresenter/card_rollover.go: the loop of `flush` ends.
use lark_bridge_agent_sdk.Base.{
  ℕ, zero, suc, ◌<◌, ◌≤◌, ◌&&◌, String, ◌≡◌, refl, ap, ◌∙◌, ◌⊎◌, Bool, true, false, [], ◌∷◌, arith,
  if◌then◌else◌, if-lift, Result, ok, err, inl, inr, Option, none, some,
}
use lark_bridge_agent_sdk.Base.Text.{is_blank, is_empty}
use lark_bridge_agent_sdk.Presenter.{Input}
use lark_bridge_agent_sdk.Presenter.Content.{has_card_content, render_run_state}
use lark_bridge_agent_sdk.Presenter.Delta.{card_state_delta}
use lark_bridge_agent_sdk.Presenter.Prefix.{card_state_prefix}
use lark_bridge_agent_sdk.Presenter.Cards.{card_state_prefix-IsCardPrefix}
use lark_bridge_agent_sdk.Presenter.Weight.{state_weight, card_prefix-weight}
use lark_bridge_agent_sdk.Presenter.Split.Ends.{weightless_content}
use lark_bridge_agent_sdk.Presenter.Rollover.{
  CardStream, Channel, Change, rollover_to, Rolled, rolled, roll_failed, still_rolling,
  after_change, after_send, should_rollover, roll_over, update_published, after_update, or_update,
  flush,
}

abbrev pub Settles : Rolled → Type 0
Settles (rolled cs s) = Unit
Settles (roll_failed cs s e) = Unit
Settles (still_rolling cs s) = ⊥

abbrev pub pending_weight : CardStream → ℕ
pending_weight s = state_weight (card_state_delta s.published s.state)

after_change-Settles : (c : Change) (r : Rolled) → Settles r → Settles (after_change c r)
unfolding after_change
after_change-Settles c (rolled cs s) h = tt
after_change-Settles c (roll_failed cs s e) h = tt
after_change-Settles c (still_rolling cs s) h = elim h [ ]

after_send-Settles :
    (answer : Result String String) (s : CardStream) (next : String → Rolled)
    → ((id : String) → Settles (next id))
    → Settles (after_send answer s next)
unfolding after_send
after_send-Settles (ok id) s next h = h id
after_send-Settles (err e) s next h = tt

zero_or_positive : (n : ℕ) → (n ≡ 0) ⊎ (1 ≤ n)
zero_or_positive zero = inl refl
zero_or_positive (suc n) = inr (ground arith)

-- What is rolled over weighs something.
should_rollover-pending :
    (input : Input) (s : CardStream)
    → is_blank s.state.error ≡ true
    → should_rollover input s ≡ true
    → 1 ≤ pending_weight s
unfolding should_rollover card_state_delta
should_rollover-pending input s h roll =
    let pending = card_state_delta s.published s.state in
    elim (zero_or_positive (state_weight pending)) [
      | inl zeroed ↦
          let bare : has_card_content (render_run_state input pending) ≡ false =
            weightless_content input pending h zeroed in
          absurd (no_rollover _ (has_card_content (render_run_state input pending)) _ bare roll)
      | inr positive ↦ positive
    ]
  where
    no_rollover : (a content b : Bool) → content ≡ false → (a && content && b) ≡ true → ⊥
    no_rollover a content b h e = ground arith

rollover_to-weight :
    (input : Input) (can_update : Bool) (s : CardStream) (id : String)
    → is_blank s.state.error ≡ true
    → (pending_weight (rollover_to input can_update s id).1 ≡ 0)
      ⊎ (pending_weight (rollover_to input can_update s id).1 < pending_weight s)
unfolding rollover_to card_state_delta
rollover_to-weight input can_update s id h =
    let pending = card_state_delta s.published s.state in
    card_prefix-weight pending (card_state_prefix input pending)
      (card_state_prefix-IsCardPrefix input pending) h

rollover_to-error :
    (input : Input) (can_update : Bool) (s : CardStream) (id : String)
    → (rollover_to input can_update s id).1.state.error ≡ s.state.error
unfolding rollover_to card_state_delta
rollover_to-error input can_update s id = refl

lighter : (w m fuel : ℕ) → w < suc fuel → 1 ≤ w → (m ≡ 0) ⊎ (m < w) → m < fuel
lighter w m fuel h p (inl zeroed) = ground arith
lighter w m fuel h p (inr less) = ground arith

roll_over-Settles :
    (input : Input) (channel : Channel) (fuel n : ℕ) (s : CardStream)
    → is_blank s.state.error ≡ true
    → pending_weight s < fuel
    → Settles (roll_over input channel (λ r. r) fuel n s)
unfolding roll_over
roll_over-Settles input channel zero n s h w = ground arith
roll_over-Settles input channel (suc fuel) n s h w =
    settled (should_rollover input s) refl (λ roll id.
      let to = rollover_to input channel.can_update s id in
      roll_over-Settles input channel fuel (suc n) to.1
        (ap is_blank (rollover_to-error input channel.can_update s id) ∙ h)
        (lighter (pending_weight s) (pending_weight to.1) fuel w
          (should_rollover-pending input s h roll)
          (rollover_to-weight input channel.can_update s id h)))
  where
    next : String → Rolled
    next id =
        let (change, s') = rollover_to input channel.can_update s id in
        after_change change (roll_over input channel (λ r. r) fuel (suc n) s')

    settled :
        (roll : Bool)
        → should_rollover input s ≡ roll
        → (should_rollover input s ≡ true
            → (id : String)
            → Settles (
                roll_over input channel
                  (λ r. r)
                  fuel
                  (suc n)
                  (rollover_to input channel.can_update s id).1))
        → Settles (if roll then after_send (channel.sends n) s next else rolled [] s)
    settled false e again = tt
    settled true e again = after_send-Settles (channel.sends n) s next (λ id.
        after_change-Settles (rollover_to input channel.can_update s id).0
          (roll_over input channel (λ r. r) fuel (suc n)
            (rollover_to input channel.can_update s id).1)
          (again e id))

after_update-Settles :
    (answer : Option String) (s updated : CardStream) → Settles (after_update answer s updated)
after_update-Settles none s updated = tt
after_update-Settles (some e) s updated = tt

or_update-Settles : (channel : Channel) (r : Rolled) → Settles r → Settles (or_update channel r)
unfolding or_update update_published
or_update-Settles channel (rolled [] s) h =
    if-lift Settles channel.can_update _ _ (after_update-Settles channel.update_error s _) tt
or_update-Settles channel (rolled (c ∷ cs) s) h = tt
or_update-Settles channel (roll_failed cs s e) h = tt
or_update-Settles channel (still_rolling cs s) h = elim h [ ]

-- While the run has no error a flush ends, whatever the channel answers and whatever the limits
-- are: one more round than the text that the card does not show yet has runes and blocks is enough.
pub flush-Settles :
    (input : Input) (channel : Channel) (fuel : ℕ) (s : CardStream)
    → is_blank s.state.error ≡ true
    → pending_weight s < fuel
    → Settles (flush input channel fuel s)
unfolding flush
flush-Settles input channel fuel s h w =
    if-lift Settles (is_empty s.message_id) (rolled [] s)
      (or_update channel (roll_over input channel (λ r. r) fuel 0 s)) tt
      (or_update-Settles channel (roll_over input channel (λ r. r) fuel 0 s)
        (roll_over-Settles input channel fuel 0 s h w))
