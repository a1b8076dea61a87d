-- ===== src/Presenter/Mirror.antt =====
-- internal/app/impresenter/card_rollover.go: what the channel shows, read from the calls that it took.
use package.text.Mathlib.TextLemmas.{append_assoc}
use lark_bridge_agent_sdk.Base.{
  ℕ, zero, suc, ◌+◌, String, ◌≡◌, sym, ap, subst, ◌∙◌, Bool, true, false, not, ◌&&◌, Option, none,
  some, List, [], ◌∷◌, if-lift, if◌then◌else◌, length, Result, ok, err,
}
use lark_bridge_agent_sdk.Base.Text.{is_empty}
use lark_bridge_agent_sdk.CardState.{Event, RunState}
use lark_bridge_agent_sdk.CardState.Blocks.{append_text}
use lark_bridge_agent_sdk.CardState.Transcript.{text_of, text_of-close, reduce-text_of, delta_of}
use lark_bridge_agent_sdk.Presenter.{Input}
use lark_bridge_agent_sdk.Presenter.Delta.{card_state_delta}
use lark_bridge_agent_sdk.Presenter.Prefix.{card_state_prefix}
use lark_bridge_agent_sdk.Presenter.Cards.{card_state_prefix-IsCardPrefix}
use lark_bridge_agent_sdk.Presenter.Shown.{IsShown, IsShown-text_of}
use lark_bridge_agent_sdk.Presenter.Split.Delivered.{prefix-IsShown, itself-IsShown}
use lark_bridge_agent_sdk.Presenter.Grows.{IsShown-close_streaming, IsShown-reduce}
use lark_bridge_agent_sdk.Presenter.Rollover.{
  CardStream, CardCall, sends, updates, closes, Channel, Change, rollover_to, continued_state,
  Rolled, rolled, roll_failed, still_rolling, after_change, after_send, after_update,
  should_rollover, roll_over, update_published, or_update, flush, apply_final_state, prepare_final,
  reduce_stream,
}

-- The card shows a start of the blocks that the stream holds.
abbrev pub InStep : CardStream → Type 0
InStep s = IsShown s.published.blocks s.state.blocks

abbrev replace_first : String → List String → List String
replace_first t [] = []
replace_first t (old ∷ ts) = t ∷ ts

abbrev replace_second : String → List String → List String
replace_second t [] = []
replace_second t (newest ∷ ts) = newest ∷ replace_first t ts

-- The texts that the cards show after the calls, the newest card first: a new card that was taken
-- shows its state, and an update that was taken replaces what the newest card shows. Whether the
-- update that closes a card was taken, which the code does not ask, is `taken`.
unfoldable pub shown : (ℕ → Bool) → List CardCall → List String
shown taken [] = []
shown taken (sends s (ok id) ∷ calls) = text_of s.blocks ∷ shown taken calls
shown taken (sends s (err e) ∷ calls) = shown taken calls
shown taken (updates s none ∷ calls) = replace_first (text_of s.blocks) (shown taken calls)
shown taken (updates s (some e) ∷ calls) = shown taken calls
shown taken (closes s ∷ calls) =
    if taken (length calls)
    then replace_second (text_of s.blocks) (shown taken calls)
    else shown taken calls

-- All cards, in the order in which they were sent.
unfoldable pub text_of_all : List String → String
text_of_all [] = ""
text_of_all (t ∷ ts) = append_text (text_of_all ts) t

-- The newest card shows what the stream has as published; the cards before it and the state of the
-- stream are the text `said`.
abbrev pub Mirrors : (ℕ → Bool) → CardStream → String → Type 0
Mirrors taken s said =
    (before : List String) × (shown taken s.calls ≡ text_of s.published.blocks ∷ before)
    × (append_text (text_of_all before) (text_of s.state.blocks) ≡ said)
    × InStep s

abbrev pub MirrorsTo : (ℕ → Bool) → Rolled → String → Type 0
MirrorsTo taken (rolled cs s) said = Mirrors taken s said
MirrorsTo taken (roll_failed cs s e) said = Mirrors taken s said
MirrorsTo taken (still_rolling cs s) said = Mirrors taken s said

module _ (taken : ℕ → Bool) where
  pub reduce_stream-Mirrors :
      (s : CardStream) (said : String) (e : Event)
      → Mirrors taken s said
      → Mirrors taken (reduce_stream s e) (append_text said (delta_of e.type e))
  reduce_stream-Mirrors s said e (before, shows, t, step) = (
    before,
    shows,
    ap (append_text (text_of_all before)) (reduce-text_of s.state e)
        ∙ sym (append_assoc (text_of_all before) (text_of s.state.blocks) (delta_of e.type e))
        ∙ ap (λ c. append_text c (delta_of e.type e)) t,
    IsShown-reduce s.published.blocks s.state e step,
  )

  rollover_to-shown :
      (can_close : Bool) (next published : RunState) (id : String) (calls : List CardCall)
      (before : List String)
      → shown taken calls ≡ text_of published.blocks ∷ before
      → shown taken (
          if can_close
          then closes (continued_state published) ∷ sends next (ok id) ∷ calls
          else sends next (ok id) ∷ calls)
        ≡ text_of next.blocks ∷ text_of published.blocks ∷ before
  unfolding shown continued_state
  rollover_to-shown false next published id calls before h = ap (λ ts. text_of next.blocks ∷ ts) h
  rollover_to-shown true next published id calls before h =
      if-lift {A = List String} (λ ts. ts ≡ text_of next.blocks ∷ text_of published.blocks ∷ before)
        (taken (suc (length calls))) _ _
        (ap
            (λ ts.
              text_of next.blocks ∷ replace_first (text_of (continued_state published).blocks) ts)
            h
          ∙ ap (λ t. text_of next.blocks ∷ t ∷ before) (text_of-close published.blocks))
        (ap (λ ts. text_of next.blocks ∷ ts) h)

  rollover_to-Mirrors :
      (input : Input) (can_update : Bool) (s : CardStream) (id said : String)
      → Mirrors taken s said
      → Mirrors taken (rollover_to input can_update s id).1 said
  unfolding rollover_to card_state_delta text_of_all
  rollover_to-Mirrors input can_update s id said (before, shows, t, step) =
      let pending = card_state_delta s.published s.state in
      let next = card_state_prefix input pending in
      let old = text_of s.published.blocks in
      (
        old ∷ before,
        rollover_to-shown (can_update && not (is_empty s.message_id)) next s.published id s.calls
            before shows,
        append_assoc (text_of_all before) old (text_of pending.blocks)
            ∙ ap (append_text (text_of_all before))
                (IsShown-text_of s.published.blocks s.state.blocks step)
            ∙ t,
        prefix-IsShown pending next (card_state_prefix-IsCardPrefix input pending),
      )

  after_change-Mirrors :
      (said : String) (r : Rolled)
      → MirrorsTo taken r said
      → (c : Change) → MirrorsTo taken (after_change c r) said
  unfolding after_change
  after_change-Mirrors said (rolled cs s) h c = h
  after_change-Mirrors said (roll_failed cs s e) h c = h
  after_change-Mirrors said (still_rolling cs s) h c = h

  after_send-Mirrors :
      (said : String) (s : CardStream) (next : String → Rolled) (answer : Result String String)
      → Mirrors taken s said
      → ((id : String) → MirrorsTo taken (next id) said)
      → MirrorsTo taken (after_send answer s next) said
  unfolding after_send
  after_send-Mirrors said s next (ok id) h mirrors = mirrors id
  after_send-Mirrors said s next (err e) h mirrors = h

  -- What is done between two rounds changes no text.
  abbrev Quiet : (CardStream → CardStream) → Type 0
  Quiet between =
      (said : String) (s : CardStream) → Mirrors taken s said → Mirrors taken (between s) said

  roll_over-Mirrors :
      (input : Input) (channel : Channel) (between : CardStream → CardStream)
      → Quiet between
      → (fuel n : ℕ) (said : String) (s : CardStream) → Mirrors taken s said
      → MirrorsTo taken (roll_over input channel between fuel n s) said
  unfolding roll_over
  roll_over-Mirrors input channel between quiet zero n said s h = h
  roll_over-Mirrors input channel between quiet (suc fuel) n said s h =
      if-lift (λ r. MirrorsTo taken r said) (should_rollover input s) _ (rolled [] s)
        (after_send-Mirrors said s _ (channel.sends n) h (λ id.
          let to = rollover_to input channel.can_update s id in
          let next = between to.1 in
          after_change-Mirrors said (roll_over input channel between fuel (suc n) next)
            (roll_over-Mirrors input channel between quiet fuel (suc n) said next
              (quiet said to.1 (rollover_to-Mirrors input channel.can_update s id said h)))
            to.0))
        h

  or_update-Mirrors :
      (channel : Channel) (said : String) (r : Rolled)
      → channel.can_update ≡ true
      → MirrorsTo taken r said
      → MirrorsTo taken (or_update channel r) said
  unfolding or_update update_published shown
  or_update-Mirrors channel said (rolled [] s) can (before, shows, t, step) =
      subst
        (λ b.
          MirrorsTo taken
            (if b then after_update channel.update_error s updated else rolled [] updated) said)
        (sym can) (answered channel.update_error)
    where
      updated : CardStream
      updated = record s { published = s.state; successful_updates = s.successful_updates + 1 }

      answered : (o : Option String) → MirrorsTo taken (after_update o s updated) said
      answered none = (
        before,
        ap (replace_first (text_of s.state.blocks)) shows,
        t,
        itself-IsShown s.state.blocks,
      )
      answered (some e) = (before, shows, t, step)
  or_update-Mirrors channel said (rolled (c ∷ cs) s) can h = h
  or_update-Mirrors channel said (roll_failed cs s e) can h = h
  or_update-Mirrors channel said (still_rolling cs s) can h = h

  pub flush-Mirrors :
      (input : Input) (channel : Channel) (fuel : ℕ) (said : String) (s : CardStream)
      → channel.can_update ≡ true
      → Mirrors taken s said
      → MirrorsTo taken (flush input channel fuel s) said
  unfolding flush
  flush-Mirrors input channel fuel said s can h =
      if-lift (λ r. MirrorsTo taken r said) (is_empty s.message_id) (rolled [] s)
        (or_update channel (roll_over input channel (λ r. r) fuel 0 s)) h
        (or_update-Mirrors channel said (roll_over input channel (λ r. r) fuel 0 s) can
          (roll_over-Mirrors input channel (λ r. r) (λ t r k. k) fuel 0 said s h))

  apply_final_state-Quiet : (final : RunState) → Quiet (apply_final_state final)
  unfolding apply_final_state
  apply_final_state-Quiet final said s (before, shows, t, step) =
      if-lift {A = CardStream} (λ r. Mirrors taken r said) (is_empty s.message_id) s _
        (before, shows, t, step)
        (
          before,
          shows,
          ap (append_text (text_of_all before)) (text_of-close s.state.blocks) ∙ t,
          IsShown-close_streaming s.published.blocks s.state.blocks step,
        )

  pub prepare_final-Mirrors :
      (input : Input) (channel : Channel) (final : RunState) (fuel : ℕ) (said : String)
      (s : CardStream)
      → Mirrors taken s said
      → MirrorsTo taken (prepare_final input channel final fuel s) said
  unfolding prepare_final
  prepare_final-Mirrors input channel final fuel said s h =
      roll_over-Mirrors input channel (apply_final_state final) (apply_final_state-Quiet final) fuel
        0 said (apply_final_state final s) (apply_final_state-Quiet final said s h)

  -- What the channel shows, and what the stream has not published yet.
  pub shown_and_pending :
      (s : CardStream) (said : String)
      → Mirrors taken s said
      → append_text
          (text_of_all (shown taken s.calls))
          (text_of (card_state_delta s.published s.state).blocks)
        ≡ said
  unfolding text_of_all card_state_delta
  shown_and_pending s said (before, shows, t, step) =
      let rest = text_of (card_state_delta s.published s.state).blocks in
      ap (λ ts. append_text (text_of_all ts) rest) shows
      ∙ append_assoc (text_of_all before) (text_of s.published.blocks) rest
      ∙ ap (append_text (text_of_all before))
          (IsShown-text_of s.published.blocks s.state.blocks step)
      ∙ t

  -- What the channel shows is a start of the text.
  abbrev pub ShowsStart : CardStream → String → Type 0
  ShowsStart s said =
      (rest : String) × (append_text (text_of_all (shown taken s.calls)) rest ≡ said)

  pub Mirrors-ShowsStart :
      (s : CardStream) (said : String) → Mirrors taken s said → ShowsStart s said
  Mirrors-ShowsStart s said h =
      (text_of (card_state_delta s.published s.state).blocks, shown_and_pending s said h)

  -- Once an update to the state of the stream is taken, the channel shows all.
  pub shown_after_update :
      (s : CardStream) (said : String)
      → Mirrors taken s said
      → text_of_all (shown taken (updates s.state none ∷ s.calls)) ≡ said
  unfolding text_of_all shown
  shown_after_update s said (before, shows, t, step) =
      ap (λ ts. text_of_all (replace_first (text_of s.state.blocks) ts)) shows ∙ t
