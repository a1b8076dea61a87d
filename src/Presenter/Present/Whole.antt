-- ===== src/Presenter/Present/Whole.antt =====
-- internal/app/impresenter/presenter.go: the cards that `Present` keeps, and the text of its run.
use package.text.Mathlib.TextLemmas.{nil-append}
use lark_bridge_agent_sdk.Base.{
  ℕ, ◌≡◌, refl, sym, ap, subst, ◌∙◌, Bool, true, false, not, ◌&&◌, Option, none, some, List, [],
  ◌∷◌, if-lift, if◌then◌else◌, arith, String, Result, ok, err, ◌⊎◌, inl, inr,
}
use lark_bridge_agent_sdk.Base.Text.{is_empty}
use lark_bridge_agent_sdk.CardState.{
  EventType, Event, RunState, system, text, user_action, thinking, tool_use, tool_result, usage,
  done, error, other_event,
}
use lark_bridge_agent_sdk.CardState.Blocks.{append_text}
use lark_bridge_agent_sdk.CardState.Reduce.{reduce}
use lark_bridge_agent_sdk.CardState.Transcript.{text_of, reduce-text_of, delta_of}
use lark_bridge_agent_sdk.Agents.{AgentEvent, to_card_event}
use lark_bridge_agent_sdk.Presenter.{reply_card}
use lark_bridge_agent_sdk.Presenter.Content.{is_active, track_tool_flight}
use lark_bridge_agent_sdk.Presenter.Markdown.Finish.{if-false}
use lark_bridge_agent_sdk.Presenter.Split.Delivered.{itself-IsShown}
use lark_bridge_agent_sdk.Presenter.Rollover.{
  CardStream, Rolled, rolled, roll_failed, still_rolling, flush, reduce_stream,
}
use lark_bridge_agent_sdk.Presenter.Mirror.{
  Mirrors, MirrorsTo, shown, text_of_all, flush-Mirrors, reduce_stream-Mirrors,
}
use lark_bridge_agent_sdk.Presenter.Present.{
  Setup, StepAnswers, Presenting, Loop, Arrival, context_done, idle_fires, events_closed, resumes,
  arrives, begin, new_presenting, start_progress, start_in, started_card, or_deferred,
  resume_progress, received, note_action, on_event, arrive, present_loop, stream_card,
  stream_markdown, mode_of, flushed, input_of, should_stream_card_update, separate_final,
  is_separate_answer, with_done, after_messages, progress_of, should_stream_markdown_update,
}
use lark_bridge_agent_sdk.Presenter.Markdown as Messages
use lark_bridge_agent_sdk.Presenter.Present.Steps.{InLoop, unless_hung-InLoop, present_loop-keeps}

not_separate :
    (setup : Setup) (e : AgentEvent) (t : EventType)
    → separate_final setup ≡ false
    → is_separate_answer setup e t ≡ false
not_separate setup e t h = ground arith

module _ (taken : ℕ → Bool) where
  -- No card was sent; the stream holds the text of the run.
  abbrev pub Unsent : Presenting → Type 0
  Unsent p =
      (shown taken p.card.calls ≡ [])
      × (is_empty p.card.message_id ≡ true)
      × (text_of p.card.state.blocks ≡ text_of p.state.blocks)

  -- Where the cards are deferred none was sent, and otherwise the channel shows those of the stream.
  abbrev pub Cards : Presenting → Type 0
  Cards p =
      ((p.defer_until_done ≡ true) × Unsent p)
      ⊎ ((p.defer_until_done ≡ false) × Mirrors taken p.card (text_of p.state.blocks))

  -- What the steps of the loop keep where no answer is sent apart from the progress.
  abbrev pub Kept : Presenting → Type 0
  Kept p = Cards p × (p.final_answer_only ≡ false)

  flushed-Kept :
      (a : StepAnswers) (r : Rolled) (p : Presenting)
      → p.defer_until_done ≡ false
      → MirrorsTo taken r (text_of p.state.blocks)
      → p.final_answer_only ≡ false
      → Kept (flushed a r p)
  flushed-Kept a (rolled cs s) p d m f = (inr (d, m), f)
  flushed-Kept a (roll_failed cs s e) p d m f = (inr (d, m), f)
  flushed-Kept a (still_rolling cs s) p d m f = (inr (d, m), f)

  stream_card-Kept :
      (setup : Setup) (a : StepAnswers) (p : Presenting) → Kept p → Kept (stream_card setup a p)
  unfolding stream_card
  stream_card-Kept setup a p (inl (d, u), f) =
      if-false {A = Presenting} Kept (not p.defer_until_done && should_stream_card_update setup a p)
        _ _ (ground (arith, d)) (inl (d, u), f)
  stream_card-Kept setup a p (inr (d, m), f) =
      streams (not p.defer_until_done && should_stream_card_update setup a p) refl
    where
      r : Rolled
      r = flush (input_of setup p) a.card a.fuel p.card

      streams :
          (b : Bool)
          → (not p.defer_until_done && should_stream_card_update setup a p) ≡ b
          → Kept (if b then flushed a r p else p)
      streams false e = (inr (d, m), f)
      streams true e =
          let can : a.card.can_update ≡ true = ground (arith, e) in
          flushed-Kept a r p d
            (flush-Mirrors taken (input_of setup p) a.card a.fuel (text_of p.state.blocks) p.card
              can m)
            f

  -- Messages change no card.
  after_messages-Kept :
      (a : StepAnswers) (o : Option String) (p : Presenting) → Kept p → Kept (after_messages a o p)
  after_messages-Kept a none p h = h
  after_messages-Kept a (some e) p h =
      if-lift {A = Presenting} Kept (is_empty p.markdown.message_id) _ _ h h

  stream_markdown-Kept :
      (setup : Setup) (a : StepAnswers) (p : Presenting) → Kept p → Kept (stream_markdown setup a p)
  unfolding stream_markdown
  stream_markdown-Kept setup a p h =
      let s = progress_of setup p.state in
      let r = Messages.flush (input_of setup p) a.markdown s p.markdown in
      if-lift {A = Presenting} Kept
        (not p.defer_until_done
          && not p.markdown_update_failed
          && should_stream_markdown_update setup a s p)
        _ _ (after_messages-Kept a r.error (with_done r p) h) h

  note_action-Kept :
      (setup : Setup) (a : StepAnswers) (t : EventType) (e : AgentEvent) (p : Presenting)
      → Kept p
      → Kept (note_action setup a t e p)
  note_action-Kept setup a text e p h = h
  note_action-Kept setup a user_action e p h = h
  note_action-Kept setup a thinking e p h = h
  note_action-Kept setup a tool_use e p h = h
  note_action-Kept setup a tool_result e p h = h
  note_action-Kept setup a system e p h = h
  note_action-Kept setup a usage e p h = h
  note_action-Kept setup a done e p h = h
  note_action-Kept setup a error e p h = h
  note_action-Kept setup a (other_event name) e p h = h

  reduced-Cards :
      (p q : Presenting) (e : Event)
      → q.defer_until_done ≡ p.defer_until_done
      → q.card ≡ reduce_stream p.card e
      → q.state ≡ reduce p.state e
      → Cards p
      → Cards q
  reduced-Cards p q e defer card state (inl (d, (none_shown, unnamed, same))) = inl (
    defer ∙ d,
    (
      ap (λ (s : CardStream). shown taken s.calls) card ∙ none_shown,
      ap (λ (s : CardStream). is_empty s.message_id) card ∙ unnamed,
      ap (λ (s : CardStream). text_of s.state.blocks) card
          ∙ reduce-text_of p.card.state e
          ∙ ap (λ t. append_text t (delta_of e.type e)) same
          ∙ sym (reduce-text_of p.state e)
          ∙ ap (λ (s : RunState). text_of s.blocks) (sym state),
    ),
  )
  reduced-Cards p q e defer card state (inr (d, m)) = inr (
    defer ∙ d,
    subst (λ s. Mirrors taken s (text_of q.state.blocks)) (sym card)
        (subst (Mirrors taken (reduce_stream p.card e))
          (sym (reduce-text_of p.state e) ∙ ap (λ (s : RunState). text_of s.blocks) (sym state))
          (reduce_stream-Mirrors taken p.card (text_of p.state.blocks) e m)),
  )

  on_event-Kept :
      (setup : Setup) (a : StepAnswers) (e : AgentEvent) (p : Presenting)
      → separate_final setup ≡ false
      → Kept p
      → InLoop Kept Kept (on_event setup a e p)
  unfolding on_event
  on_event-Kept setup a e p plain h =
      let q = record p { in_flight = track_tool_flight p.in_flight (to_card_event e) } in
      let noted = note_action setup a e.type e q in
      let (cards, f) = note_action-Kept setup a e.type e q h in
      let r = received setup a e p in
      let carded = record r { card = reduce_stream r.card (to_card_event e) } in
      let k : Kept carded =
        (reduced-Cards noted carded (to_card_event e) refl refl refl cards, f) in
      let streamed : Kept (stream_markdown setup a (stream_card setup a carded)) =
        stream_markdown-Kept setup a (stream_card setup a carded)
          (stream_card-Kept setup a carded k) in
      if-false {A = Loop} (InLoop Kept Kept) (is_separate_answer setup e e.type) _ _
        (not_separate setup e e.type plain)
        (if-lift {A = Loop} (InLoop Kept Kept) (separate_final setup && not (is_active r.state)) _ _
          k (if-lift {A = Loop} (InLoop Kept Kept) (is_active r.state) _ _ streamed streamed))

  started_card-Kept :
      (a : StepAnswers) (r : Result String String) (p : Presenting)
      → p.defer_until_done ≡ false
      → Unsent p
      → p.final_answer_only ≡ false
      → Kept (or_deferred (started_card a r p))
  unfolding shown text_of_all
  started_card-Kept a (ok id) p d (none_shown, unnamed, same) f = (
    inr (
      d,
      (
        [],
        ap (λ ts. text_of p.card.state.blocks ∷ ts) none_shown,
        nil-append (text_of p.card.state.blocks) ∙ same,
        itself-IsShown p.card.state.blocks,
      ),
    ),
    f,
  )
  started_card-Kept a (err e) p d u f = (inl (refl, u), f)

  start_progress-Kept :
      (setup : Setup) (a : StepAnswers) (p : Presenting)
      → mode_of setup ≡ reply_card
      → p.defer_until_done ≡ false
      → Unsent p
      → p.final_answer_only ≡ false
      → Kept (start_progress setup a p)
  unfolding start_progress
  start_progress-Kept setup a p mode d u f =
      subst (λ m. Kept (or_deferred (start_in m setup a p))) (sym mode)
        (started_card-Kept a a.card_send p d u f)

  pub resume_progress-Kept :
      (setup : Setup) (live : Bool) (a : StepAnswers) (p : Presenting)
      → mode_of setup ≡ reply_card
      → Kept p
      → Kept (resume_progress setup live a p)
  unfolding resume_progress
  resume_progress-Kept setup live a p mode (inl (d, u), f) =
      if-lift {A = Presenting} Kept (live && p.defer_until_done) _ _
        (start_progress-Kept setup a _ mode refl u refl) (inl (d, u), refl)
  resume_progress-Kept setup live a p mode (inr (d, m), f) =
      if-false {A = Presenting} Kept (live && p.defer_until_done) _ _ (ground (arith, d))
        (inr (d, m), refl)

  arrive-Kept :
      (setup : Setup)
      → mode_of setup ≡ reply_card
      → separate_final setup ≡ false
      → (x : Arrival) (p : Presenting) → Kept p
      → InLoop Kept Kept (arrive setup x p)
  unfolding arrive
  arrive-Kept setup mode plain context_done p h = h
  arrive-Kept setup mode plain idle_fires p h =
      if-lift {A = Loop} (InLoop Kept Kept) p.idle_armed _ _ h h
  arrive-Kept setup mode plain events_closed p h = h
  arrive-Kept setup mode plain (resumes a) p h =
      if-lift {A = Loop} (InLoop Kept Kept) p.resume_open _ _
        (resume_progress-Kept setup true a p mode h) h
  arrive-Kept setup mode plain (arrives e a) p h =
      unless_hung-InLoop Kept Kept (on_event setup a e p) (on_event-Kept setup a e p plain h)

  begin-Kept :
      (setup : Setup) (a : StepAnswers) (s : RunState)
      → mode_of setup ≡ reply_card
      → separate_final setup ≡ false
      → Kept (begin setup a s)
  unfolding begin shown
  begin-Kept setup a s mode plain = begins setup.defer_until_done refl
    where
      begins :
          (b : Bool)
          → setup.defer_until_done ≡ b
          → Kept (
              if b then new_presenting setup s else start_progress setup a (new_presenting setup s))
      begins true e = (inl (e, (refl, refl, refl)), plain)
      begins false e =
          start_progress-Kept setup a (new_presenting setup s) mode e (refl, refl, refl) plain

  -- In the loop the cards stay so.
  pub present_loop-Kept :
      (setup : Setup) (first : StepAnswers) (s : RunState) (xs : List Arrival)
      → mode_of setup ≡ reply_card
      → separate_final setup ≡ false
      → InLoop Kept Kept (present_loop setup xs (begin setup first s))
  present_loop-Kept setup first s xs mode plain =
      present_loop-keeps Kept Kept setup (arrive-Kept setup mode plain) xs (begin setup first s)
        (begin-Kept setup first s mode plain)
