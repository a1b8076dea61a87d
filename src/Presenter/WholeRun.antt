-- ===== src/Presenter/WholeRun.antt =====
-- internal/app/impresenter/card_rollover.go: the cards of a whole run, as `Present` drives them.
use lark_bridge_agent_sdk.Base.{ℕ, String, ◌≡◌, List, [], ◌∷◌, Bool, true, none}
use lark_bridge_agent_sdk.CardState.{Event, RunState}
use lark_bridge_agent_sdk.CardState.Blocks.{append_text}
use lark_bridge_agent_sdk.CardState.Transcript.{text_of, delta_of}
use lark_bridge_agent_sdk.Presenter.{Input}
use lark_bridge_agent_sdk.Presenter.Delta.{card_state_delta}
use lark_bridge_agent_sdk.Presenter.Rollover.{
  CardStream, Channel, updates, reduce_stream, Rolled, rolled, roll_failed, still_rolling, flush,
  prepare_final, mark_sent, new_card_stream,
}
use lark_bridge_agent_sdk.Presenter.Mirror.{Mirrors, MirrorsTo, shown, text_of_all}

-- What happens to a card: an event of the run, or a flush with the channel's answers.
pub data Step : Type 0 where
  event_step : Event → Step
  flush_step : Channel → ℕ → Step

unfoldable pub stream_of : Rolled → CardStream
stream_of (rolled cs s) = s
stream_of (roll_failed cs s e) = s
stream_of (still_rolling cs s) = s

unfoldable pub step_stream : Input → Step → CardStream → CardStream
unfolding flush stream_of
step_stream input (event_step e) s = reduce_stream s e
step_stream input (flush_step channel fuel) s = stream_of (flush input channel fuel s)

unfoldable pub run_stream : Input → List Step → CardStream → CardStream
unfolding step_stream
run_stream input [] s = s
run_stream input (step ∷ steps) s = run_stream input steps (step_stream input step s)

-- What the events say.
abbrev pub said : List Step → String
said [] = ""
said (event_step e ∷ steps) = append_text (delta_of e.type e) (said steps)
said (flush_step channel fuel ∷ steps) = said steps

-- The channel can update cards whenever the card is flushed.
abbrev pub Updatable : List Step → Type 0
Updatable [] = Unit
Updatable (event_step e ∷ steps) = Updatable steps
Updatable (flush_step channel fuel ∷ steps) = (channel.can_update ≡ true) × Updatable steps

pub Mirrors-of :
    (taken : ℕ → Bool) (r : Rolled) (said : String)
    → MirrorsTo taken r said
    → Mirrors taken (stream_of r) said
unfolding stream_of
Mirrors-of taken (rolled cs s) said h = h
Mirrors-of taken (roll_failed cs s e) said h = h
Mirrors-of taken (still_rolling cs s) said h = h

-- The stream after the run and its last roll-overs.
unfoldable pub run_to_end :
    Input → RunState → String → List Step → Channel → RunState → ℕ → CardStream
unfolding run_stream prepare_final
run_to_end input first id steps channel final fuel = stream_of (
    prepare_final input channel final fuel
      (run_stream input steps (mark_sent id (new_card_stream first))))

-- What the channel shows by its calls, followed by what the stream has not published, is `text`; and
-- with one more update that is taken, the channel shows `text`.
abbrev pub ShowsAll : (ℕ → Bool) → CardStream → String → Type 0
ShowsAll taken s text =
    (append_text (text_of_all (shown taken s.calls))
        (text_of (card_state_delta s.published s.state).blocks)
      ≡ text)
    × (text_of_all (shown taken (updates s.state none ∷ s.calls)) ≡ text)
