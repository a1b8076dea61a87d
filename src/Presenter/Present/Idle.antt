-- ===== src/Presenter/Present/Idle.antt =====
-- internal/app/impresenter/presenter.go: when the idle timer of `Present` runs.
use lark_bridge_agent_sdk.Base.{
  ◌≡◌, refl, sym, ap, ◌∙◌, Bool, true, false, not, ◌&&◌, Option, none, some, List, [], ◌∷◌, if-lift,
  arith, ltb, String, Result, ok, err,
}
use lark_bridge_agent_sdk.Base.Text.{is_empty}
use lark_bridge_agent_sdk.CardState.{EventType, RunState}
use lark_bridge_agent_sdk.Agents.{AgentEvent, to_card_event}
use lark_bridge_agent_sdk.Presenter.{ReplyMode, reply_card, reply_markdown, reply_text, other_mode}
use lark_bridge_agent_sdk.Presenter.Content.{track_tool_flight}
use lark_bridge_agent_sdk.Presenter.Rollover.{Rolled, reduce_stream}
use lark_bridge_agent_sdk.Presenter.Rollover as Cards
use lark_bridge_agent_sdk.Presenter.Markdown as Messages
use lark_bridge_agent_sdk.Presenter.Present.{
  Setup, StepAnswers, Presenting, begin, start_progress, start_in, started_card, started_markdown,
  or_deferred, resume_progress, received, note_action, stream_card, stream_markdown, mode_of,
  arms_idle_timer, flushed, with_done, after_messages, input_of, progress_of,
  should_stream_card_update, should_stream_markdown_update,
}

-- What the timer depends on.
abbrev pub Timer : Type 0
Timer = Bool × (Bool × List String)

abbrev pub timer_of : Presenting → Timer
timer_of p = (p.idle_armed, (p.idle_fired, p.in_flight))

or_deferred-timer : (o : Presenting × Option String) → timer_of (or_deferred o) ≡ timer_of (o.0)
or_deferred-timer (p, none) = refl
or_deferred-timer (p, some e) = refl

start_in-timer :
    (mode : ReplyMode) (setup : Setup) (a : StepAnswers) (p : Presenting)
    → timer_of (start_in mode setup a p).0 ≡ timer_of p
start_in-timer reply_card setup a p = card a.card_send
  where
    card : (r : Result String String) → timer_of (started_card a r p).0 ≡ timer_of p
    card (ok id) = refl
    card (err e) = refl
start_in-timer reply_markdown setup a p = markdown _ _ refl
  where
    markdown :
        (o : Option String) (q : Presenting)
        → timer_of q ≡ timer_of p
        → timer_of (started_markdown a o q).0 ≡ timer_of p
    markdown none q h = h
    markdown (some e) q h = h
start_in-timer reply_text setup a p = refl
start_in-timer (other_mode s) setup a p = refl

start_progress-timer :
    (setup : Setup) (a : StepAnswers) (p : Presenting)
    → timer_of (start_progress setup a p) ≡ timer_of p
unfolding start_progress
start_progress-timer setup a p =
    or_deferred-timer (start_in (mode_of setup) setup a p)
    ∙ start_in-timer (mode_of setup) setup a p

pub resume_progress-timer :
    (setup : Setup) (live : Bool) (a : StepAnswers) (p : Presenting)
    → timer_of (resume_progress setup live a p) ≡ timer_of p
unfolding resume_progress
resume_progress-timer setup live a p =
    if-lift {A = Presenting} (λ q. timer_of q ≡ timer_of p) (live && p.defer_until_done) _ _
      (start_progress-timer setup a _) refl

begin-timer :
    (setup : Setup) (a : StepAnswers) (s : RunState)
    → timer_of (begin setup a s) ≡ (arms_idle_timer setup [], (false, []))
unfolding begin
begin-timer setup a s =
    if-lift {A = Presenting} (λ q. timer_of q ≡ (arms_idle_timer setup [], (false, [])))
      setup.defer_until_done _ _ refl (start_progress-timer setup a _)

flushed-timer :
    (a : StepAnswers) (r : Rolled) (p : Presenting) → timer_of (flushed a r p) ≡ timer_of p
flushed-timer a (Rolled.rolled cs s) p = refl
flushed-timer a (Rolled.roll_failed cs s e) p = refl
flushed-timer a (Rolled.still_rolling cs s) p = refl

after_messages-timer :
    (a : StepAnswers) (o : Option String) (p : Presenting)
    → timer_of (after_messages a o p) ≡ timer_of p
after_messages-timer a none p = refl
after_messages-timer a (some e) p =
    if-lift {A = Presenting} (λ q. timer_of q ≡ timer_of p) (is_empty p.markdown.message_id) _ _
      refl refl

pub streamed-timer :
    (setup : Setup) (a : StepAnswers) (p : Presenting)
    → timer_of (stream_markdown setup a (stream_card setup a p)) ≡ timer_of p
unfolding stream_card stream_markdown
streamed-timer setup a p = messages (stream_card setup a p) ∙ cards
  where
    cards : timer_of (stream_card setup a p) ≡ timer_of p
    cards =
        if-lift {A = Presenting} (λ q. timer_of q ≡ timer_of p)
          (not p.defer_until_done && should_stream_card_update setup a p) _ _
          (flushed-timer a (Cards.flush (input_of setup p) a.card a.fuel p.card) p) refl

    messages : (q : Presenting) → timer_of (stream_markdown setup a q) ≡ timer_of q
    messages q =
        let s = progress_of setup q.state in
        let r = Messages.flush (input_of setup q) a.markdown s q.markdown in
        if-lift {A = Presenting} (λ t. timer_of t ≡ timer_of q)
          (not q.defer_until_done
            && not q.markdown_update_failed
            && should_stream_markdown_update setup a s q)
          _ _ (after_messages-timer a r.error (with_done r q)) refl

note_action-fired :
    (setup : Setup) (a : StepAnswers) (t : EventType) (e : AgentEvent) (p : Presenting)
    → (note_action setup a t e p).idle_fired ≡ p.idle_fired
note_action-fired setup a t e p = ground arith

pub note_action-flight :
    (setup : Setup) (a : StepAnswers) (t : EventType) (e : AgentEvent) (p : Presenting)
    → (note_action setup a t e p).in_flight ≡ p.in_flight
note_action-flight setup a t e p = ground arith

-- While the loop goes on the timer has not fired.
abbrev pub Ticking : Setup → Presenting → Type 0
Ticking setup p = timer_of p ≡ (arms_idle_timer setup p.in_flight, (false, p.in_flight))

pub received-Ticking :
    (setup : Setup) (a : StepAnswers) (e : AgentEvent) (p : Presenting)
    → Ticking setup p
    → Ticking setup (received setup a e p)
received-Ticking setup a e p h =
    let q = record p { in_flight = track_tool_flight p.in_flight (to_card_event e) } in
    let flight = note_action-flight setup a e.type e q in
    let fired : (note_action setup a e.type e q).idle_fired ≡ false =
      note_action-fired setup a e.type e q ∙ ap (λ (t : Timer). t.1.0) h in
    cc (flight, fired)

pub kept-Ticking :
    (setup : Setup) (p q : Presenting) → timer_of q ≡ timer_of p → Ticking setup p → Ticking setup q
kept-Ticking setup p q same h =
    let flight : q.in_flight ≡ p.in_flight = ap (λ (t : Timer). t.1.1) same in
    same ∙ h ∙ ap (λ ids. (arms_idle_timer setup ids, (false, ids))) (sym flight)

pub begin-Ticking :
    (setup : Setup) (a : StepAnswers) (s : RunState) → Ticking setup (begin setup a s)
begin-Ticking setup a s =
    let t = begin-timer setup a s in
    t ∙ ap (λ ids. (arms_idle_timer setup ids, (false, ids))) (sym (ap (λ (t : Timer). t.1.1) t))

pub armed-quiet :
    (setup : Setup) (in_flight : List String)
    → arms_idle_timer setup in_flight ≡ true
    → (ltb 0 setup.idle_timeout ≡ true) × (in_flight ≡ [])
armed-quiet setup [] h = (ground (arith, h), refl)
armed-quiet setup (id ∷ ids) h = absurd (ground (arith, h))

pub begin-flight :
    (setup : Setup) (a : StepAnswers) (s : RunState) → (begin setup a s).in_flight ≡ []
begin-flight setup a s = ap (λ (t : Timer). t.1.1) (begin-timer setup a s)
