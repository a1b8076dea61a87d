-- ===== src/Presenter/Present/Steps.antt =====
-- internal/app/impresenter/presenter.go: what the steps of `Present` do to the state of the run.
use lark_bridge_agent_sdk.Base.{
  ℕ, ◌≡◌, refl, ap, ◌∙◌, Bool, true, false, not, ◌&&◌, Option, none, some, List, [], ◌∷◌, if-lift,
  arith, Result, ok, err, String,
}
use lark_bridge_agent_sdk.CardState.{RunStatus, other_status, EventType, system, Event, RunState}
use lark_bridge_agent_sdk.CardState.Reduce.{
  reduce, apply, apply_metadata, stamp, ensure_running, apply_usage, status_from_termination,
}
use lark_bridge_agent_sdk.Base.Text.{is_empty}
use lark_bridge_agent_sdk.Presenter.{ReplyMode, reply_card, reply_markdown, reply_text, other_mode}
use lark_bridge_agent_sdk.Presenter.Rollover.{Rolled, reduce_stream}
use lark_bridge_agent_sdk.Agents.{AgentEvent, event_of, to_card_event}
use lark_bridge_agent_sdk.Presenter.Content.{is_active}
use lark_bridge_agent_sdk.Presenter.Markdown as Messages
use lark_bridge_agent_sdk.Presenter.Present.{
  Setup, StepAnswers, Presenting, Loop, going, finished, abandoned, hangs, unless_hung, Arrival,
  context_done, idle_fires, events_closed, resumes, arrives, begin, or_deferred, started_card,
  started_markdown, is_separate_answer, separate_final, progress_of, flushed, after_messages,
  input_of, with_done, should_stream_card_update, should_stream_markdown_update, go_on,
  start_progress, start_in, resume_progress, received, note_action, on_event, arrive, present_loop,
  stream_card, stream_markdown, mode_of,
}

-- A status that the code names.
abbrev pub is_known : RunStatus → Bool
is_known (other_status s) = false
is_known _ = true

apply-known :
    (t : EventType) (e : Event) (s : RunState)
    → is_known s.status ≡ true
    → is_known (apply t e s).status ≡ true
unfolding apply ensure_running apply_usage status_from_termination
apply-known t e s h = ground arith

pub stamp-status : (o : Option ℕ) (s : RunState) → (stamp o s).status ≡ s.status
unfolding stamp
stamp-status none s = refl
stamp-status (some at) s = refl

pub reduce-known :
    (s : RunState) (e : Event) → is_known s.status ≡ true → is_known (reduce s e).status ≡ true
unfolding reduce apply_metadata
reduce-known s e h = apply-known e.type e _ (ap is_known (stamp-status e.at _) ∙ h)

-- The presenter that a loop holds while it goes on, and once it is left.
abbrev pub InLoop : (Presenting → Type 0) → (Presenting → Type 0) → Loop → Type 0
InLoop P Q (going p) = P p
InLoop P Q (finished p) = Q p
InLoop P Q (abandoned p) = Q p
InLoop P Q (hangs p) = Unit

pub unless_hung-InLoop :
    (P Q : Presenting → Type 0) (l : Loop) → InLoop P Q l → InLoop P Q (unless_hung l)
unless_hung-InLoop P Q (going p) h = if-lift {A = Loop} (InLoop P Q) p.hung _ _ tt h
unless_hung-InLoop P Q (finished p) h = if-lift {A = Loop} (InLoop P Q) p.hung _ _ tt h
unless_hung-InLoop P Q (abandoned p) h = h
unless_hung-InLoop P Q (hangs p) h = tt

abbrev pub Known : Presenting → Type 0
Known p = is_known p.state.status ≡ true

begun-Known : (o : Presenting × Option String) → Known (o.0) → Known (or_deferred o)
begun-Known (p, none) h = h
begun-Known (p, some e) h = h

started_card-Known :
    (a : StepAnswers) (r : Result String String) (p : Presenting)
    → Known p
    → Known (started_card a r p).0
started_card-Known a (ok id) p h = h
started_card-Known a (err e) p h = h

started_markdown-Known :
    (a : StepAnswers) (o : Option String) (p : Presenting)
    → Known p
    → Known (started_markdown a o p).0
started_markdown-Known a none p h = h
started_markdown-Known a (some e) p h = h

start_in-Known :
    (mode : ReplyMode) (setup : Setup) (a : StepAnswers) (p : Presenting)
    → Known p
    → Known (start_in mode setup a p).0
start_in-Known reply_card setup a p h = started_card-Known a a.card_send p h
start_in-Known reply_markdown setup a p h =
    started_markdown-Known a _ _ (reduce-known p.state (to_card_event (event_of system)) h)
start_in-Known reply_text setup a p h = h
start_in-Known (other_mode s) setup a p h = h

start_progress-Known :
    (setup : Setup) (a : StepAnswers) (p : Presenting) → Known p → Known (start_progress setup a p)
unfolding start_progress
start_progress-Known setup a p h = begun-Known _ (start_in-Known (mode_of setup) setup a p h)

pub resume_progress-Known :
    (setup : Setup) (live : Bool) (a : StepAnswers) (p : Presenting)
    → Known p
    → Known (resume_progress setup live a p)
unfolding resume_progress
resume_progress-Known setup live a p h =
    if-lift {A = Presenting} Known (live && p.defer_until_done) _ _
      (start_progress-Known setup a _ h) h

pub begin-Known :
    (setup : Setup) (a : StepAnswers) (s : RunState)
    → is_known s.status ≡ true
    → Known (begin setup a s)
unfolding begin
begin-Known setup a s h =
    if-lift {A = Presenting} Known setup.defer_until_done _ _ h (start_progress-Known setup a _ h)

-- Only an event changes the state.
note_action-state :
    (setup : Setup) (a : StepAnswers) (t : EventType) (e : AgentEvent) (p : Presenting)
    → (note_action setup a t e p).state ≡ p.state
note_action-state setup a t e p = ground arith

pub flushed-state :
    (a : StepAnswers) (r : Rolled) (p : Presenting) → (flushed a r p).state ≡ p.state
flushed-state a r p = ground arith

stream_card-state :
    (setup : Setup) (a : StepAnswers) (p : Presenting) → (stream_card setup a p).state ≡ p.state
unfolding stream_card
stream_card-state setup a p =
    if-lift {A = Presenting} (λ q. q.state ≡ p.state)
      (not p.defer_until_done && should_stream_card_update setup a p) _ _ (flushed-state a _ p) refl

after_messages-state :
    (a : StepAnswers) (o : Option String) (p : Presenting) → (after_messages a o p).state ≡ p.state
after_messages-state a none p = refl
after_messages-state a (some e) p =
    if-lift {A = Presenting} (λ q. q.state ≡ p.state) (is_empty p.markdown.message_id) _ _ refl refl

stream_markdown-state :
    (setup : Setup) (a : StepAnswers) (p : Presenting) → (stream_markdown setup a p).state ≡ p.state
unfolding stream_markdown
stream_markdown-state setup a p =
    let s = progress_of setup p.state in
    let r = Messages.flush (input_of setup p) a.markdown s p.markdown in
    if-lift {A = Presenting} (λ q. q.state ≡ p.state)
      (not p.defer_until_done
        && not p.markdown_update_failed
        && should_stream_markdown_update setup a s p)
      _ _ (after_messages-state a r.error (with_done r p)) refl

pub received-state :
    (setup : Setup) (a : StepAnswers) (e : AgentEvent) (p : Presenting)
    → (received setup a e p).state ≡ reduce p.state (to_card_event e)
received-state setup a e p =
    ap (λ s. reduce s (to_card_event e)) (note_action-state setup a e.type e _)

pub streamed-state :
    (setup : Setup) (a : StepAnswers) (p : Presenting)
    → (stream_markdown setup a (stream_card setup a p)).state ≡ p.state
streamed-state setup a p =
    stream_markdown-state setup a (stream_card setup a p) ∙ stream_card-state setup a p

on_event-Known :
    (setup : Setup) (a : StepAnswers) (e : AgentEvent) (p : Presenting)
    → Known p
    → InLoop Known Known (on_event setup a e p)
unfolding on_event
on_event-Known setup a e p h =
    let r = received setup a e p in
    let known : Known r =
      ap (λ s. is_known s.status) (received-state setup a e p)
      ∙ reduce-known p.state (to_card_event e) h in
    let carded = record r { card = reduce_stream r.card (to_card_event e) } in
    let streamed : Known (stream_markdown setup a (stream_card setup a carded)) =
      ap (λ s. is_known s.status) (streamed-state setup a carded) ∙ known in
    if-lift {A = Loop} (InLoop Known Known) (is_separate_answer setup e e.type) _ _ known (
      if-lift {A = Loop} (InLoop Known Known) (separate_final setup && not (is_active r.state)) _ _
        known (if-lift {A = Loop} (InLoop Known Known) (is_active r.state) _ _ streamed streamed))

pub arrive-Known :
    (setup : Setup) (x : Arrival) (p : Presenting) → Known p → InLoop Known Known (arrive setup x p)
unfolding arrive
arrive-Known setup context_done p h = h
arrive-Known setup idle_fires p h = if-lift {A = Loop} (InLoop Known Known) p.idle_armed _ _ h h
arrive-Known setup events_closed p h = h
arrive-Known setup (resumes a) p h =
    if-lift {A = Loop} (InLoop Known Known) p.resume_open _ _
      (resume_progress-Known setup true a p h) h
arrive-Known setup (arrives e a) p h =
    unless_hung-InLoop Known Known (on_event setup a e p) (on_event-Known setup a e p h)

go_on-InLoop :
    (P Q : Presenting → Type 0) (next : Presenting → Loop)
    → ((q : Presenting) → P q → InLoop P Q (next q))
    → (l : Loop) → InLoop P Q l
    → InLoop P Q (go_on l next)
go_on-InLoop P Q next keeps (going q) h = keeps q h
go_on-InLoop P Q next keeps (finished q) h = h
go_on-InLoop P Q next keeps (abandoned q) h = h
go_on-InLoop P Q next keeps (hangs q) h = tt

-- A property of the presenter that each arrival keeps holds in the loop.
pub present_loop-keeps :
    (P Q : Presenting → Type 0) (setup : Setup)
    → ((x : Arrival) (p : Presenting) → P p → InLoop P Q (arrive setup x p))
    → (xs : List Arrival) (p : Presenting) → P p
    → InLoop P Q (present_loop setup xs p)
unfolding present_loop
present_loop-keeps P Q setup keeps [] p h = h
present_loop-keeps P Q setup keeps (x ∷ xs) p h =
    go_on-InLoop P Q (λ q. present_loop setup xs q)
      (λ q k. present_loop-keeps P Q setup keeps xs q k) (arrive setup x p) (keeps x p h)
