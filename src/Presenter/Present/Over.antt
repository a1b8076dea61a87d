-- ===== src/Presenter/Present/Over.antt =====
-- internal/app/impresenter/presenter.go: the state that `Present` returns is that of a run that is
-- over.
use lark_bridge_agent_sdk.Base.{
  ◌≡◌, refl, ap, ◌∙◌, Bool, true, false, not, ◌&&◌, List, [], ◌∷◌, if-lift, arith, Bool-cases, inl,
  inr, any,
}
use lark_bridge_agent_sdk.CardState.{RunStatus, EventType, is_end, Event, RunState}
use lark_bridge_agent_sdk.CardState.Reduce.{reduce, apply, status_from_termination}
use lark_bridge_agent_sdk.CardState.Terminal.{is_terminal}
use lark_bridge_agent_sdk.Agents.{AgentEvent, to_card_event}
use lark_bridge_agent_sdk.Presenter.Content.{is_active, active_status}
use lark_bridge_agent_sdk.Presenter.Markdown.Finish.{if-false}
use lark_bridge_agent_sdk.Presenter.Present.{
  Setup, StepAnswers, Presenting, Loop, going, finished, abandoned, hangs, unless_hung, Arrival,
  context_done, idle_fires, events_closed, resumes, arrives, received, on_event, arrive,
  present_loop, separate_final, is_separate_answer, go_on,
}
use lark_bridge_agent_sdk.Presenter.Present.Steps.{received-state}

apply-ended :
    (t : EventType) (e : Event) (s : RunState)
    → is_end t ≡ true
    → is_terminal (apply t e s).status ≡ true
unfolding apply status_from_termination
apply-ended t e s h = ground arith

reduce-ended :
    (s : RunState) (e : Event) → is_end e.type ≡ true → is_terminal (reduce s e).status ≡ true
unfolding reduce
reduce-ended s e h = apply-ended e.type e _ h

abbrev pub is_going : Loop → Bool
is_going (going p) = true
is_going _ = false

not_separate :
    (setup : Setup) (e : AgentEvent) (t : EventType)
    → is_end t ≡ true
    → is_separate_answer setup e t ≡ false
not_separate setup e t h = ground arith

ended-inactive : (s : RunStatus) → is_terminal s ≡ true → active_status s ≡ false
ended-inactive s h = ground arith

-- The event that ends the run ends the loop.
on_event-ends :
    (setup : Setup) (a : StepAnswers) (e : AgentEvent) (p : Presenting)
    → is_end e.type ≡ true
    → is_going (on_event setup a e p) ≡ false
unfolding on_event to_card_event
on_event-ends setup a e p h =
    let r = received setup a e p in
    let over : is_active r.state ≡ false = ended-inactive r.state.status (
      ap (λ s. is_terminal s.status) (received-state setup a e p)
      ∙ reduce-ended p.state (to_card_event e) h) in
    if-false {A = Loop} (λ l. is_going l ≡ false) (is_separate_answer setup e e.type) _ _
      (not_separate setup e e.type h)
      (if-lift {A = Loop} (λ l. is_going l ≡ false)
        (separate_final setup && not (is_active r.state)) _ _ refl
        (if-false {A = Loop} (λ l. is_going l ≡ false) (is_active r.state) _ _ over refl))

-- Whether an arrival is the end of the run.
abbrev pub is_end_arrival : Arrival → Bool
is_end_arrival (arrives e a) = is_end e.type
is_end_arrival events_closed = true
is_end_arrival _ = false

unless_hung-ends : (l : Loop) → is_going l ≡ false → is_going (unless_hung l) ≡ false
unless_hung-ends (going p) h = absurd (cc h)
unless_hung-ends (finished p) h = if-lift {A = Loop} (λ l. is_going l ≡ false) p.hung _ _ refl refl
unless_hung-ends (abandoned p) h = refl
unless_hung-ends (hangs p) h = refl

arrive-ends :
    (setup : Setup) (x : Arrival) (p : Presenting)
    → is_end_arrival x ≡ true
    → is_going (arrive setup x p) ≡ false
unfolding arrive
arrive-ends setup (arrives e a) p h =
    unless_hung-ends (on_event setup a e p) (on_event-ends setup a e p h)
arrive-ends setup events_closed p h = refl
arrive-ends setup context_done p h = absurd (cc h)
arrive-ends setup idle_fires p h = absurd (cc h)
arrive-ends setup (resumes a) p h = absurd (cc h)

-- With the end among the arrivals the loop is left.
pub present_loop-ends :
    (setup : Setup) (xs : List Arrival) (p : Presenting)
    → any is_end_arrival xs ≡ true
    → is_going (present_loop setup xs p) ≡ false
unfolding present_loop any
present_loop-ends setup [] p h = absurd (cc h)
present_loop-ends setup (x ∷ xs) p h =
    next (arrive setup x p) (λ e. arrive-ends setup x p e) (λ q e. present_loop-ends setup xs q e)
  where
    next :
        (l : Loop)
        → (is_end_arrival x ≡ true → is_going l ≡ false)
        → ((q : Presenting)
            → any is_end_arrival xs ≡ true
            → is_going (present_loop setup xs q) ≡ false)
        → is_going (go_on l (λ q. present_loop setup xs q)) ≡ false
    next (going q) now later = elim (Bool-cases (is_end_arrival x)) [
      | inl e ↦ absurd (cc (now e))
      | inr e ↦ later q (ground arith)
    ]
    next (finished q) now later = refl
    next (abandoned q) now later = refl
    next (hangs q) now later = refl
