-- ===== src/Presenter/Present/Fires.antt =====
-- internal/app/impresenter/presenter.go: when `Present` ends a run as idle.
use lark_bridge_agent_sdk.Base.{
  ◌≡◌, refl, sym, ap, subst, ◌∙◌, Bool, true, false, not, ◌&&◌, List, [], ◌∷◌, ◌++◌, ◌==◌, eq_iff,
  includes, if◌then◌else◌, if-lift, arith, ltb, String, Bool-cases, inl, inr,
}
use lark_bridge_agent_sdk.Base.Text.{is_empty}
use lark_bridge_agent_sdk.CardState.{EventType, tool_use, tool_result, RunState}
use lark_bridge_agent_sdk.CardState.Blocks.{value}
use lark_bridge_agent_sdk.Agents.{AgentEvent, to_card_event}
use lark_bridge_agent_sdk.Presenter.Content.{is_active, track_tool_flight, track, add_id, remove_id}
use lark_bridge_agent_sdk.Presenter.Rollover.{reduce_stream}
use lark_bridge_agent_sdk.Presenter.Present.{
  Setup, StepAnswers, Presenting, Loop, going, finished, abandoned, hangs, Arrival, context_done,
  idle_fires, events_closed, resumes, arrives, begin, resume_progress, received, on_event, arrive,
  go_on, present_loop, stream_card, stream_markdown, arms_idle_timer, is_separate_answer,
  separate_final,
}
use lark_bridge_agent_sdk.Presenter.Present.Steps.{InLoop, unless_hung-InLoop}
use lark_bridge_agent_sdk.Presenter.Present.Idle.{
  Timer, Ticking, received-Ticking, kept-Ticking, begin-Ticking, begin-flight, armed-quiet,
  streamed-timer, resume_progress-timer, note_action-flight,
}

-- Whether a tool call runs after an event about it.
abbrev pub after_tool : EventType → Bool → Bool
after_tool tool_use running = true
after_tool tool_result running = false
after_tool _ running = running

abbrev pub running_after : String → Arrival → Bool → Bool
running_after id (arrives e a) running =
    if value e.id == id then after_tool e.type running else running
running_after id _ running = running

-- Whether the tool call `id` has started in these arrivals, or ran before, and has no result yet.
unfoldable pub is_running : String → Bool → List Arrival → Bool
is_running id running [] = running
is_running id running (x ∷ xs) = is_running id (running_after id x running) xs

includes-remove :
    (id key : String) (ids : List String)
    → includes (remove_id id ids) key ≡ (if id == key then false else includes ids key)
unfolding includes remove_id
includes-remove id key [] = ground arith
includes-remove id key (i ∷ is) =
    ground (arith, includes-remove id key is, eq_iff i id, eq_iff id key, eq_iff i key)

includes-track :
    (t : EventType) (id key : String) (ids : List String)
    → includes (track t id ids) key
      ≡ (if id == key then after_tool t (includes ids key) else includes ids key)
unfolding track add_id includes
includes-track t id key ids = ground (arith, includes-remove id key ids)

-- The tools in flight after an arrival.
abbrev flight_after : Arrival → List String → List String
flight_after (arrives e a) ids = track_tool_flight ids (to_card_event e)
flight_after _ ids = ids

flight-running :
    (x : Arrival) (key : String) (ids : List String)
    → is_empty key ≡ false
    → includes (flight_after x ids) key ≡ running_after key x (includes ids key)
unfolding track_tool_flight to_card_event
flight-running (arrives e a) key ids named = elim (Bool-cases (value e.id == key)) [
  | inl same ↦
      let filled : is_empty (value e.id) ≡ false =
        ap is_empty ((eq_iff (value e.id) key).0 same) ∙ named in
      ground (arith, filled, includes-track e.type (value e.id) key ids)
  | inr other ↦ ground (arith, includes-track e.type (value e.id) key ids)
]
flight-running context_done key ids named = refl
flight-running idle_fires key ids named = refl
flight-running events_closed key ids named = refl
flight-running (resumes a) key ids named = refl

-- The loop after an arrival.
abbrev After : Setup → Presenting → Arrival → Loop → Type 0
After setup p x l =
    InLoop (λ q. Ticking setup q × (q.in_flight ≡ flight_after x p.in_flight))
      (λ q. q.idle_fired ≡ true → (x ≡ idle_fires) × (arms_idle_timer setup p.in_flight ≡ true)) l

Ticking-unfired :
    (setup : Setup) (p q : Presenting) (x : Arrival)
    → Ticking setup q
    → q.idle_fired ≡ true
    → (x ≡ idle_fires) × (arms_idle_timer setup p.in_flight ≡ true)
Ticking-unfired setup p q x h fired = absurd (cc (fired, ap (λ (t : Timer). t.1.0) h))

on_event-After :
    (setup : Setup) (a : StepAnswers) (e : AgentEvent) (p : Presenting)
    → Ticking setup p
    → After setup p (arrives e a) (on_event setup a e p)
unfolding on_event
on_event-After setup a e p h =
    let x = arrives e a in
    let P = After setup p x in
    let r = received setup a e p in
    let k = received-Ticking setup a e p h in
    let flight : r.in_flight ≡ flight_after x p.in_flight =
      note_action-flight setup a e.type e
        (record p { in_flight = track_tool_flight p.in_flight (to_card_event e) }) in
    let carded = record r { card = reduce_stream r.card (to_card_event e) } in
    let streamed = stream_markdown setup a (stream_card setup a carded) in
    let t = streamed-timer setup a carded in
    let s : Ticking setup streamed = kept-Ticking setup r streamed t k in
    if-lift {A = Loop} P (is_separate_answer setup e e.type) _ _ (k, flight)
      (if-lift {A = Loop} P (separate_final setup && not (is_active r.state)) _ _
        (Ticking-unfired setup p r x k)
        (if-lift {A = Loop} P (is_active r.state) _ _ (s, ap (λ (t : Timer). t.1.1) t ∙ flight)
          (Ticking-unfired setup p streamed x s)))

arrive-After :
    (setup : Setup) (x : Arrival) (p : Presenting)
    → Ticking setup p
    → After setup p x (arrive setup x p)
unfolding arrive
arrive-After setup context_done p h = Ticking-unfired setup p p context_done h
arrive-After setup idle_fires p h = fires p.idle_armed refl
  where
    fires :
        (b : Bool)
        → p.idle_armed ≡ b
        → After setup p idle_fires
            (if b then finished (record p { idle_armed = false; idle_fired = true }) else going p)
    fires true e = λ _. (refl, sym (ap (λ (t : Timer). t.0) h) ∙ e)
    fires false e = (h, refl)
arrive-After setup events_closed p h = Ticking-unfired setup p p events_closed h
arrive-After setup (resumes a) p h =
    let t = resume_progress-timer setup true a p in
    if-lift {A = Loop} (After setup p (resumes a)) p.resume_open _ _
      (kept-Ticking setup p (resume_progress setup true a p) t h, ap (λ (t : Timer). t.1.1) t)
      (h, refl)
arrive-After setup (arrives e a) p h =
    unless_hung-InLoop _ _ (on_event setup a e p) (on_event-After setup a e p h)

-- The idle timer fires after some of the arrivals, when every tool call with an id that started in
-- them, or was in flight before, has its result.
abbrev pub FiresIn : Setup → List String → List Arrival → Type 0
FiresIn setup ids xs =
    (before : List Arrival) × (after : List Arrival) × (xs ≡ before ++ idle_fires ∷ after)
    × (ltb 0 setup.idle_timeout ≡ true)
    × ((id : String) → is_empty id ≡ false → is_running id (includes ids id) before ≡ false)

loop-FiresIn :
    (setup : Setup) (xs : List Arrival) (p q : Presenting)
    → Ticking setup p
    → present_loop setup xs p ≡ finished q
    → q.idle_fired ≡ true
    → FiresIn setup p.in_flight xs
unfolding present_loop is_running includes
loop-FiresIn setup [] p q tick ends fired = absurd (cc ends)
loop-FiresIn setup (x ∷ xs) p q tick ends fired =
    step (λ r. loop-FiresIn setup xs r q) (arrive setup x p) (arrive-After setup x p tick) ends
  where
    step :
        ((r : Presenting)
          → Ticking setup r
          → present_loop setup xs r ≡ finished q
          → q.idle_fired ≡ true
          → FiresIn setup r.in_flight xs)
        → (l : Loop) → After setup p x l
        → go_on l (λ r. present_loop setup xs r) ≡ finished q
        → FiresIn setup p.in_flight (x ∷ xs)
    step later (going r) (t, flight) e =
        let (before, after, split, timeout, quiet) = later r t e fired in
        (
          x ∷ before,
          after,
          ap (λ ys. x ∷ ys) split,
          timeout,
          λ id named.
              subst (λ b. is_running id b before ≡ false)
                (ap (λ ids. includes ids id) flight ∙ flight-running x id p.in_flight named)
                (quiet id named),
        )
    step later (finished r) met e =
        let same : r ≡ q = cc e in
        let (idle, armed) = met (ap (λ (s : Presenting). s.idle_fired) same ∙ fired) in
        let (timeout, nothing) = armed-quiet setup p.in_flight armed in
        ([], xs, ap (λ y. y ∷ xs) idle, timeout, λ id named. ap (λ ids. includes ids id) nothing)
    step later (abandoned r) met e = absurd (cc e)
    step later (hangs r) met e = absurd (cc e)

-- Whatever arrives and in which order, a run is ended as idle only where an idle timeout is set, and
-- only by the timer firing after arrivals in which each tool call with an id that started has its
-- result: the latest event about it that tells of its use or its result is its result.
pub present-FiredIdle :
    (setup : Setup) (first : StepAnswers) (s : RunState) (xs : List Arrival) (p : Presenting)
    → present_loop setup xs (begin setup first s) ≡ finished p
    → p.idle_fired ≡ true
    → FiresIn setup [] xs
present-FiredIdle setup first s xs p h fired =
    subst (λ ids. FiresIn setup ids xs) (begin-flight setup first s)
      (loop-FiresIn setup xs (begin setup first s) p (begin-Ticking setup first s) h fired)
