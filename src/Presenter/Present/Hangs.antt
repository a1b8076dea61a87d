-- ===== src/Presenter/Present/Hangs.antt =====
-- internal/app/impresenter/presenter.go: without cards no loop of `Present` runs without end.
use lark_bridge_agent_sdk.Base.{
  ◌≡◌, refl, true, false, not, ◌&&◌, Option, none, some, List, [], ◌∷◌, if-lift, arith, String,
  Result, ok, err,
}
use lark_bridge_agent_sdk.Base.Text.{is_empty}
use lark_bridge_agent_sdk.CardState.{EventType, RunState}
use lark_bridge_agent_sdk.Agents.{AgentEvent, to_card_event}
use lark_bridge_agent_sdk.Presenter.{ReplyMode, reply_card, reply_markdown, reply_text, other_mode}
use lark_bridge_agent_sdk.Presenter.Content.{is_active, track_tool_flight}
use lark_bridge_agent_sdk.Presenter.Markdown.Finish.{if-false}
use lark_bridge_agent_sdk.Presenter.Markdown as Messages
use lark_bridge_agent_sdk.Presenter.Rollover.{still_rolling, reduce_stream}
use lark_bridge_agent_sdk.Presenter.Split.{out_of_fuel}
use lark_bridge_agent_sdk.Presenter.Present.{
  Setup, StepAnswers, Presenting, Loop, going, finished, abandoned, hangs, unless_hung, Arrival,
  context_done, idle_fires, events_closed, resumes, arrives, or_deferred, started_card,
  started_markdown, start_progress, start_in, resume_progress, received, note_action, on_event,
  arrive, go_on, present_loop, stream_card, stream_markdown, mode_of, is_card, is_separate_answer,
  separate_final, progress_of, after_messages, with_done, input_of, should_stream_card_update,
  should_stream_markdown_update, begin, new_presenting,
}
use lark_bridge_agent_sdk.Presenter.Present.Conclude.{
  EndAnswers, Presented, Delivery, split_cards, cards_failed, conclude, after_hook, finish_present,
  deliver, deliver_in, presented, separated, lacks_answer, some_delivered,
}

-- No loop has used up its fuel.
abbrev Runs : Presenting → Type 0
Runs p = p.hung ≡ false

abbrev pub Steady : Loop → Type 0
Steady (going p) = Runs p
Steady (finished p) = Unit
Steady (abandoned p) = Unit
Steady (hangs p) = ⊥

started_card-Runs :
    (a : StepAnswers) (r : Result String String) (p : Presenting)
    → Runs p
    → Runs (or_deferred (started_card a r p))
started_card-Runs a (ok id) p h = h
started_card-Runs a (err e) p h = h

started_markdown-Runs :
    (a : StepAnswers) (o : Option String) (p : Presenting)
    → Runs p
    → Runs (or_deferred (started_markdown a o p))
started_markdown-Runs a none p h = h
started_markdown-Runs a (some e) p h = h

start_progress-Runs :
    (setup : Setup) (a : StepAnswers) (p : Presenting) → Runs p → Runs (start_progress setup a p)
unfolding start_progress
start_progress-Runs setup a p h = by_mode (mode_of setup)
  where
    by_mode : (m : ReplyMode) → Runs (or_deferred (start_in m setup a p))
    by_mode reply_card = started_card-Runs a a.card_send p h
    by_mode reply_markdown = started_markdown-Runs a _ _ h
    by_mode reply_text = h
    by_mode (other_mode s) = h

note_action-Runs :
    (setup : Setup) (a : StepAnswers) (t : EventType) (e : AgentEvent) (p : Presenting)
    → Runs p
    → Runs (note_action setup a t e p)
note_action-Runs setup a t e p h = ground (arith, h)

after_messages-Runs :
    (a : StepAnswers) (o : Option String) (p : Presenting) → Runs p → Runs (after_messages a o p)
after_messages-Runs a none p h = h
after_messages-Runs a (some e) p h =
    if-lift {A = Presenting} Runs (is_empty p.markdown.message_id) _ _ h h

stream_markdown-Runs :
    (setup : Setup) (a : StepAnswers) (p : Presenting) → Runs p → Runs (stream_markdown setup a p)
unfolding stream_markdown
stream_markdown-Runs setup a p h =
    let s = progress_of setup p.state in
    let r = Messages.flush (input_of setup p) a.markdown s p.markdown in
    if-lift {A = Presenting} Runs
      (not p.defer_until_done
        && not p.markdown_update_failed
        && should_stream_markdown_update setup a s p)
      _ _ (after_messages-Runs a r.error (with_done r p) h) h

module _ (setup : Setup) (plain : is_card (mode_of setup) ≡ false) where
  stream_card-Runs : (a : StepAnswers) (p : Presenting) → Runs p → Runs (stream_card setup a p)
  unfolding stream_card
  stream_card-Runs a p h =
      if-false {A = Presenting} Runs (not p.defer_until_done && should_stream_card_update setup a p)
        _ _ (ground (arith, plain)) h

  on_event-Steady :
      (a : StepAnswers) (e : AgentEvent) (p : Presenting)
      → Runs p
      → Steady (unless_hung (on_event setup a e p))
  unfolding on_event
  on_event-Steady a e p h =
      let q = record p { in_flight = track_tool_flight p.in_flight (to_card_event e) } in
      let noted = note_action-Runs setup a e.type e q h in
      let r = received setup a e p in
      let carded = record r { card = reduce_stream r.card (to_card_event e) } in
      let streamed = stream_markdown setup a (stream_card setup a carded) in
      let s : Runs streamed =
        stream_markdown-Runs setup a (stream_card setup a carded)
          (stream_card-Runs a carded noted) in
      let Q : Loop → Type 0 = λ l. Steady (unless_hung l) in
      let ends : (x : Presenting) → Runs x → Q (finished x) =
        λ x k. if-false {A = Loop} Steady x.hung _ _ k tt in
      let goes : (x : Presenting) → Runs x → Q (going x) =
        λ x k. if-false {A = Loop} Steady x.hung _ _ k k in
      if-lift {A = Loop} Q (is_separate_answer setup e e.type) _ _ (goes r noted) (
        if-lift {A = Loop} Q (separate_final setup && not (is_active r.state)) _ _
          (ends carded noted)
          (if-lift {A = Loop} Q (is_active r.state) _ _ (goes streamed s) (ends streamed s)))

  arrive-Steady : (x : Arrival) (p : Presenting) → Runs p → Steady (arrive setup x p)
  unfolding arrive resume_progress
  arrive-Steady context_done p h = tt
  arrive-Steady idle_fires p h = if-lift {A = Loop} Steady p.idle_armed _ _ tt h
  arrive-Steady events_closed p h = tt
  arrive-Steady (resumes a) p h =
      if-lift {A = Loop} Steady p.resume_open _ _
        (if-lift {A = Presenting} Runs (true && p.defer_until_done) _ _
          (start_progress-Runs setup a _ h) h)
        h
  arrive-Steady (arrives e a) p h = on_event-Steady a e p h

  go_on-Steady :
      (next : Presenting → Loop)
      → ((q : Presenting) → Runs q → Steady (next q))
      → (l : Loop) → Steady l
      → Steady (go_on l next)
  go_on-Steady next keeps (going q) h = keeps q h
  go_on-Steady next keeps (finished q) h = h
  go_on-Steady next keeps (abandoned q) h = h
  go_on-Steady next keeps (hangs q) h = h

  present_loop-Steady :
      (xs : List Arrival) (p : Presenting) → Runs p → Steady (present_loop setup xs p)
  unfolding present_loop
  present_loop-Steady [] p h = h
  present_loop-Steady (x ∷ xs) p h =
      go_on-Steady (λ q. present_loop setup xs q) (λ q k. present_loop-Steady xs q k)
        (arrive setup x p) (arrive-Steady x p h)

  -- Without cards no loop of the presenter runs without end.
  pub presented-Steady :
      (a : StepAnswers) (s : RunState) (xs : List Arrival)
      → Steady (present_loop setup xs (begin setup a s))
  unfolding begin
  presented-Steady a s xs = present_loop-Steady xs _ (
      if-lift {A = Presenting} Runs setup.defer_until_done _ _ refl
        (start_progress-Runs setup a (new_presenting setup s) refl))

-- The delivery came back: no loop of it has used up its fuel.
abbrev pub Returns : Delivery → Type 0
Returns (split_cards (out_of_fuel cs)) = ⊥
Returns (cards_failed (still_rolling cs s)) = ⊥
Returns _ = Unit

deliver_in-Returns :
    (m : ReplyMode) (setup : Setup) (a : EndAnswers) (p : Presenting)
    → is_card m ≡ false
    → Returns (presented (deliver_in m setup a p)).delivery
deliver_in-Returns reply_card setup a p h = absurd (cc h)
deliver_in-Returns reply_markdown setup a p h = tt
deliver_in-Returns reply_text setup a p h = tt
deliver_in-Returns (other_mode s) setup a p h = tt

pub conclude-Returns :
    (setup : Setup) (a : EndAnswers) (p : Presenting)
    → is_card (mode_of setup) ≡ false
    → Returns (conclude setup a p).delivery
unfolding conclude after_hook finish_present deliver
conclude-Returns setup a p plain = hook a.before_final _ _
  where
    hook :
        (o : Option String) (over resumed : Presenting)
        → Returns (after_hook setup a o over resumed).delivery
    hook (some e) over resumed = tt
    hook none over resumed =
        let q = separated setup a resumed in
        if-lift {A = Presented} (λ r. Returns r.delivery)
          (lacks_answer q && q.action_pending && some_delivered q.actions) _ _ tt
          (deliver_in-Returns (mode_of setup) setup a _ plain)
