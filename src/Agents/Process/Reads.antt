-- ===== src/Agents/Process/Reads.antt =====
-- internal/adapters/agent/codexcli/adapter.go and claudecli/adapter.go: what is sent while an agent's
-- output is read.
use lark_bridge_agent_sdk.Base.{
  String, ◌≡◌, refl, sym, ap, ◌∙◌, ◌⊎◌, Bool, true, false, Option, none, some, List, [], ◌∷◌, ◌++◌,
  if◌then◌else◌, if-lift, any, inl, inr, arith, is_some, or-split,
}
use lark_bridge_agent_sdk.Base.Json.{Json}
use lark_bridge_agent_sdk.Base.Text.{is_empty, trim_space}
use lark_bridge_agent_sdk.CardState.{is_end}
use lark_bridge_agent_sdk.Agents.{AgentEvent, Library}
use lark_bridge_agent_sdk.Agents.Output.{Stream, push}
use lark_bridge_agent_sdk.Agents.Output.Quiet.{is_loud, Holds, push-QuietStep, any-append}
use lark_bridge_agent_sdk.Agents.Process.{
  Reading, take_event, take_events, take_value, take_line, take_lines, start_reading,
}

abbrev pub EndKept : Option AgentEvent → Type 0
EndKept none = Unit
EndKept (some e) = is_end e.type ≡ true

module _ {T : Type 0} (lib : Library) (translate : T → Json → T × List AgentEvent)
    (closed : T → Bool) where
  -- What has been sent ends nothing and is no final answer; what is kept as the end is one.
  abbrev Kept : Reading T → Type 0
  Kept r = Holds r.output × (any is_loud r.emitted ≡ false) × EndKept r.terminal

  -- Besides, a translator that is closed has told the end.
  abbrev pub IsReading : Reading T → Type 0
  IsReading r = Kept r × (closed r.translator ≡ true → is_some r.terminal ≡ true)

  -- A translator closes with an event that ends the run.
  abbrev pub Tells : Type 0
  Tells =
      (t : T) (raw : Json)
      → closed (translate t raw).0 ≡ true
      → (closed t ≡ true) ⊎ (any (λ e. is_end e.type) (translate t raw).1 ≡ true)

  take_event-Kept : (r : Reading T) (e : AgentEvent) → Kept r → Kept (take_event lib translate r e)
  take_event-Kept r e (h, q, k) = taken (is_end e.type) refl
    where
      pushed : Stream × List AgentEvent
      pushed = push lib r.output e

      taken :
          (ends : Bool)
          → is_end e.type ≡ ends
          → Kept (
              if ends
              then record r { terminal = some e }
              else record r { output = pushed.0; emitted = r.emitted ++ pushed.1 })
      taken true t = (h, q, t)
      taken false t =
          let (h', q') = push-QuietStep lib r.output e h t in
          (h', any-append is_loud r.emitted pushed.1 q q', k)

  take_events-Kept :
      (r : Reading T) (es : List AgentEvent) → Kept r → Kept (take_events lib translate r es)
  unfolding take_events
  take_events-Kept r [] h = h
  take_events-Kept r (e ∷ es) h =
      take_events-Kept (take_event lib translate r e) es (take_event-Kept r e h)

  take_event-terminal :
      (r : Reading T) (e : AgentEvent)
      → (is_some r.terminal ≡ true) ⊎ (is_end e.type ≡ true)
      → is_some (take_event lib translate r e).terminal ≡ true
  take_event-terminal r e h = ground arith

  take_events-terminal :
      (r : Reading T) (es : List AgentEvent)
      → (is_some r.terminal ≡ true) ⊎ (any (λ e. is_end e.type) es ≡ true)
      → is_some (take_events lib translate r es).terminal ≡ true
  unfolding take_events any
  take_events-terminal r [] (inl h) = h
  take_events-terminal r [] (inr h) = absurd (cc h)
  take_events-terminal r (e ∷ es) h = take_events-terminal (take_event lib translate r e) es next
    where
      next :
          (is_some (take_event lib translate r e).terminal ≡ true)
          ⊎ (any (λ e. is_end e.type) es ≡ true)
      next = elim h [
        | inl has ↦ inl (take_event-terminal r e (inl has))
        | inr found ↦ elim (or-split (is_end e.type) (any (λ e. is_end e.type) es) found) [
          | inl here ↦ inl (take_event-terminal r e (inr here))
          | inr later ↦ inr later
        ]
      ]

  take_events-translator :
      (r : Reading T) (es : List AgentEvent)
      → (take_events lib translate r es).translator ≡ r.translator
  unfolding take_events
  take_events-translator r [] = refl
  take_events-translator r (e ∷ es) =
      take_events-translator (take_event lib translate r e) es ∙ kept (is_end e.type)
    where
      kept :
          (ends : Bool)
          → (if ends then record r { terminal = some e } else record r {
            output = (push lib r.output e).0;
            emitted = r.emitted ++ (push lib r.output e).1;
          }).translator
            ≡ r.translator
      kept true = refl
      kept false = refl

  take_value-IsReading :
      Tells
      → (r : Reading T) (v : Option Json) → IsReading r
      → IsReading (take_value lib translate r v)
  take_value-IsReading tells r none h = h
  take_value-IsReading tells r (some raw) (kept, told) =
      let step = translate r.translator raw in
      let next : Reading T = record r { translator = step.0 } in
      (
        take_events-Kept next step.1 kept,
        λ is_closed.
            take_events-terminal next step.1
              (elim (tells r.translator raw
                (ap closed (sym (take_events-translator next step.1)) ∙ is_closed)) [
                  | inl before ↦ inl (told before)
                  | inr found ↦ inr found
                ]),
      )

  take_line-IsReading :
      Tells
      → (r : Reading T) (line : String) → IsReading r
      → IsReading (take_line lib translate r line)
  unfolding take_line
  take_line-IsReading tells r line h =
      if-lift IsReading (is_empty (trim_space line)) r
        (take_value lib translate r (lib.parse (trim_space line))) h
        (take_value-IsReading tells r (lib.parse (trim_space line)) h)

  pub take_lines-IsReading :
      Tells
      → (r : Reading T) (lines : List String) → IsReading r
      → IsReading (take_lines lib translate r lines)
  unfolding take_lines
  take_lines-IsReading tells r [] h = h
  take_lines-IsReading tells r (line ∷ lines) h =
      take_lines-IsReading tells (take_line lib translate r line) lines
        (take_line-IsReading tells r line h)

  pub start-IsReading : (t : T) → closed t ≡ false → IsReading (start_reading t)
  unfolding any
  start-IsReading t h = (((tt, refl), refl, tt), λ is_closed. absurd (cc (h, is_closed)))
