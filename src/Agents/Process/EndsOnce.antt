-- ===== src/Agents/Process/EndsOnce.antt =====
-- internal/adapters/agent/codexcli/adapter.go and claudecli/adapter.go: every run ends exactly once.
use lark_bridge_agent_sdk.Base.{
  String, ◌≡◌, refl, subst, Bool, true, false, not, ◌&&◌, Option, none, some, List, [], ◌∷◌, ◌++◌,
  if◌then◌else◌, if-lift, any, inl, arith, is_some,
}
use lark_bridge_agent_sdk.CardState.{is_end}
use lark_bridge_agent_sdk.Agents.{AgentEvent, Library}
use lark_bridge_agent_sdk.Agents.Output.{Stream, finish}
use lark_bridge_agent_sdk.Agents.Output.Quiet.{is_loud, Holds}
use lark_bridge_agent_sdk.Agents.Output.Closing.{AtMost, AtMost-append, quiet-AtMost, finish-AtMost}
use lark_bridge_agent_sdk.Agents.Codex
use lark_bridge_agent_sdk.Agents.Codex.Translate as CodexTranslate
use lark_bridge_agent_sdk.Agents.Codex.Tells.{translate-TellsEnd}
use lark_bridge_agent_sdk.Agents.Claude
use lark_bridge_agent_sdk.Agents.Claude.Translate as ClaudeTranslate
use lark_bridge_agent_sdk.Agents.Process.{
  Ending, Reading, take_lines, start_reading, terminal_error, terminal_exit_error, exited_well,
  is_error_event, is_success, send_end,
}
use lark_bridge_agent_sdk.Agents.Process.Reads.{EndKept, take_lines-IsReading, start-IsReading}
use lark_bridge_agent_sdk.Agents.Process.Streams.{
  or_runtime, unless_failed, first_event, interrupted_event, stop_base, codex_reason, last_event,
  codex_unfinished, codex_stopped, codex_terminal, end_codex, codex_stream, claude_stopped,
  claude_terminal, claude_stream,
}

-- The events of a run: the last one ends it and no other does, and among the others there is at most
-- one final answer, and none where the end is not a normal one.
abbrev pub EndsOnce : List AgentEvent → Type 0
EndsOnce es =
    (front : List AgentEvent) × (last : AgentEvent) × (es ≡ front ++ last ∷ [])
    × (is_end last.type ≡ true)
    × AtMost (if is_success last then 1 else 0) front

send_end-EndsOnce :
    (lib : Library) (s : Stream) (emitted : List AgentEvent) (final : Option String)
    (e : AgentEvent)
    → Holds s
    → any is_loud emitted ≡ false
    → is_end e.type ≡ true
    → EndsOnce (send_end lib s emitted final e)
unfolding send_end
send_end-EndsOnce lib s emitted final e h q t =
    let rest = (finish lib s final (is_success e)).1 in
    (
      emitted ++ rest,
      e,
      refl,
      t,
      subst (λ n. AtMost n (emitted ++ rest)) (ground arith)
          (AtMost-append 0 (if is_success e then 1 else 0) emitted rest (quiet-AtMost 0 emitted q)
            (finish-AtMost lib s final (is_success e) h)),
    )

or_runtime-EndKept :
    (name : String) (e : Option String) (terminal : Option AgentEvent)
    → EndKept terminal
    → EndKept (or_runtime name e terminal)
unfolding terminal_error
or_runtime-EndKept name none terminal h = h
or_runtime-EndKept name (some e) terminal h = refl

unless_failed-EndKept :
    {R : Type 0} (lib : Library) (name : String) (ending : Ending R) (terminal : Option AgentEvent)
    → EndKept terminal
    → EndKept (unless_failed lib name ending terminal)
unfolding unless_failed terminal_exit_error terminal_error
unless_failed-EndKept lib name ending terminal h = or_runtime-EndKept name ending.runtime_error _ (
    if-lift EndKept (not (exited_well ending.exit_code) && not (is_error_event terminal))
      (some (terminal_exit_error lib name ending.exit_code ending.stderr)) terminal refl h)

claude_stopped-end :
    (r : Reading Claude.Translator) (reason : Option Claude.FinishReason) (e : Option AgentEvent)
    → EndKept e
    → is_end (claude_stopped r reason e).type ≡ true
unfolding Claude.done_event terminal_error
claude_stopped-end r (some reason) e h = refl
claude_stopped-end r none (some e) h = h
claude_stopped-end r none none h = refl

-- Whatever Claude prints and however its process ends, a run sends exactly one end, as the last
-- event. Before it there is at most one final answer, and none unless the run ended normally.
pub claude_stream-EndsOnce :
    (lib : Library) (lines : List String) (ending : Ending Claude.FinishReason)
    → EndsOnce (claude_stream lib lines ending)
unfolding claude_stream claude_terminal
claude_stream-EndsOnce lib lines ending =
    let translate = ClaudeTranslate.translate lib in
    let r = take_lines lib translate (start_reading Claude.new_translator) lines in
    let ((h, q, k), told) =
      take_lines-IsReading lib translate (λ t. false) (λ t raw closed. inl closed)
        (start_reading Claude.new_translator) lines
        (start-IsReading lib translate (λ t. false) Claude.new_translator refl) in
    send_end-EndsOnce lib r.output r.emitted none (claude_terminal lib r ending) h q (
      claude_stopped-end r ending.stop_reason (unless_failed lib "claude" ending r.terminal)
        (unless_failed-EndKept lib "claude" ending r.terminal k))

-- The end of a Codex run is there, and it is an end.
abbrev IsKnown : Option AgentEvent → Type 0
IsKnown none = ⊥
IsKnown (some e) = is_end e.type ≡ true

codex_reason-end :
    (reason : Codex.FinishReason) (e : AgentEvent)
    → is_end e.type ≡ true
    → is_end (codex_reason reason e).type ≡ true
codex_reason-end Codex.finish_timeout e h = h
codex_reason-end Codex.finish_failed e h = h
codex_reason-end Codex.finish_interrupted e h = h
codex_reason-end (Codex.other_finish s) e h = h

finish_event-end :
    (lib : Library) (t : Codex.Translator) (reason : Codex.FinishReason)
    → is_end (CodexTranslate.finish_event lib t reason).type ≡ true
unfolding Codex.done_event Codex.error_event
finish_event-end lib t Codex.finish_interrupted = refl
finish_event-end lib t Codex.finish_timeout = refl
finish_event-end lib t Codex.finish_failed = refl
finish_event-end lib t (Codex.other_finish s) = refl

stop_base-end :
    (lib : Library) (r : Reading Codex.Translator) (reason : Codex.FinishReason)
    (e : Option AgentEvent)
    → is_end (stop_base lib r reason e).type ≡ true
unfolding CodexTranslate.finish_translation
stop_base-end lib r reason (some e) = refl
stop_base-end lib r reason none =
    if-lift {A = Codex.Step} (λ step. is_end (first_event interrupted_event step.1).type ≡ true)
      r.translator.terminal _ _ refl (finish_event-end lib r.translator reason)

codex_unfinished-IsKnown :
    (lib : Library) (r : Reading Codex.Translator) (e : Option AgentEvent)
    → EndKept e
    → (r.translator.terminal ≡ true → is_some e ≡ true)
    → IsKnown (codex_unfinished lib r e)
unfolding CodexTranslate.finish_translation last_event
codex_unfinished-IsKnown lib r (some e) h told = h
codex_unfinished-IsKnown lib r none h told = known r.translator.terminal refl
  where
    known :
        (closed : Bool)
        → r.translator.terminal ≡ closed
        → IsKnown (
            last_event
              (if◌then◌else◌ {A = Codex.Step} closed
                (r.translator, [])
                (
                  record r.translator { terminal = true },
                  CodexTranslate.finish_event lib r.translator (Codex.other_finish "") ∷ [],
                )).1)
    known true e = absurd (cc (told e))
    known false e = finish_event-end lib r.translator (Codex.other_finish "")

codex_stopped-IsKnown :
    (lib : Library) (r : Reading Codex.Translator) (reason : Option Codex.FinishReason)
    (e : Option AgentEvent)
    → EndKept e
    → (r.translator.terminal ≡ true → is_some e ≡ true)
    → IsKnown (codex_stopped lib r reason e)
codex_stopped-IsKnown lib r (some reason) e h told =
    codex_reason-end reason (stop_base lib r reason r.terminal)
      (stop_base-end lib r reason r.terminal)
codex_stopped-IsKnown lib r none e h told = codex_unfinished-IsKnown lib r e h told

or_runtime-some :
    (name : String) (e : Option String) (terminal : Option AgentEvent)
    → is_some terminal ≡ true
    → is_some (or_runtime name e terminal) ≡ true
or_runtime-some name none terminal h = h
or_runtime-some name (some e) terminal h = refl

unless_failed-some :
    {R : Type 0} (lib : Library) (name : String) (ending : Ending R) (terminal : Option AgentEvent)
    → is_some terminal ≡ true
    → is_some (unless_failed lib name ending terminal) ≡ true
unfolding unless_failed
unless_failed-some lib name ending terminal h = or_runtime-some name ending.runtime_error _ (
    if-lift (λ e. is_some e ≡ true)
      (not (exited_well ending.exit_code) && not (is_error_event terminal))
      (some (terminal_exit_error lib name ending.exit_code ending.stderr)) terminal refl h)

end_codex-EndsOnce :
    (lib : Library) (r : Reading Codex.Translator) (final : Option String) (e : Option AgentEvent)
    → Holds r.output
    → any is_loud r.emitted ≡ false
    → IsKnown e
    → EndsOnce (end_codex lib r final e)
end_codex-EndsOnce lib r final (some e) h q t =
    send_end-EndsOnce lib r.output r.emitted final e h q t
end_codex-EndsOnce lib r final none h q t = elim t [ ]

-- Whatever Codex prints and however its process ends, a run sends exactly one end, as the last
-- event. Before it there is at most one final answer, and none unless the run ended normally.
pub codex_stream-EndsOnce :
    (lib : Library) (lines : List String) (ending : Ending Codex.FinishReason)
    (final : Option String)
    → EndsOnce (codex_stream lib lines ending final)
unfolding codex_stream codex_terminal
codex_stream-EndsOnce lib lines ending final =
    let translate = CodexTranslate.translate lib in
    let r = take_lines lib translate (start_reading Codex.new_translator) lines in
    let ((h, q, k), told) =
      take_lines-IsReading lib translate (λ t. t.terminal) (translate-TellsEnd lib)
        (start_reading Codex.new_translator) lines
        (start-IsReading lib translate (λ t. t.terminal) Codex.new_translator refl) in
    end_codex-EndsOnce lib r final (codex_terminal lib r ending) h q (
      codex_stopped-IsKnown lib r ending.stop_reason (unless_failed lib "codex" ending r.terminal)
        (unless_failed-EndKept lib "codex" ending r.terminal k)
        (λ closed. unless_failed-some lib "codex" ending r.terminal (told closed)))
