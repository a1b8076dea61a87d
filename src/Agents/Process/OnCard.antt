-- ===== src/Agents/Process/OnCard.antt =====
-- internal/adapters/agent and internal/app/cardrender/state.go: a run of an agent on its card.
use lark_bridge_agent_sdk.Base.{
  String, ◌≡◌, refl, sym, ap, subst, ◌∙◌, Option, List, [], ◌∷◌, ◌++◌, map,
}
use lark_bridge_agent_sdk.CardState.{RunState, RunStateInput}
use lark_bridge_agent_sdk.CardState.Reduce.{reduce, reduce_all, new_run_state}
use lark_bridge_agent_sdk.CardState.Streaming.{new_run_state-LastOpen}
use lark_bridge_agent_sdk.CardState.Terminal.{IsSettled, reduce-IsSettled}
use lark_bridge_agent_sdk.Agents.{AgentEvent, Library, to_card_event}
use lark_bridge_agent_sdk.Agents.Codex
use lark_bridge_agent_sdk.Agents.Claude
use lark_bridge_agent_sdk.Agents.Process.{Ending}
use lark_bridge_agent_sdk.Agents.Process.Streams.{codex_stream, claude_stream}
use lark_bridge_agent_sdk.Agents.Process.EndsOnce.{
  EndsOnce, codex_stream-EndsOnce, claude_stream-EndsOnce,
}

-- The card of a run with these events.
unfoldable pub card_of : RunStateInput → List AgentEvent → RunState
unfolding new_run_state reduce_all
card_of input es = reduce_all (new_run_state input) (map to_card_event es)

reduce_all-append :
    (s : RunState) (es : List AgentEvent) (e : AgentEvent)
    → reduce_all s (map to_card_event (es ++ e ∷ []))
      ≡ reduce (reduce_all s (map to_card_event es)) (to_card_event e)
unfolding reduce_all
reduce_all-append s [] e = refl
reduce_all-append s (f ∷ es) e = reduce_all-append (reduce s (to_card_event f)) es e

card_of-IsSettled :
    (input : RunStateInput) (es : List AgentEvent) → EndsOnce es → IsSettled (card_of input es)
unfolding card_of to_card_event
card_of-IsSettled input es (front, last, e, t, few) =
    let before = reduce_all (new_run_state input) (map to_card_event front) in
    subst IsSettled
      (sym (ap (card_of input) e ∙ reduce_all-append (new_run_state input) front last))
      (reduce-IsSettled before (to_card_event last)
        (new_run_state-LastOpen input (map to_card_event front)) t)

-- Whatever Codex prints and however its process ends, the card of its run is settled in the end:
-- nothing streams, no reasoning is active, no footer is shown, and the status is a final one.
pub codex_stream-IsSettled :
    (input : RunStateInput) (lib : Library) (lines : List String)
    (ending : Ending Codex.FinishReason) (final : Option String)
    → IsSettled (card_of input (codex_stream lib lines ending final))
codex_stream-IsSettled input lib lines ending final =
    card_of-IsSettled input (codex_stream lib lines ending final)
      (codex_stream-EndsOnce lib lines ending final)

-- Whatever Claude prints and however its process ends, the card of its run is settled in the end:
-- nothing streams, no reasoning is active, no footer is shown, and the status is a final one.
pub claude_stream-IsSettled :
    (input : RunStateInput) (lib : Library) (lines : List String)
    (ending : Ending Claude.FinishReason)
    → IsSettled (card_of input (claude_stream lib lines ending))
claude_stream-IsSettled input lib lines ending =
    card_of-IsSettled input (claude_stream lib lines ending)
      (claude_stream-EndsOnce lib lines ending)
