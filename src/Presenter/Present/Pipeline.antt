-- ===== src/Presenter/Present/Pipeline.antt =====
-- internal/adapters/agent, internal/app/runexecutor/fanout.go and internal/app/impresenter: a run from
-- what the agent prints to what `Present` returns.
use lark_bridge_agent_sdk.Base.{ℕ, zero, suc, ◌≡◌, true, Option, none, some, List, [], ◌∷◌, ◌⊎◌}
use lark_bridge_agent_sdk.CardState.Terminal.{is_terminal}
use lark_bridge_agent_sdk.Agents.{AgentEvent}
use lark_bridge_agent_sdk.Agents.Codex
use lark_bridge_agent_sdk.Agents.Process.EndsOnce.{EndsOnce}
use lark_bridge_agent_sdk.Execution.Fanout.{Subscriber}
use lark_bridge_agent_sdk.Presenter.Present.{
  Setup, Loop, going, finished, abandoned, hangs, is_card, mode_of, Arrival, arrives,
}
use lark_bridge_agent_sdk.Presenter.Present.Conclude.{EndAnswers, conclude}
use lark_bridge_agent_sdk.Presenter.Present.Hangs.{Returns}

-- The subscriber with a number.
unfoldable pub subscriber_at : ℕ → List Subscriber → Option Subscriber
subscriber_at n [] = none
subscriber_at zero (s ∷ ss) = some s
subscriber_at (suc n) (s ∷ ss) = subscriber_at n ss

-- The events among the arrivals.
unfoldable pub arrived : List Arrival → List AgentEvent
arrived [] = []
arrived (arrives e a ∷ xs) = e ∷ arrived xs
arrived (_ ∷ xs) = arrived xs

-- The loop is left, what `Present` returns is over, and it does return; only where the replies are
-- cards a loop of the presenter may use up its fuel.
abbrev pub ComesToEnd : Setup → EndAnswers → Loop → Type 0
ComesToEnd setup last (going p) = ⊥
ComesToEnd setup last (finished p) =
    (is_terminal (conclude setup last p).state.status ≡ true)
    × (Returns (conclude setup last p).delivery ⊎ (is_card (mode_of setup) ≡ true))
ComesToEnd setup last (abandoned p) = Unit
ComesToEnd setup last (hangs p) = is_card (mode_of setup) ≡ true
