-- ===== src/Presenter.antt =====
-- internal/app/impresenter: how the state of a run becomes messages and cards in a chat. The layout
-- of a card is a parameter: `size` is the number of bytes of the card that `renderContinuationCard`
-- makes of a state, and nothing where its JSON fails; `tool_line` and `timeout_line` are the lines of
-- a tool and of a timeout in a message.
pub mod Actions
pub mod Content
pub mod Markdown
pub mod Present
pub mod Delta
pub mod Prefix
pub mod Rollover
pub mod Grows
pub mod Mirror
pub mod WholeRun
pub mod RollsEnd
mod Tests
pub mod Search
pub mod Split
pub mod Cards
pub mod Weight
pub mod Shown
pub mod Same
pub mod Segment
use lark_bridge_agent_sdk.Base.{ℕ, String, Bool, Option}
use lark_bridge_agent_sdk.CardState.{ToolEntry, RunState}

pub data ReplyMode : Type 0 where
  reply_markdown reply_text reply_card : ReplyMode
  other_mode : String → ReplyMode

-- `CardRolloverPolicy`: a limit of zero or less is a limit of zero here, and disables it.
pub record RolloverPolicy : Type 0 where
  pub max_bytes : ℕ
  pub max_updates : ℕ

-- The fields of `Input` that decide what is shown.
pub record Input : Type 0 where
  pub reply_mode : ReplyMode
  pub stream_throttle : ℕ
  pub max_message_updates : ℕ
  pub hide_tool_calls : Bool
  pub card_rollover : RolloverPolicy
  pub final_answer_only : Bool
  pub size : RunState → Option ℕ
  pub tool_line : ToolEntry → String
  pub timeout_line : ℕ → String
