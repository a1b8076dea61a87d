-- ===== src/Presenter/Actions.antt =====
-- internal/app/impresenter/user_action.go: the delivery of messages that ask the user to act.
pub mod Laws
mod Tests
use lark_bridge_agent_sdk.Base.{
  String, Bool, true, false, not, ◌&&◌, ◌||◌, Option, none, some, List, [], ◌∷◌, ◌++◌, ◌==◌,
  includes, if◌then◌else◌,
}
use lark_bridge_agent_sdk.Base.Json.{Json, Fields}
use lark_bridge_agent_sdk.Base.Map.{Map, lookup, insert, delete}
use lark_bridge_agent_sdk.Base.Text.{is_blank, is_empty}
use lark_bridge_agent_sdk.CardState.Blocks.{value}
use lark_bridge_agent_sdk.Agents.{AgentEvent}
use lark_bridge_agent_sdk.Agents.Values.{record_value}

pub record ActionDelivery : Type 0 where
  pub delivered : List String
  pub failures : Map String

abbrev pub no_deliveries : ActionDelivery
no_deliveries = record { delivered = []; failures = [] }

-- The answers of the channel during one call: the errors of a message and of an ordinary card, and
-- of an agent's card where the presenter can send one.
pub record Answers : Type 0 where
  pub message_error : Option String
  pub card_error : Option String
  pub agent_card : Option (Option String)

pub data Sent : Type 0 where
  sent_message sent_card : String → Sent
  sent_agent_card : Fields → Sent

abbrev is_named : AgentEvent → String → Bool
is_named e name = value e.name == name

abbrev pub key_of : AgentEvent → String
key_of e = if is_empty (value e.id) then value e.delta else value e.id

abbrev pub public_notice : String
public_notice = "用户身份授权需要在私聊中完成，请私信我后继续。"

-- A link that authorizes is shown in a private chat only.
abbrev pub body_of : Bool → AgentEvent → String
body_of private e =
    if is_named e "authorization" && not private then public_notice else value e.delta

abbrev card_failed : String
card_failed = "交互卡片发送失败，请通过文字回复继续。"

-- What was sent, and the error that is left.
abbrev pub send_agent_card : Option (Option String) → Option Fields → List Sent × Option String
send_agent_card (some none) (some card) = (sent_agent_card card ∷ [], none)
send_agent_card (some (some e)) (some card) =
    (sent_agent_card card ∷ sent_message card_failed ∷ [], some e)
send_agent_card _ _ =
    (sent_message card_failed ∷ [], some "interactive card delivery is unavailable")

-- A prompt that cannot be sent as a message is sent as a card.
abbrev pub send_prompt : Answers → String → Option String → List Sent × Option String
send_prompt answers body none = (sent_message body ∷ [], none)
send_prompt answers body (some e) = (sent_message body ∷ sent_card body ∷ [], answers.card_error)

unfoldable pub attempt : Bool → Answers → AgentEvent → List Sent × Option String
attempt private answers e =
    if is_named e "card"
    then send_agent_card answers.agent_card (record_value e.input)
    else send_prompt answers (body_of private e) answers.message_error

-- What is recorded as a failure is also what the caller of the presenter is told.
abbrev pub recorded : ActionDelivery → String → Option String → ActionDelivery
recorded d key none = record { delivered = key ∷ d.delivered; failures = delete key d.failures }
recorded d key (some e) = record d { failures = insert key e d.failures }

-- Whether there is anything to send; `channel` says whether the presenter has a channel.
abbrev pub is_attempted : Bool → AgentEvent → Bool
is_attempted channel e = channel && not (is_blank (value e.delta))

-- `send`.
unfoldable pub send :
    Bool → Bool → Answers → AgentEvent → ActionDelivery → ActionDelivery × List Sent
unfolding attempt
send channel private answers e d =
    let (sent, error) = attempt private answers e in
    if not (is_attempted channel e) || includes d.delivered (key_of e)
    then (d, [])
    else (recorded d (key_of e) error, sent)
