-- ===== src/Intake/SelfLoop.antt =====
-- internal/app/intake/self.go and normalize.go: which events the bridge caused itself, and the
-- normalised events.
pub mod Laws
mod Tests
use lark_bridge_agent_sdk.Base.{
  String, Bool, true, false, not, ◌&&◌, ◌||◌, Option, none, some, List, [], ◌∷◌, ◌==◌,
  if◌then◌else◌,
}
use lark_bridge_agent_sdk.Base.Json.{Json, Fields, null, bool, num, str, arr, obj, no_fields, field}
use lark_bridge_agent_sdk.Intake.Types.{
  MessageInput, CommentInput, CardActionInput, ReconnectInput, KeepaliveInput, DisconnectInput,
  EventKind, message, comment, card_action, reconnect, keepalive, disconnect, SelfLoopReason,
  not_self, bot_open_id, bridge_reply, bridge_metadata, SelfLoopDecision, NormalizedEvent,
  reconnect_source, keepalive_source, disconnect_source,
}
use lark_bridge_agent_sdk.Intake.Scope.{
  message_scope, card_action_scope, comment_scope, lifecycle_scope,
}

pub record SelfLoopPolicy : Type 0 where
  pub bot_open_id : String
  pub drop_messages_from_bot : Bool
  pub drop_comments_from_bot : Bool
  pub drop_card_actions_from_bot : Bool

pub default_self_loop_policy : String → SelfLoopPolicy
default_self_loop_policy bot_id = record {
  bot_open_id = bot_id;
  drop_messages_from_bot = true;
  drop_comments_from_bot = true;
  drop_card_actions_from_bot = true;
}

-- A map of metadata; a missing key reads as nil, and so does every key of the nil map.
unfoldable pub get : String → Fields → Json
get key no_fields = null
get key (field k v rest) = if k == key then v else get key rest

as_bool : Json → Bool
as_bool (bool b) = b
as_bool _ = false

as_text : Json → String
as_text (str s) = s
as_text _ = ""

-- `none` where the value is no map.
as_fields : Json → Option Fields
as_fields (obj fields) = some fields
as_fields _ = none

pub bool_metadata : Fields → String → Bool
unfolding as_bool
bool_metadata metadata key = as_bool (get key metadata)

from_bridge : Option Fields → Bool
unfolding as_text
from_bridge none = false
from_bridge (some nested) =
    bool_metadata nested "bridge"
    || bool_metadata nested "bridgeReply"
    || as_text (get "source" nested) == "lark-channel-bridge"

pub nested_mark : Fields → String → Bool
unfolding from_bridge as_fields
nested_mark metadata key = from_bridge (as_fields (get key metadata))

-- The loop over the three keys: the first map with a mark ends it.
scan_nested : Fields → List String → SelfLoopDecision
scan_nested metadata [] = record { drop = false; reason = not_self }
scan_nested metadata (key ∷ rest) =
    if nested_mark metadata key
    then record { drop = true; reason = bridge_metadata }
    else scan_nested metadata rest

pub evaluate : SelfLoopPolicy → String → Bool → Fields → SelfLoopDecision
unfolding scan_nested
evaluate p open_id is_reply metadata =
    if not (p.bot_open_id == "") && open_id == p.bot_open_id
    then record { drop = true; reason = bot_open_id }
    else if is_reply
        || bool_metadata metadata "bridgeReply"
        || bool_metadata metadata "bridge_reply"
    then record { drop = true; reason = bridge_reply }
    else scan_nested metadata ("replyMetadata" ∷ "reply_metadata" ∷ "metadata" ∷ [])

abbrev no_decision : SelfLoopDecision
no_decision = record { drop = false; reason = not_self }

pub evaluate_message : SelfLoopPolicy → MessageInput → SelfLoopDecision
evaluate_message p input =
    if p.drop_messages_from_bot
    then evaluate p input.sender.open_id false input.metadata
    else no_decision

pub evaluate_comment : SelfLoopPolicy → CommentInput → SelfLoopDecision
evaluate_comment p input =
    if p.drop_comments_from_bot
    then evaluate p input.operator.open_id input.bridge_reply input.metadata
    else no_decision

pub evaluate_card_action : SelfLoopPolicy → CardActionInput → SelfLoopDecision
evaluate_card_action p input =
    if p.drop_card_actions_from_bot
    then evaluate p input.operator.open_id false input.metadata
    else no_decision

pub normalize_message : SelfLoopPolicy → MessageInput → NormalizedEvent
normalize_message p input = record {
  kind = message;
  scope = message_scope input;
  self = evaluate_message p input;
  message = some input;
  comment = none;
  card_action = none;
  reconnect = none;
  keepalive = none;
  disconnect = none;
}

pub normalize_comment : (String → String) → SelfLoopPolicy → CommentInput → NormalizedEvent
normalize_comment digest p input = record {
  kind = comment;
  scope = comment_scope digest input;
  self = evaluate_comment p input;
  message = none;
  comment = some input;
  card_action = none;
  reconnect = none;
  keepalive = none;
  disconnect = none;
}

pub normalize_card_action : SelfLoopPolicy → CardActionInput → NormalizedEvent
normalize_card_action p input = record {
  kind = card_action;
  scope = card_action_scope input;
  self = evaluate_card_action p input;
  message = none;
  comment = none;
  card_action = some input;
  reconnect = none;
  keepalive = none;
  disconnect = none;
}

pub normalize_reconnect : ReconnectInput → NormalizedEvent
normalize_reconnect input = record {
  kind = reconnect;
  scope = lifecycle_scope reconnect_source;
  self = no_decision;
  message = none;
  comment = none;
  card_action = none;
  reconnect = some input;
  keepalive = none;
  disconnect = none;
}

pub normalize_keepalive : KeepaliveInput → NormalizedEvent
normalize_keepalive input = record {
  kind = keepalive;
  scope = lifecycle_scope keepalive_source;
  self = no_decision;
  message = none;
  comment = none;
  card_action = none;
  reconnect = none;
  keepalive = some input;
  disconnect = none;
}

pub normalize_disconnect : DisconnectInput → NormalizedEvent
normalize_disconnect input = record {
  kind = disconnect;
  scope = lifecycle_scope disconnect_source;
  self = no_decision;
  message = none;
  comment = none;
  card_action = none;
  reconnect = none;
  keepalive = none;
  disconnect = some input;
}
