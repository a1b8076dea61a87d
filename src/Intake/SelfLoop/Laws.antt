-- ===== src/Intake/SelfLoop/Laws.antt =====
-- internal/app/intake/self.go: exactly which events are dropped.
use lark_bridge_agent_sdk.Base.{String, ◌≡◌, ◌≢◌, ◌↔◌, ◌⊎◌, Bool, true, false, eq_iff, arith}
use lark_bridge_agent_sdk.Base.Json.{Fields}
use lark_bridge_agent_sdk.Intake.Types.{not_self}
use lark_bridge_agent_sdk.Intake.SelfLoop.{SelfLoopPolicy, bool_metadata, nested_mark, evaluate}

-- Some map of metadata inside the metadata says that the bridge sent the event.
abbrev pub Marked : Fields → Type 0
Marked metadata =
    (nested_mark metadata "replyMetadata" ≡ true)
    ⊎ ((nested_mark metadata "reply_metadata" ≡ true) ⊎ (nested_mark metadata "metadata" ≡ true))

-- The event was sent by the bot, is flagged as a reply of the bridge, or is marked.
abbrev pub FromBridge : SelfLoopPolicy → String → Bool → Fields → Type 0
FromBridge p open_id is_reply metadata =
    ((p.bot_open_id ≢ "") × (open_id ≡ p.bot_open_id))
    ⊎ (((is_reply ≡ true)
          ⊎ ((bool_metadata metadata "bridgeReply" ≡ true)
              ⊎ (bool_metadata metadata "bridge_reply" ≡ true)))
        ⊎ Marked metadata)

-- An event is dropped exactly if it comes from the bridge, and a reason is given exactly if it is
-- dropped.
pub evaluate_iff :
    (p : SelfLoopPolicy) (open_id : String) (is_reply : Bool) (metadata : Fields)
    → let d = evaluate p open_id is_reply metadata in
      ((d.drop ≡ true) ↔ FromBridge p open_id is_reply metadata)
      × ((d.reason ≡ not_self) ↔ (d.drop ≡ false))
unfolding evaluate
evaluate_iff p open_id is_reply metadata = (
  (
    λ h. ground (arith, eq_iff p.bot_open_id "", eq_iff open_id p.bot_open_id),
    λ h. ground (arith, eq_iff p.bot_open_id "", eq_iff open_id p.bot_open_id),
  ),
  (λ h. ground arith, λ h. ground arith),
)
