-- ===== src/Intake/SelfLoop/Tests.antt =====
-- internal/app/intake/self.go: a comment with the bridge's mark in nested metadata.
use lark_bridge_agent_sdk.Base.{◌≡◌, refl, true, false}
use lark_bridge_agent_sdk.Base.Json.{Fields, bool, obj, no_fields, field}
use lark_bridge_agent_sdk.Intake.Types.{bridge_metadata}
use lark_bridge_agent_sdk.Intake.SelfLoop.{
  default_self_loop_policy, evaluate, bool_metadata, nested_mark, get,
}

abbrev marked : Fields
marked = field "metadata" (obj (field "bridge" (bool true) no_fields)) no_fields

marked_reason :
    (evaluate (default_self_loop_policy "ou_bot") "ou_1" false marked).reason ≡ bridge_metadata
unfolding evaluate default_self_loop_policy bool_metadata nested_mark get
marked_reason = refl
