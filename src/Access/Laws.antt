-- ===== src/Access/Laws.antt =====
-- internal/domain/access: how the three kinds of right relate.
use lark_bridge_agent_sdk.Base.{◌≡◌, String, true, arith}
use lark_bridge_agent_sdk.Profile.{Config}
use lark_bridge_agent_sdk.Access.{RuntimeControls, can_use_dm, can_use_group, can_run_admin_command}

-- Whoever may run admin commands may also use the bot in direct messages and in every group, and
-- for the same reason in groups.
pub admin_dominates :
    (cfg : Config) (controls : RuntimeControls) (chat_id sender_id : String)
    → (can_run_admin_command cfg controls sender_id).allowed ≡ true
    → ((can_use_dm cfg controls sender_id).allowed ≡ true)
      × (can_use_group cfg controls chat_id sender_id
          ≡ can_run_admin_command cfg controls sender_id)
unfolding can_run_admin_command can_use_dm can_use_group
admin_dominates cfg controls chat_id sender_id h = ground arith
