-- ===== src/Access.antt =====
-- internal/domain/access: who may talk to the bot, in which chat, and who may administer it.
pub mod Laws
mod Tests
use lark_bridge_agent_sdk.Base.{
  ℕ, String, Bool, true, false, not, ◌&&◌, ◌==◌, if◌then◌else◌, includes,
}
use lark_bridge_agent_sdk.Profile.{Config}

pub data OwnerRefreshState : Type 0 where
  refresh_ok refresh_failed refresh_unknown : OwnerRefreshState
  other_refresh : String → OwnerRefreshState

pub record RuntimeControls : Type 0 where
  pub bot_owner_id : String
  pub owner_refresh_state : OwnerRefreshState
  pub owner_refreshed_at : ℕ
  pub owner_refresh_error : String

pub data Reason : Type 0 where
  owner allowed_user allowed_admin allowed_chat comment_mention : Reason
  denied_user denied_chat denied_admin : Reason

-- `OK` in the source; a field cannot be called like the constructor of a result.
pub record Decision : Type 0 where
  pub allowed : Bool
  pub reason : Reason

pub is_known : OwnerRefreshState → Bool
is_known refresh_unknown = false
is_known _ = true

pub is_creator : RuntimeControls → String → Bool
unfolding is_known
is_creator controls sender_id =
    is_known controls.owner_refresh_state
    && not (controls.bot_owner_id == "")
    && controls.bot_owner_id == sender_id

abbrev allow : Reason → Decision
allow reason = record { allowed = true; reason = reason }

abbrev deny : Reason → Decision
deny reason = record { allowed = false; reason = reason }

pub can_use_dm : Config → RuntimeControls → String → Decision
can_use_dm cfg controls sender_id =
    if is_creator controls sender_id
    then allow owner
    else if includes cfg.access.allowed_users sender_id
    then allow allowed_user
    else if includes cfg.access.admins sender_id
    then allow allowed_admin
    else deny denied_user

pub can_use_group : Config → RuntimeControls → String → String → Decision
can_use_group cfg controls chat_id sender_id =
    if is_creator controls sender_id
    then allow owner
    else if includes cfg.access.admins sender_id
    then allow allowed_admin
    else if includes cfg.access.allowed_chats chat_id
    then allow allowed_chat
    else deny denied_chat

pub can_run_admin_command : Config → RuntimeControls → String → Decision
can_run_admin_command cfg controls sender_id =
    if is_creator controls sender_id
    then allow owner
    else if includes cfg.access.admins sender_id
    then allow allowed_admin
    else deny denied_admin
