-- ===== src/Intake/Scope/Laws.antt =====
-- internal/app/intake/scope.go: events of one conversation meet in one scope.
use lark_bridge_agent_sdk.Base.{◌≡◌, ◌≢◌, eq_iff, arith}
use lark_bridge_agent_sdk.Intake.Types.{MessageInput, CardActionInput}
use lark_bridge_agent_sdk.Intake.Scope.{message_scope, pick_key, pick_parent, card_action_scope}

-- A card action without a scope of its own belongs to the same scope as a message in the same chat
-- and thread, and sees the same chat mode; one that carries a scope belongs to that scope, the
-- explicit one before the inherited one, and only an inherited scope becomes its parent.
pub card_action_scope-key :
    (card : CardActionInput) (msg : MessageInput)
    → card.chat_id ≡ msg.chat_id
    → card.thread_id ≡ msg.thread_id
    → card.chat_type ≡ msg.chat_type
    → card.resolved_mode ≡ msg.resolved_mode
    → let s = card_action_scope card in
      (card.explicit_scope ≡ ""
        → card.inherit_scope ≡ ""
        → (s.key ≡ (message_scope msg).key) × (s.parent_key ≡ ""))
      × (card.explicit_scope ≢ "" → (s.key ≡ card.explicit_scope) × (s.parent_key ≡ ""))
      × (card.explicit_scope ≡ ""
          → card.inherit_scope ≢ ""
          → (s.key ≡ card.inherit_scope) × (s.parent_key ≡ card.inherit_scope))
      × (s.chat_mode ≡ (message_scope msg).chat_mode)
unfolding card_action_scope message_scope pick_key pick_parent
card_action_scope-key card msg c t ty m = (
  λ e i. ground (arith, eq_iff card.explicit_scope "", eq_iff card.inherit_scope ""),
  λ e. ground (arith, eq_iff card.explicit_scope ""),
  λ e i. ground (arith, eq_iff card.explicit_scope "", eq_iff card.inherit_scope ""),
  ground arith,
)
