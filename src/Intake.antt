-- ===== src/Intake.antt =====
-- internal/app/intake: from an incoming message, comment or card action to the batches of events
-- that a scope's worker gets.
pub mod Types
pub mod Scope
pub mod SelfLoop
pub mod Queue
