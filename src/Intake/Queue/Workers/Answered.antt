-- ===== src/Intake/Queue/Workers/Answered.antt =====
-- internal/app/intake/queue.go: who waits for the handler is served.
use lark_bridge_agent_sdk.Intake.Queue.Workers.{Workers}
use lark_bridge_agent_sdk.Intake.Queue.Workers.Placed.{Served}
