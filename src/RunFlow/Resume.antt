-- ===== src/RunFlow/Resume.antt =====
-- internal/app/runflow/run_flow.go: which session the next run of a scope resumes from.
use lark_bridge_agent_sdk.Base.{ℕ, String, true, none, some}
use lark_bridge_agent_sdk.Profile.{AgentId}
use lark_bridge_agent_sdk.RunPolicy.{Allow}
use lark_bridge_agent_sdk.Session.Store as SessionStore
use lark_bridge_agent_sdk.Session.Catalog.{Catalog}
use lark_bridge_agent_sdk.RunFlow.{Sessions, SystemEvent, Resumption, resolve_resume}

abbrev pub claude_event : String → SystemEvent
claude_event session = record {
  is_system = true;
  session_id = some session;
  thread_id = none;
  cwd = none;
}

abbrev pub codex_event : String → SystemEvent
codex_event thread = record {
  is_system = true;
  session_id = none;
  thread_id = some thread;
  cwd = none;
}

-- What the next run of the scope resumes from.
abbrev pub resumes_next : String → AgentId → Allow → ℕ → Sessions → Resumption
resumes_next scope_id agent_id policy later s =
    (resolve_resume scope_id agent_id policy later s.0 s.1).0
