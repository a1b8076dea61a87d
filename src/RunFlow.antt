-- ===== src/RunFlow.antt =====
-- internal/app/runflow/run_flow.go: from a message to a run, and the sessions that runs leave.
-- `none` is a nil store. The clock of the session store is the `now` of the call.
pub mod Resume
pub mod Start
mod Tests
use lark_bridge_agent_sdk.Base.{
  ℕ, String, Bool, true, false, not, ◌&&◌, Option, none, some, List, [], ◌∷◌, ◌==◌, if◌then◌else◌,
  or_else, Result, ok, err,
}
use lark_bridge_agent_sdk.Profile.{AgentId, id_claude, id_codex, other_id, Capability, Config}
use lark_bridge_agent_sdk.Access.{Decision}
use lark_bridge_agent_sdk.RunPolicy.{ScopeContext, AgentAttachment, Allow}
use lark_bridge_agent_sdk.Session.Store as SessionStore
use lark_bridge_agent_sdk.Session.Catalog.{
  Catalog, CatalogIdentity, CatalogEntry, CatalogError, UpsertCatalogInput, active_for,
  upsert_active, is_claude,
}
use lark_bridge_agent_sdk.Execution.Submit.{World}

abbrev pub is_codex : AgentId → Bool
is_codex id_codex = true
is_codex _ = false

pub record StartInput : Type 0 where
  pub scope_id : String
  pub scope : ScopeContext
  pub prompt : String
  pub attachments : List AgentAttachment
  pub access : Decision
  pub capability : Capability
  pub profile_config : Config
  pub stop_grace_ms : ℕ
  pub model : String
  pub nowait : Bool

-- The stores and the executor that the calls share.
pub record Flow : Type 0 where
  pub sessions : Option SessionStore.Store
  pub session_catalog : Option Catalog
  pub world : World

-- The session, the thread, and the one of them that the run resumes from.
pub record Resumption : Type 0 where
  pub session_id : String
  pub thread_id : String
  pub resume_from : String

abbrev pub nothing_to_resume : Resumption
nothing_to_resume = record { session_id = ""; thread_id = ""; resume_from = "" }

abbrev pub identity_of : String → AgentId → Allow → CatalogIdentity
identity_of scope_id agent_id policy = record {
  scope_id = scope_id;
  agent_id = agent_id;
  cwd_realpath = policy.cwd_realpath;
  policy_fingerprint = policy.policy_fingerprint;
}

unfoldable pub catalogued : CatalogIdentity → Option Catalog → Option CatalogEntry
catalogued identity none = none
catalogued identity (some catalog) = active_for identity catalog

-- A session for another directory is forgotten.
unfoldable pub forget_stale :
    String → String → ℕ → SessionStore.Store → Option SessionStore.Entry → SessionStore.Store
forget_stale scope_id cwd now sessions none = sessions
forget_stale scope_id cwd now sessions (some stale) =
    if not (stale.cwd == "") && not (stale.cwd == cwd)
    then SessionStore.clear scope_id now sessions
    else sessions

-- The session store, for Claude.
unfoldable pub resume_stored :
    String → String → ℕ → Option SessionStore.Store → Resumption × Option SessionStore.Store
unfolding forget_stale
resume_stored scope_id cwd now none = (nothing_to_resume, none)
resume_stored scope_id cwd now (some sessions) =
    let resume = SessionStore.resume_for scope_id cwd sessions in
    if not (resume == "")
    then (record { session_id = resume; thread_id = ""; resume_from = resume }, some sessions)
    else (
      nothing_to_resume,
      some (forget_stale scope_id cwd now sessions (SessionStore.get_raw scope_id sessions)),
    )

unfoldable pub resume_uncatalogued :
    String
    → AgentId
    → String
    → ℕ
    → Option SessionStore.Store
    → Resumption × Option SessionStore.Store
unfolding resume_stored
resume_uncatalogued scope_id agent_id cwd now sessions =
    if is_claude agent_id
    then resume_stored scope_id cwd now sessions
    else (nothing_to_resume, sessions)

unfoldable pub resumed_from :
    String
    → AgentId
    → String
    → ℕ
    → Option SessionStore.Store
    → Option CatalogEntry
    → Resumption × Option SessionStore.Store
unfolding resume_uncatalogued
resumed_from scope_id agent_id cwd now sessions none =
    resume_uncatalogued scope_id agent_id cwd now sessions
resumed_from scope_id agent_id cwd now sessions (some entry) =
    if is_claude entry.identity.agent_id
    then (
      record { session_id = entry.session_id; thread_id = ""; resume_from = entry.session_id },
      sessions,
    )
    else if is_codex entry.identity.agent_id
    then (
      record { session_id = ""; thread_id = entry.thread_id; resume_from = entry.thread_id },
      sessions,
    )
    else resume_uncatalogued scope_id agent_id cwd now sessions

unfoldable pub resolve_resume :
    String
    → AgentId
    → Allow
    → ℕ
    → Option SessionStore.Store
    → Option Catalog
    → Resumption × Option SessionStore.Store
unfolding resumed_from catalogued
resolve_resume scope_id agent_id policy now sessions catalog =
    resumed_from scope_id agent_id policy.cwd_realpath now sessions
      (catalogued (identity_of scope_id agent_id policy) catalog)

-- The fields of an agent's event that name its session.
pub record SystemEvent : Type 0 where
  pub is_system : Bool
  pub session_id : Option String
  pub thread_id : Option String
  pub cwd : Option String

abbrev pub filled : Option String → Bool
filled none = false
filled (some s) = not (s == "")

abbrev pub error_of : Result CatalogError CatalogEntry → Option CatalogError
error_of (ok entry) = none
error_of (err e) = some e

unfoldable pub upsert_into :
    UpsertCatalogInput → ℕ → Option Catalog → Option CatalogError × Option Catalog
upsert_into input now none = (none, none)
upsert_into input now (some catalog) =
    (error_of (upsert_active input now catalog).0, some (upsert_active input now catalog).1)

abbrev pub set_into :
    String → String → String → ℕ → Option SessionStore.Store → Option SessionStore.Store
set_into scope_id session cwd now none = none
set_into scope_id session cwd now (some sessions) =
    some (SessionStore.set scope_id session cwd now sessions)

abbrev pub Sessions : Type 0
Sessions = Option SessionStore.Store × Option Catalog

unfoldable pub record_claude :
    String → Allow → SystemEvent → ℕ → Sessions → Option CatalogError × Sessions
unfolding upsert_into
record_claude scope_id policy event now (sessions, catalog) =
    let session = or_else event.session_id "" in
    let cwd = if filled event.cwd then or_else event.cwd "" else policy.cwd_realpath in
    let upserted =
      upsert_into
        (record {
          identity = record {
            scope_id = scope_id;
            agent_id = id_claude;
            cwd_realpath = cwd;
            policy_fingerprint = policy.policy_fingerprint;
          };
          session_id = session;
          thread_id = "";
          last_summary = "";
        })
        now catalog in
    (upserted.0, (set_into scope_id session cwd now sessions, upserted.1))

unfoldable pub record_codex :
    String → Allow → SystemEvent → ℕ → Sessions → Option CatalogError × Sessions
unfolding upsert_into
record_codex scope_id policy event now (sessions, catalog) =
    let upserted =
      upsert_into
        (record {
          identity = identity_of scope_id id_codex policy;
          session_id = "";
          thread_id = or_else event.thread_id "";
          last_summary = "";
        })
        now catalog in
    (upserted.0, (sessions, upserted.1))

unfoldable pub record_session_event :
    String → AgentId → Allow → SystemEvent → ℕ → Sessions → Option CatalogError × Sessions
unfolding record_claude record_codex
record_session_event scope_id agent_id policy event now s =
    if not event.is_system
    then (none, s)
    else if is_claude agent_id && filled event.session_id
    then record_claude scope_id policy event now s
    else if is_codex agent_id && filled event.thread_id
    then record_codex scope_id policy event now s
    else (none, s)
