-- ===== src/RunFlow/Start.antt =====
-- internal/app/runflow/run_flow.go: `Start`, from the request for a run to its submission. The
-- directory that the workspace store names for the scope, the paths, the digests and what the
-- submission meets are arguments.
pub mod Checked
pub mod Progress
use lark_bridge_agent_sdk.Base.{
  ℕ, String, Bool, true, false, not, ◌&&◌, Option, none, some, List, [], ◌∷◌, ◌==◌, if◌then◌else◌,
  Result, ok, err,
}
use lark_bridge_agent_sdk.Profile.{AgentId, id_codex, Capability, Config}
use lark_bridge_agent_sdk.RunPolicy.{
  AgentAttachment, AttachmentDecision, Input, Allow, Evaluation, invalid, rejected, allowed,
  RejectCode,
}
use lark_bridge_agent_sdk.RunPolicy.Fingerprint.{Digests}
use lark_bridge_agent_sdk.RunPolicy.Evaluate.{evaluate, is_accepted}
use lark_bridge_agent_sdk.Workspace as Workspace
use lark_bridge_agent_sdk.Session.Store as SessionStore
use lark_bridge_agent_sdk.Execution.Submit.{
  Env, RunPolicy, SubmitInput, SubmitError, World, submit, policy_expired, run_already_active,
  pool_full, reconnect_in_progress,
}
use lark_bridge_agent_sdk.RunFlow.{StartInput, Flow, Resumption, is_codex, resolve_resume}

pub data StartReason : Type 0 where
  workspace_rejected : Workspace.RejectReason → StartReason
  policy_rejected : RejectCode → StartReason
  run_rejected : SubmitError → StartReason

pub record Started : Type 0 where
  pub run : ℕ
  pub policy : Allow
  pub resumption : Resumption
  pub images : List String

-- A run, a refusal that the user sees, or an error.
pub data StartResult : Type 0 where
  started : Started → StartResult
  refused : StartReason → StartResult
  failed : StartResult

-- `errors.As` with a `*RunRejected`.
unfoldable pub is_run_rejected : SubmitError → Bool
is_run_rejected policy_expired = true
is_run_rejected run_already_active = true
is_run_rejected pool_full = true
is_run_rejected (reconnect_in_progress reason) = true
is_run_rejected _ = false

unfoldable pub is_image : AgentAttachment → Bool
is_image attachment =
    attachment.kind == "image" && is_accepted attachment.decision && not (attachment.path == "")

unfoldable pub image_paths : List AgentAttachment → List String
image_paths [] = []
image_paths (attachment ∷ attachments) =
    let paths = image_paths attachments in
    if is_image attachment then attachment.path ∷ paths else paths

unfoldable pub codex_images : Capability → List AgentAttachment → List String
codex_images cap attachments = if is_codex cap.agent_id then image_paths attachments else []

unfoldable pub policy_input : StartInput → String → String → Input
policy_input input requested_cwd cwd_realpath = record {
  scope = input.scope;
  attachments = input.attachments;
  prompt = input.prompt;
  requested_cwd = requested_cwd;
  cwd_realpath = cwd_realpath;
  access = input.access;
  capability = input.capability;
  profile_config = input.profile_config;
  codex_home = "";
  inherit_codex_home = false;
  ttl = 0;
}

unfoldable pub requested_cwd : StartInput → Option String → String
requested_cwd input none = input.profile_config.default_workspace
requested_cwd input (some cwd) = if cwd == "" then input.profile_config.default_workspace else cwd

unfoldable pub submit_outcome :
    StartInput → Allow → Resumption → Flow → Result SubmitError ℕ × World → StartResult × Flow
submit_outcome input policy resumption flow (err e, w) =
    (if is_run_rejected e then refused (run_rejected e) else failed, record flow { world = w })
submit_outcome input policy resumption flow (ok run, w) = (
  started (record {
    run = run;
    policy = policy;
    resumption = resumption;
    images = codex_images input.capability policy.attachments;
  }),
  record flow { world = w },
)

abbrev pub to_executor_policy : Allow → RunPolicy
to_executor_policy policy = record {
  prompt = policy.prompt;
  cwd_realpath = policy.cwd_realpath;
  access_mode = policy.access_mode;
  sandbox = policy.sandbox;
  permission_mode = policy.permission_mode;
  expires_at = some policy.expires_at;
}

abbrev pub submission_of : StartInput → Allow → Resumption → SubmitInput
submission_of input policy resumption = record {
  scope_id = input.scope_id;
  policy = to_executor_policy policy;
  session_id = resumption.session_id;
  thread_id = resumption.thread_id;
  model = input.model;
  images = codex_images input.capability policy.attachments;
  stop_grace_ms = input.stop_grace_ms;
  nowait = input.nowait;
}

unfoldable pub submit_run :
    Env → StartInput → Allow → Flow → Resumption × Option SessionStore.Store → StartResult × Flow
unfolding submit_outcome
submit_run env input policy flow (resumption, sessions) =
    submit_outcome input policy resumption (record flow { sessions = sessions })
      (submit env (submission_of input policy resumption) flow.world)

unfoldable pub start_evaluated : Env → StartInput → ℕ → Flow → Evaluation → StartResult × Flow
unfolding submit_run
start_evaluated env input now flow invalid = (failed, flow)
start_evaluated env input now flow (rejected code) = (refused (policy_rejected code), flow)
start_evaluated env input now flow (allowed policy) = submit_run env input policy flow (
    resolve_resume input.scope_id input.capability.agent_id policy now flow.sessions
      flow.session_catalog)

unfoldable pub start_resolved :
    Digests
    → Env
    → StartInput
    → ℕ
    → Flow
    → String
    → Result Workspace.RejectReason String
    → StartResult × Flow
unfolding start_evaluated policy_input
start_resolved d env input now flow cwd (err reason) = (refused (workspace_rejected reason), flow)
start_resolved d env input now flow cwd (ok cwd_realpath) =
    start_evaluated env input now flow (evaluate d (policy_input input cwd cwd_realpath) now)

unfoldable pub start :
    Workspace.Paths → Digests → Env → StartInput → Option String → ℕ → Flow → StartResult × Flow
unfolding start_resolved requested_cwd
start paths d env input workspace_cwd now flow =
    let cwd = requested_cwd input workspace_cwd in
    start_resolved d env input now flow cwd (Workspace.resolve_working_directory paths cwd)
