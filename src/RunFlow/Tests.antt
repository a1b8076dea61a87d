-- ===== src/RunFlow/Tests.antt =====
-- internal/app/runflow: the first run of a chat.
use lark_bridge_agent_sdk.Base.{
  String, none, some, [], ◌∷◌, ◌≡◌, refl, true, false, ok, arith, any, includes,
}
use lark_bridge_agent_sdk.Base.Map.{lookup}
use lark_bridge_agent_sdk.Permissions.{workspace, workspace_write, clamp_access, access_order}
use lark_bridge_agent_sdk.Permissions.Convert.{
  access_to_codex_sandbox, access_to_claude_permission_mode,
}
use lark_bridge_agent_sdk.Profile.{id_claude}
use lark_bridge_agent_sdk.RunPolicy.{Allow, allowed}
use lark_bridge_agent_sdk.RunPolicy.Evaluate.{
  is_unverified_folder, is_missing, access_mode_of, fingerprint_of, evaluated, evaluate,
}
use lark_bridge_agent_sdk.Workspace as Workspace
use lark_bridge_agent_sdk.Execution.Pool.{current_cap}
use lark_bridge_agent_sdk.Execution.Runs.{new_runs_paused}
use lark_bridge_agent_sdk.Execution.Submit.Progress.{Unhindered}
use lark_bridge_agent_sdk.RunFlow.{StartInput, Flow, Resumption, resolve_resume}
use lark_bridge_agent_sdk.RunFlow.Start.{
  codex_images, Started, started, policy_input, requested_cwd, start,
}
use lark_bridge_agent_sdk.RunFlow.Start.Checked.{Runs, told, resumed, start-Submits}
use lark_bridge_agent_sdk.RunFlow.Start.Progress.{IsFree, started_with, start-started}
use lark_bridge_agent_sdk.Samples.{
  profile, agent, chat, picture, known_user, toy_digests, idle, quiet,
}

abbrev paths : Workspace.Paths
paths = record {
  trim_space = λ s. s;
  abs = λ s. some s;
  eval_symlinks = λ s. some s;
  is_dir = λ s. some true;
  clean = λ s. s;
  dir = λ s. "/";
  base = λ s. s;
  volume_name = λ s. "";
  separator = "/";
  temp_dir = "/var/tmp";
  user_home_dir = some "/home/u";
  windows = false;
}

abbrev request : StartInput
request = record {
  scope_id = "chat";
  scope = chat;
  prompt = "hello";
  attachments = picture ∷ [];
  access = known_user;
  capability = agent;
  profile_config = profile;
  stop_grace_ms = 500;
  model = "";
  nowait = true;
}

abbrev policy : Allow
policy = record {
  prompt = "hello";
  requested_cwd = "/work";
  cwd_realpath = "/work";
  access_mode = workspace;
  sandbox = workspace_write;
  permission_mode = access_to_claude_permission_mode workspace (some profile.permissions);
  access = known_user;
  attachments = picture ∷ [];
  policy_fingerprint =
      fingerprint_of toy_digests (policy_input request "/work" "/work") workspace_write;
  expires_at = 300100;
}

abbrev flow : Flow
flow = record { sessions = some []; session_catalog = some []; world = idle }

quiet-Unhindered : Unhindered quiet 7
quiet-Unhindered = (refl, λ k a. refl, refl, refl, refl, refl)

idle-IsFree : IsFree quiet "chat" idle
unfolding current_cap new_runs_paused lookup
idle-IsFree = (omega arith, refl, refl, refl)

resolved : Workspace.resolve_working_directory paths (requested_cwd request none) ≡ ok "/work"
unfolding requested_cwd Workspace.resolve_working_directory
    Workspace.classify_high_risk_working_directory Workspace.safe_realpath Workspace.real_of
    Workspace.safe_home_of includes
resolved = refl

evaluation :
    evaluate toy_digests (policy_input request (requested_cwd request none) "/work") 100
    ≡ allowed policy
unfolding requested_cwd policy_input evaluate any is_unverified_folder is_missing evaluated
    access_mode_of access_to_codex_sandbox clamp_access access_order
evaluation = refl

abbrev resumption : Resumption
resumption = (resolve_resume "chat" id_claude policy 100 flow.sessions flow.session_catalog).0

start-started_example :
    (start paths toy_digests quiet request none 100 flow).0
    ≡ started_with request policy resumption 7
start-started_example =
    start-started quiet 7 quiet-Unhindered request flow idle-IsFree paths toy_digests none 100
      "/work" policy resolved evaluation (omega arith)

abbrev first_run : Started
first_run = record {
  run = 7;
  policy = policy;
  resumption = resumption;
  images = codex_images agent (picture ∷ []);
}

first_started : (start paths toy_digests quiet request none 100 flow).0 ≡ started first_run
first_started =
    start-started quiet 7 quiet-Unhindered request flow idle-IsFree paths toy_digests none 100
      "/work" policy resolved evaluation (omega arith)

start-Submits_example :
    (cwd_realpath : String) × (Workspace.resolve_working_directory paths
        (requested_cwd request none)
      ≡ ok cwd_realpath)
    × (p : Allow) × (evaluate toy_digests
          (policy_input request (requested_cwd request none) cwd_realpath)
          100
        ≡ allowed p)
    × Runs
        (told request cwd_realpath p (resumed request 100 flow p))
        p
        (resumed request 100 flow p)
        flow.world.effects
        (start paths toy_digests quiet request none 100 flow).1
        first_run
start-Submits_example =
    start-Submits paths toy_digests quiet request none 100 flow first_run first_started
