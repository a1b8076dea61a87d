-- ===== src/RunFlow/Start/Checked.antt =====
-- internal/app/runflow/run_flow.go: every run that `Start` starts was checked first, and its agent is
-- told what was checked.
use lark_bridge_agent_sdk.Base.{
  ℕ, String, Option, ◌≡◌, refl, subst, Result, ok, err, arith, List, ◌∷◌,
}
use lark_bridge_agent_sdk.Permissions.{CodexSandboxMode, PermissionError}
use lark_bridge_agent_sdk.RunPolicy.{Allow, Evaluation, invalid, rejected, allowed, Input}
use lark_bridge_agent_sdk.RunPolicy.Fingerprint.{Digests}
use lark_bridge_agent_sdk.RunPolicy.Evaluate.{evaluate, evaluated}
use lark_bridge_agent_sdk.Workspace as Workspace
use lark_bridge_agent_sdk.Session.Store as SessionStore
use lark_bridge_agent_sdk.Execution.Submit.{
  Env, SubmitError, World, submit, Effect, prepares, spawns, AgentRunOptions, run_options,
}
use lark_bridge_agent_sdk.Execution.Submit.Processes.{Spawns, submit-Spawns}
use lark_bridge_agent_sdk.RunFlow.{StartInput, Flow, Resumption, resolve_resume}
use lark_bridge_agent_sdk.RunFlow.Start.{
  Started, started, policy_input, requested_cwd, submit_outcome, submit_run, start_evaluated,
  start_resolved, start, codex_images, submission_of,
}

-- What a policy takes over from its input.
abbrev Carries : Input → Allow → Type 0
Carries input policy =
    (input.prompt ≡ policy.prompt)
    × (input.cwd_realpath ≡ policy.cwd_realpath)
    × (input.attachments ≡ policy.attachments)

evaluated-Carries :
    (d : Digests) (input : Input) (now : ℕ) (r : Result PermissionError CodexSandboxMode)
    (policy : Allow)
    → evaluated d input now r ≡ allowed policy
    → Carries input policy
unfolding evaluated
evaluated-Carries d input now (err e) policy h = absurd (cc h)
evaluated-Carries d input now (ok sandbox) policy h = ground (arith, h)

evaluate-Carries :
    (d : Digests) (input : Input) (now : ℕ) (policy : Allow)
    → evaluate d input now ≡ allowed policy
    → Carries input policy
unfolding evaluate
evaluate-Carries d input now policy h = ground (arith, evaluated-Carries d input now _ policy)

-- What the agent is told: the prompt of the request, the directory that was accepted, the sandbox
-- and the permission mode of the policy, the session or thread to resume, and the images.
abbrev pub told : StartInput → String → Allow → Resumption → AgentRunOptions
told input cwd_realpath policy resumption = record {
  prompt = input.prompt;
  cwd = cwd_realpath;
  session_id = resumption.session_id;
  thread_id = resumption.thread_id;
  model = input.model;
  images = codex_images input.capability input.attachments;
  sandbox = policy.sandbox;
  permission_mode = policy.permission_mode;
  stop_grace_ms = input.stop_grace_ms;
}

-- The run has this policy and resumes from this, and since the effects `before` the agent has only
-- prepared and started it, with these options.
abbrev pub Runs : AgentRunOptions → Allow → Resumption → List Effect → Flow → Started → Type 0
Runs options policy resumption before after run =
    (run.policy ≡ policy)
    × (run.resumption ≡ resumption)
    × (after.world.effects ≡ spawns options run.run ∷ prepares options ∷ before)

module _ (input : StartInput) (now : ℕ) (flow : Flow) where
  outcome-Runs :
      (options : AgentRunOptions) (policy : Allow) (resumption : Resumption) (f : Flow)
      (o : Result SubmitError ℕ × World) (run : Started)
      → Spawns options flow.world.effects o
      → (submit_outcome input policy resumption f o).0 ≡ started run
      → Runs options policy resumption flow.world.effects
          (submit_outcome input policy resumption f o).1
          run
  unfolding submit_outcome
  outcome-Runs options policy resumption f (err e, w) run s h = absurd (ground (arith, h))
  outcome-Runs options policy resumption f (ok n, w) run s h = ground (arith, h, s)

  abbrev pub resumed : Allow → Resumption
  resumed policy =
      (resolve_resume input.scope_id input.capability.agent_id policy now flow.sessions
        flow.session_catalog).0

  module _ (d : Digests) (env : Env) where
    run-Runs :
        (policy : Allow) (r : Resumption × Option SessionStore.Store) (run : Started)
        → (submit_run env input policy flow r).0 ≡ started run
        → Runs
            (run_options (submission_of input policy r.0))
            policy
            r.0
            flow.world.effects
            (submit_run env input policy flow r).1
            run
    unfolding submit_run
    run-Runs policy (resumption, sessions) run h =
        let submission = submission_of input policy resumption in
        outcome-Runs (run_options submission) policy resumption
          (record flow { sessions = sessions }) (submit env submission flow.world) run
          (submit-Spawns env submission flow.world) h

    run_options-told :
        (cwd cwd_realpath : String) (policy : Allow) (resumption : Resumption)
        → Carries (policy_input input cwd cwd_realpath) policy
        → run_options (submission_of input policy resumption)
          ≡ told input cwd_realpath policy resumption
    unfolding run_options policy_input
    run_options-told cwd cwd_realpath policy resumption (p, c, a) = ground (arith, p, c, a)

    evaluated-Runs :
        (cwd cwd_realpath : String) (e : Evaluation) (run : Started)
        → evaluate d (policy_input input cwd cwd_realpath) now ≡ e
        → (start_evaluated env input now flow e).0 ≡ started run
        → (policy : Allow) × (e ≡ allowed policy)
          × Runs
              (told input cwd_realpath policy (resumed policy))
              policy
              (resumed policy)
              flow.world.effects
              (start_evaluated env input now flow e).1
              run
    unfolding start_evaluated
    evaluated-Runs cwd cwd_realpath invalid run v h = absurd (cc h)
    evaluated-Runs cwd cwd_realpath (rejected code) run v h = absurd (cc h)
    evaluated-Runs cwd cwd_realpath (allowed policy) run v h = (
      policy,
      refl,
      subst
          (λ o.
            Runs o policy (resumed policy) flow.world.effects
              (start_evaluated env input now flow (allowed policy)).1 run)
          (run_options-told cwd cwd_realpath policy (resumed policy)
            (evaluate-Carries d (policy_input input cwd cwd_realpath) now policy v))
          (run-Runs policy _ run h),
    )

    resolved-Runs :
        (cwd : String) (r : Result Workspace.RejectReason String) (run : Started)
        → (start_resolved d env input now flow cwd r).0 ≡ started run
        → (cwd_realpath : String) × (r ≡ ok cwd_realpath)
          × (policy : Allow) × (evaluate d (policy_input input cwd cwd_realpath) now
              ≡ allowed policy)
          × Runs
              (told input cwd_realpath policy (resumed policy))
              policy
              (resumed policy)
              flow.world.effects
              (start_resolved d env input now flow cwd r).1
              run
    unfolding start_resolved
    resolved-Runs cwd (err reason) run h = absurd (cc h)
    resolved-Runs cwd (ok cwd_realpath) run h =
        let (policy, e, runs) = evaluated-Runs cwd cwd_realpath _ run refl h in
        (cwd_realpath, refl, policy, e, runs)

-- `Start` starts a run only in a directory that `ResolveWorkingDirectory` accepted and under a policy
-- that `Evaluate` allowed for that directory, and the agent has prepared and started just this run:
-- with the prompt of the request, in that directory, in the sandbox and the permission mode of that
-- policy, with the session or thread that the stores held for the scope, the agent and that policy,
-- and, for Codex, with the accepted images of the request.
pub start-Submits :
    (paths : Workspace.Paths) (d : Digests) (env : Env) (input : StartInput)
    (workspace_cwd : Option String) (now : ℕ) (flow : Flow) (run : Started)
    → (start paths d env input workspace_cwd now flow).0 ≡ started run
    → (cwd_realpath : String) × (Workspace.resolve_working_directory paths
          (requested_cwd input workspace_cwd)
        ≡ ok cwd_realpath)
      × (policy : Allow) × (evaluate d
            (policy_input input (requested_cwd input workspace_cwd) cwd_realpath)
            now
          ≡ allowed policy)
      × Runs
          (told input cwd_realpath policy (resumed input now flow policy))
          policy
          (resumed input now flow policy)
          flow.world.effects
          (start paths d env input workspace_cwd now flow).1
          run
unfolding start
start-Submits paths d env input workspace_cwd now flow run h =
    resolved-Runs input now flow d env (requested_cwd input workspace_cwd) _ run h
