-- ===== src/RunFlow/Start/Progress.antt =====
-- internal/app/runflow/run_flow.go: a run with nothing in its way starts.
use lark_bridge_agent_sdk.Base.{
  ℕ, ◌<◌, String, false, Option, none, ◌≡◌, refl, ap, ◌∙◌, Result, ok, err,
}
use lark_bridge_agent_sdk.Base.Map.{lookup}
use lark_bridge_agent_sdk.RunPolicy.{Allow, allowed}
use lark_bridge_agent_sdk.RunPolicy.Fingerprint.{Digests}
use lark_bridge_agent_sdk.RunPolicy.Evaluate.{evaluate}
use lark_bridge_agent_sdk.Workspace as Workspace
use lark_bridge_agent_sdk.Session.Store as SessionStore
use lark_bridge_agent_sdk.Execution.Pool.{current_cap}
use lark_bridge_agent_sdk.Execution.Runs.{new_runs_paused}
use lark_bridge_agent_sdk.Execution.Submit.{Env, SubmitError, World}
use lark_bridge_agent_sdk.Execution.Submit.Progress.{Unhindered, submit-ok}
use lark_bridge_agent_sdk.RunFlow.{StartInput, Flow, Resumption, resolve_resume}
use lark_bridge_agent_sdk.RunFlow.Start.{
  submission_of, StartResult, started, codex_images, policy_input, requested_cwd, submit_outcome,
  submit_run, start_evaluated, start_resolved, start,
}

abbrev pub started_with : StartInput → Allow → Resumption → ℕ → StartResult
started_with input policy resumption run = started (record {
  run = run;
  policy = policy;
  resumption = resumption;
  images = codex_images input.capability policy.attachments;
})

-- Nothing keeps the executor from a run of this scope.
abbrev pub IsFree : Env → String → World → Type 0
IsFree env scope_id w =
    (w.pool.active < current_cap env.capacity)
    × (new_runs_paused w.runs ≡ false)
    × (lookup scope_id w.runs.handles ≡ none)
    × (lookup scope_id w.runs.reservations ≡ none)

outcome-started :
    (input : StartInput) (policy : Allow) (resumption : Resumption) (f : Flow)
    (o : Result SubmitError ℕ × World) (run : ℕ)
    → o.0 ≡ ok run
    → (submit_outcome input policy resumption f o).0 ≡ started_with input policy resumption run
unfolding submit_outcome
outcome-started input policy resumption f (err e, w) run h = absurd (cc h)
outcome-started input policy resumption f (ok n, w) run h =
    ap (started_with input policy resumption) (cc h)

module _ (env : Env) (run : ℕ) (free : Unhindered env run) (input : StartInput) (flow : Flow)
    (idle : IsFree env input.scope_id flow.world) where
  submitted-started :
      (policy : Allow) (r : Resumption × Option SessionStore.Store)
      → env.now < policy.expires_at
      → (submit_run env input policy flow r).0 ≡ started_with input policy r.0 run
  unfolding submit_run
  submitted-started policy (resumption, sessions) l =
      outcome-started input policy resumption (record flow { sessions = sessions }) _ run
        (submit-ok env run (submission_of input policy resumption) flow.world policy.expires_at free
          refl l idle.0 idle.1 idle.2 idle.3)

  -- A run starts if its directory is accepted, its policy is allowed and has not expired when it is
  -- submitted, the executor is free for its scope, and nothing hinders the submission.
  pub start-started :
      (paths : Workspace.Paths) (d : Digests) (workspace_cwd : Option String) (now : ℕ)
      (cwd_realpath : String) (policy : Allow)
      → Workspace.resolve_working_directory paths (requested_cwd input workspace_cwd)
        ≡ ok cwd_realpath
      → evaluate d (policy_input input (requested_cwd input workspace_cwd) cwd_realpath) now
        ≡ allowed policy
      → env.now < policy.expires_at
      → (start paths d env input workspace_cwd now flow).0
        ≡ started_with input policy
            (resolve_resume input.scope_id input.capability.agent_id policy now flow.sessions
              flow.session_catalog).0
            run
  unfolding start start_resolved start_evaluated
  start-started paths d workspace_cwd now cwd_realpath policy w e l =
      let cwd = requested_cwd input workspace_cwd in
      ap (λ r. (start_resolved d env input now flow cwd r).0) w
      ∙ ap (λ v. (start_evaluated env input now flow v).0) e
      ∙ submitted-started policy
          (resolve_resume input.scope_id input.capability.agent_id policy now flow.sessions
            flow.session_catalog)
          l
