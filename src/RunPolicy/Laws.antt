-- ===== src/RunPolicy/Laws.antt =====
-- internal/domain/runpolicy/run_policy.go: what an allowed run may do.
use lark_bridge_agent_sdk.Base.{
  ℕ, ◌≤◌, ◌<◌, true, false, some, any, ◌≡◌, ◌≢◌, refl, ap, subst, ◌∙◌, ok, err, Result, arith,
}
use lark_bridge_agent_sdk.Permissions.{
  AccessMode, CodexSandboxMode, PermissionError, access_order, access_of_mode, is_access_mode,
}
use lark_bridge_agent_sdk.Permissions.Bounds.{
  IsValid, clamp_access-IsAccessMode, access_to_codex_sandbox-ok, clamp_access-meet,
  access_to_claude_permission_mode-le,
}
use lark_bridge_agent_sdk.Permissions.Convert.{access_to_codex_sandbox}
use lark_bridge_agent_sdk.RunPolicy.{Input, Allow, invalid, allowed}
use lark_bridge_agent_sdk.RunPolicy.Fingerprint.{Digests}
use lark_bridge_agent_sdk.RunPolicy.Evaluate.{
  is_unverified_folder, is_missing, access_mode_of, evaluated, evaluate,
}

allowed-injective : (p q : Allow) → allowed p ≡ allowed q → p ≡ q
allowed-injective p q h = cc h

-- What a policy keeps of its input and of its sandbox.
abbrev Fits : Input → ℕ → Result PermissionError CodexSandboxMode → Allow → Type 0
Fits input now r p =
    (p.access_mode ≡ access_mode_of input)
    × (r ≡ ok p.sandbox)
    × (access_order (access_of_mode p.permission_mode) ≤ access_order p.access_mode)
    × (now < p.expires_at)

evaluated-Fits :
    (d : Digests) (input : Input) (now : ℕ) (r : Result PermissionError CodexSandboxMode)
    (p : Allow)
    → evaluated d input now r ≡ allowed p
    → Fits input now r p
unfolding evaluated
evaluated-Fits d input now (err e) p h = absurd (cc h)
evaluated-Fits d input now (ok sandbox) p h =
    subst (Fits input now (ok sandbox)) (allowed-injective _ p h) (
      refl,
      refl,
      access_to_claude_permission_mode-le (access_mode_of input)
          (some input.profile_config.permissions),
      ground arith,
    )

evaluate-tests :
    (d : Digests) (input : Input) (now : ℕ) (p : Allow)
    → evaluate d input now ≡ allowed p
    → (input.access.allowed ≡ true)
      × (any is_unverified_folder input.scope.resource_bindings ≡ false)
      × (any is_missing input.attachments ≡ false)
      × (evaluated d input now (access_to_codex_sandbox (access_mode_of input)) ≡ allowed p)
unfolding evaluate
evaluate-tests d input now p h = ground (arith, h)

-- A run that `Evaluate` allows was asked for by a sender with access, has no unverified folder among
-- its resources and no required attachment that was not accepted. Its access mode lies within the
-- default and the maximum of the profile and the maximum of the agent, its sandbox is the one of
-- that mode, its Claude mode grants no more, and it expires later than now.
pub evaluate-allowed :
    (d : Digests) (input : Input) (now : ℕ) (p : Allow)
    → evaluate d input now ≡ allowed p
    → (input.access.allowed ≡ true)
      × (any is_unverified_folder input.scope.resource_bindings ≡ false)
      × (any is_missing input.attachments ≡ false)
      × (access_order p.access_mode ≤ access_order input.profile_config.permissions.default_access)
      × (access_order p.access_mode ≤ access_order input.profile_config.permissions.max_access)
      × (access_order p.access_mode ≤ access_order input.capability.max_access)
      × (access_to_codex_sandbox p.access_mode ≡ ok p.sandbox)
      × (access_order (access_of_mode p.permission_mode) ≤ access_order p.access_mode)
      × (now < p.expires_at)
unfolding access_mode_of
evaluate-allowed d input now p h =
    let tests = evaluate-tests d input now p h in
    let fits = evaluated-Fits d input now _ p tests.3 in
    let c = input.profile_config.permissions in
    let meet = clamp_access-meet c.default_access c.max_access input.capability.max_access in
    let same = ap access_order fits.0 in
    (
      tests.0,
      tests.1,
      tests.2,
      omega (arith, same, meet.0),
      omega (arith, same, meet.0),
      omega (arith, same, meet.0),
      ap access_to_codex_sandbox fits.0 ∙ fits.1,
      fits.2,
      fits.3,
    )

evaluated-decides :
    (d : Digests) (input : Input) (now : ℕ) (m : AccessMode)
    → is_access_mode m ≡ true
    → evaluated d input now (access_to_codex_sandbox m) ≢ invalid
unfolding evaluated
evaluated-decides d input now m k h =
    let sandbox = access_to_codex_sandbox-ok m k in
    absurd (cc (ap (evaluated d input now) sandbox.1, h))

-- Where the permissions of the profile are valid and the maximum of the agent is a known access
-- mode, `Evaluate` does not fail with an error: it rejects the run or allows it.
pub evaluate-decides :
    (d : Digests) (input : Input) (now : ℕ)
    → IsValid input.profile_config.permissions
    → is_access_mode input.capability.max_access ≡ true
    → evaluate d input now ≢ invalid
unfolding evaluate access_mode_of
evaluate-decides d input now v c h =
    let p = input.profile_config.permissions in
    evaluated-decides d input now (access_mode_of input)
      (clamp_access-IsAccessMode p.default_access p.max_access input.capability.max_access
        v.default_known v.max_known c)
      (ground (arith, h))
