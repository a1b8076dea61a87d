-- ===== src/Permissions/Bounds.antt =====
-- internal/domain/permissions: no setting raises a run above the configured maximum.
use lark_bridge_agent_sdk.Base.{
  ◌≤◌, ◌≡◌, Bool, true, Option, none, some, arith, min, inl, inr, ok, Post, Post-bind, Post-ok,
  Bool-cases, refl,
}
use lark_bridge_agent_sdk.Permissions.{
  CodexSandboxMode, sandbox_read_only, workspace_write, danger_full_access, read_only, workspace,
  full, other_access, AccessMode, PermissionSource, ClaudePermissionConfig, PermissionConfig,
  PartialPermissionConfig, PartialClaudePermissionConfig, LegacySandboxInput, NormalizeInput,
  NormalizedPermissions, access_order, is_access_mode, is_claude_permission_mode, access_of_mode,
  assert_access_pair, invalid_max_access, invalid_default_access, from_permissions, clamp_access,
}
use lark_bridge_agent_sdk.Permissions.Convert.{
  access_to_claude_permission_mode, access_to_codex_sandbox,
}
use lark_bridge_agent_sdk.Permissions.Normalise.{
  normalize_permissions, has_legacy_sandbox, normalize_over, normalize_base,
  normalize_canonical_permissions, normalize_legacy_sandbox_permissions, default_permissions,
  normalize_claude_permissions, checked_access, check_claude,
}

-- The clamped access mode stands exactly as high as the lowest of the default, the profile's
-- maximum and the capability's maximum, and the default itself is kept when it fits under both.
pub clamp_access-meet :
    (default_access profile_max capability_max : AccessMode)
    → (access_order (clamp_access default_access profile_max capability_max)
        ≡ min
            (access_order default_access)
            (min (access_order profile_max) (access_order capability_max)))
      × (access_order default_access ≤ access_order profile_max
          → access_order default_access ≤ access_order capability_max
          → clamp_access default_access profile_max capability_max ≡ default_access)
unfolding clamp_access
clamp_access-meet d p c = (ground arith, λ h k. ground arith)

pub clamp_access-IsAccessMode :
    (a b c : AccessMode)
    → is_access_mode a ≡ true
    → is_access_mode b ≡ true
    → is_access_mode c ≡ true
    → is_access_mode (clamp_access a b c) ≡ true
unfolding clamp_access is_access_mode
clamp_access-IsAccessMode a b c h k l = ground (arith, h, k, l)

pub access_to_codex_sandbox-ok :
    (m : AccessMode)
    → is_access_mode m ≡ true
    → (sandbox : CodexSandboxMode) × (access_to_codex_sandbox m ≡ ok sandbox)
unfolding is_access_mode access_to_codex_sandbox
access_to_codex_sandbox-ok read_only h = (sandbox_read_only, refl)
access_to_codex_sandbox-ok workspace h = (workspace_write, refl)
access_to_codex_sandbox-ok full h = (danger_full_access, refl)
access_to_codex_sandbox-ok (other_access s) h = absurd (cc h)

-- The Claude mode of a run grants no more than the run's access mode, whatever override the
-- configuration carries.
pub access_to_claude_permission_mode-le :
    (access : AccessMode) (permissions : Option PermissionConfig)
    → access_order (access_of_mode (access_to_claude_permission_mode access permissions))
      ≤ access_order access
unfolding access_to_claude_permission_mode access_of_mode access_order
access_to_claude_permission_mode-le access permissions = ground arith

abbrev ClaudeWithin : Option ClaudePermissionConfig → AccessMode → Type 0
ClaudeWithin none max_access = Unit {0}
ClaudeWithin (some claude) max_access =
    (is_claude_permission_mode claude.permission_mode ≡ true)
    × (access_order (access_of_mode claude.permission_mode) ≤ access_order max_access)

-- What `NormalizePermissions` promises of a configuration.
pub record IsValid (c : PermissionConfig) : Type 0 where
  pub default_known : is_access_mode c.default_access ≡ true
  pub max_known : is_access_mode c.max_access ≡ true
  pub ordered : access_order c.default_access ≤ access_order c.max_access
  pub claude_within : ClaudeWithin c.claude c.max_access

assert_access_pair-ok :
    (d m : AccessMode) (source : PermissionSource)
    → assert_access_pair d m source ≡ ok tt
    → (is_access_mode d ≡ true) × (is_access_mode m ≡ true) × (access_order d ≤ access_order m)
unfolding assert_access_pair is_access_mode access_order
assert_access_pair-ok d m source h = ground arith

check_claude-ClaudeWithin :
    (input : Option PartialClaudePermissionConfig) (claude : Option ClaudePermissionConfig)
    (m : AccessMode)
    → normalize_claude_permissions input ≡ ok claude
    → check_claude claude m ≡ ok tt
    → ClaudeWithin claude m
unfolding normalize_claude_permissions check_claude is_claude_permission_mode access_of_mode
check_claude-ClaudeWithin input none m h k = tt
check_claude-ClaudeWithin input (some claude) m h k = ground arith

normalize_canonical-Post :
    (input : PartialPermissionConfig) (base : PermissionConfig)
    → Post IsValid (normalize_canonical_permissions input base)
unfolding normalize_canonical_permissions
normalize_canonical-Post input base =
    Post-bind IsValid (checked_access invalid_max_access input.max_access base.max_access) _ λ m _.
      Post-bind IsValid (checked_access invalid_default_access input.default_access _) _ λ d _.
        Post-bind IsValid (assert_access_pair d m from_permissions) _ λ _ pair.
          Post-bind IsValid (normalize_claude_permissions input.claude) _ λ claude normal.
            Post-bind IsValid (check_claude claude m) _ λ _ within.
              let (known_d, known_m, le) = assert_access_pair-ok d m from_permissions pair in
              record {
                default_known = known_d;
                max_known = known_m;
                ordered = le;
                claude_within = check_claude-ClaudeWithin input.claude claude m normal within;
              }

normalize_legacy-IsValid :
    (input : LegacySandboxInput) (c : PermissionConfig)
    → normalize_legacy_sandbox_permissions input ≡ ok c
    → IsValid c
unfolding normalize_legacy_sandbox_permissions is_access_mode access_order
normalize_legacy-IsValid input c h = ground arith

normalize_base-IsValid :
    (input : Option LegacySandboxInput) (c : PermissionConfig)
    → normalize_base input ≡ ok c
    → IsValid c
unfolding normalize_base default_permissions is_access_mode access_order
normalize_base-IsValid none c h = ground arith
normalize_base-IsValid (some input) c h = elim (Bool-cases (has_legacy_sandbox (some input))) [
  | inl e ↦ normalize_legacy-IsValid input c (rw e at h)
  | inr e ↦ ground arith
]

normalize_over-Post :
    (has_sandbox : Bool) (input : Option PartialPermissionConfig) (base : PermissionConfig)
    → IsValid base
    → Post (λ r. IsValid r.permissions) (normalize_over has_sandbox input base)
unfolding normalize_over
normalize_over-Post has_sandbox none base v = v
normalize_over-Post has_sandbox (some input) base v =
    Post-bind (λ r. IsValid r.permissions) (normalize_canonical_permissions input base) _
      λ c e. Post-ok IsValid _ (normalize_canonical-Post input base) e

-- A configuration that `NormalizePermissions` accepts has known access modes, a default that does
-- not exceed its maximum, and no Claude override beyond that maximum.
pub normalize_permissions-IsValid :
    (input : NormalizeInput) (r : NormalizedPermissions)
    → normalize_permissions input ≡ ok r
    → IsValid r.permissions
unfolding normalize_permissions
normalize_permissions-IsValid input r h =
    Post-ok (λ s. IsValid s.permissions) (normalize_permissions input)
      (Post-bind (λ s. IsValid s.permissions) (normalize_base input.sandbox) _
        λ base e.
          normalize_over-Post _ input.permissions base
            (normalize_base-IsValid input.sandbox base e))
      h
