-- ===== src/Workspace.antt =====
-- internal/app/workspace/workspace.go: the directory that a run works in. The functions of the
-- standard library on paths and files are the fields of `Paths`; `none` is an error of theirs.
use lark_bridge_agent_sdk.Base.{
  String, Bool, true, false, not, ◌&&◌, ◌||◌, Option, none, some, List, [], ◌∷◌, ◌==◌, includes,
  if◌then◌else◌, Result, ok, err, or_else,
}
use Prim.Native.String

pub data RejectReason : Type 0 where
  empty_requested_cwd path_inaccessible not_directory filesystem_root home_root user_root :
      RejectReason
  system_root temp_root broad_user_folder volume_root : RejectReason

-- `is_dir` is the answer of `os.Stat`.
pub record Paths : Type 0 where
  pub trim_space : String → String
  pub abs : String → Option String
  pub eval_symlinks : String → Option String
  pub is_dir : String → Option Bool
  pub clean : String → String
  pub dir : String → String
  pub base : String → String
  pub volume_name : String → String
  pub separator : String
  pub temp_dir : String
  pub user_home_dir : Option String
  pub windows : Bool

abbrev pub system_roots : List String
system_roots =
    "/Applications" ∷ "/bin" ∷ "/etc" ∷ "/Library" ∷ "/private" ∷ "/sbin" ∷ "/System" ∷ "/usr"
    ∷ "/var" ∷ []

module _ (paths : Paths) where
  unfoldable pub real_of : String → Option String → String
  real_of path none = paths.clean path
  real_of path (some absolute) = or_else (paths.eval_symlinks absolute) absolute

  unfoldable pub safe_realpath : String → String
  unfolding real_of
  safe_realpath path = real_of path (paths.abs path)

  unfoldable pub safe_home_of : Option String → String
  unfolding safe_realpath
  safe_home_of none = "."
  safe_home_of (some home) = safe_realpath home

  -- `none` for a directory without a high risk.
  unfoldable pub classify_high_risk_working_directory : String → Option RejectReason
  unfolding safe_realpath safe_home_of
  classify_high_risk_working_directory real =
      let clean = paths.clean real in
      let home = paths.clean (safe_home_of paths.user_home_dir) in
      let base = paths.base clean in
      if clean == paths.dir clean || clean == String.◌++◌ (paths.volume_name clean) paths.separator
      then some filesystem_root
      else if not (home == ".") && clean == home
      then some home_root
      else if not (home == ".") && clean == paths.dir home
      then some user_root
      else if not (home == ".")
          && paths.dir clean == home
          && (base == "Desktop" || base == "Downloads")
      then some broad_user_folder
      else if clean == paths.clean paths.temp_dir
          || clean == paths.clean (safe_realpath paths.temp_dir)
          || clean == "/tmp"
          || clean == "/private/tmp"
      then some temp_root
      else if not paths.windows && includes system_roots clean
      then some system_root
      else if not paths.windows && (clean == "/Volumes" || paths.dir clean == "/Volumes")
      then some volume_root
      else none

  abbrev checked_risk : String → Option RejectReason → Result RejectReason String
  checked_risk resolved (some reason) = err reason
  checked_risk resolved none = ok resolved

  abbrev checked_dir : String → Option Bool → Result RejectReason String
  checked_dir resolved none = err path_inaccessible
  checked_dir resolved (some false) = err not_directory
  checked_dir resolved (some true) =
      checked_risk resolved (classify_high_risk_working_directory resolved)

  abbrev resolved_dir : Option String → Result RejectReason String
  resolved_dir none = err path_inaccessible
  resolved_dir (some resolved) = checked_dir resolved (paths.is_dir resolved)

  abbrev absolute_dir : Option String → Result RejectReason String
  absolute_dir none = err path_inaccessible
  absolute_dir (some absolute) = resolved_dir (paths.eval_symlinks absolute)

  -- The resolved directory.
  unfoldable pub resolve_working_directory : String → Result RejectReason String
  resolve_working_directory requested_cwd =
      let trimmed = paths.trim_space requested_cwd in
      if trimmed == "" then err empty_requested_cwd else absolute_dir (paths.abs trimmed)
