-- ===== src/Session/Store.antt =====
-- internal/app/session/store.go: the last session of a scope and its idle timeout. Each function
-- runs under the mutex; `now` is the clock in milliseconds. The file that mirrors the map is left
-- out, but for what `Load` takes from it.
pub mod Laws
use lark_bridge_agent_sdk.Base.{
  ℕ, String, Bool, true, false, not, ◌&&◌, ◌||◌, Option, none, some, List, [], ◌∷◌, ◌==◌, ltb,
  nat_eq, is_some, or_else, if◌then◌else◌,
}
use lark_bridge_agent_sdk.Base.Map.{Map, lookup, insert, delete}

-- Go's `int`, for the minutes that a user asks for; `negsuc n` is -(n + 1).
pub data ℤ : Type 0 where
  pos negsuc : ℕ → ℤ

pub record Entry : Type 0 where
  pub session_id : String
  pub cwd : String
  pub updated_at : ℕ
  pub idle_timeout_minutes : Option ℕ

abbrev pub Store : Type 0
Store = Map Entry

-- Go's zero value, which a missing key reads as.
abbrev pub no_entry : Entry
no_entry = record { session_id = ""; cwd = ""; updated_at = 0; idle_timeout_minutes = none }

-- `Load` skips an entry that holds nothing.
unfoldable pub is_loaded : Entry → Bool
is_loaded entry =
    not (nat_eq entry.updated_at 0)
    && (not (entry.session_id == "") && not (entry.cwd == "") || is_some entry.idle_timeout_minutes)

unfoldable pub load : Map Entry → Store → Store
load [] entries = entries
load ((scope_id, entry) ∷ parsed) entries =
    load parsed (if is_loaded entry then insert scope_id entry entries else entries)

abbrev pub resumed : String → Option Entry → String
resumed cwd none = ""
resumed cwd (some entry) = if entry.cwd == cwd then entry.session_id else ""

unfoldable pub resume_for : String → String → Store → String
resume_for scope_id cwd entries = resumed cwd (lookup scope_id entries)

unfoldable pub get_raw : String → Store → Option Entry
get_raw scope_id entries = lookup scope_id entries

unfoldable pub set : String → String → String → ℕ → Store → Store
set scope_id session_id cwd now entries =
    insert scope_id
      (record {
        session_id = session_id;
        cwd = cwd;
        updated_at = now;
        idle_timeout_minutes = (or_else (lookup scope_id entries) no_entry).idle_timeout_minutes;
      })
      entries

-- The idle timeout outlives the session.
unfoldable pub cleared_with : String → ℕ → Store → Option ℕ → Store
cleared_with scope_id now entries none = delete scope_id entries
cleared_with scope_id now entries (some minutes) =
    insert scope_id (record no_entry { updated_at = now; idle_timeout_minutes = some minutes })
      entries

unfoldable pub cleared : String → ℕ → Store → Option Entry → Store
unfolding cleared_with
cleared scope_id now entries none = entries
cleared scope_id now entries (some prev) =
    cleared_with scope_id now entries prev.idle_timeout_minutes

unfoldable pub clear : String → ℕ → Store → Store
unfolding cleared
clear scope_id now entries = cleared scope_id now entries (lookup scope_id entries)

unfoldable pub get_idle_timeout_minutes : String → Store → Option ℕ
get_idle_timeout_minutes scope_id entries =
    (or_else (lookup scope_id entries) no_entry).idle_timeout_minutes

unfoldable pub clamp_minutes : ℤ → ℕ
clamp_minutes (negsuc n) = 0
clamp_minutes (pos n) = if ltb 120 n then 120 else n

unfoldable pub set_idle_timeout_minutes : String → ℤ → ℕ → Store → Store
set_idle_timeout_minutes scope_id minutes now entries =
    insert scope_id
      (record (or_else (lookup scope_id entries) no_entry) {
        updated_at = now;
        idle_timeout_minutes = some (clamp_minutes minutes);
      })
      entries

-- Whether there was an override, and the store without it.
unfoldable pub override_cleared : String → ℕ → Store → Option Entry → Bool × Store
override_cleared scope_id now entries none = (false, entries)
override_cleared scope_id now entries (some prev) =
    if is_some prev.idle_timeout_minutes
    then (
      true,
      insert scope_id (record prev { updated_at = now; idle_timeout_minutes = none }) entries,
    )
    else (false, entries)

unfoldable pub clear_idle_timeout_override : String → ℕ → Store → Bool × Store
unfolding override_cleared
clear_idle_timeout_override scope_id now entries =
    override_cleared scope_id now entries (lookup scope_id entries)
