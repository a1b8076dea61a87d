-- ===== src/Session/Catalog.antt =====
-- internal/app/session/catalog.go: the sessions by scope, agent, directory and policy. Each
-- function runs under the mutex; the file that mirrors the map is left out, but for what `Load`
-- takes from it.
pub mod Laws
pub mod Gc
use Prim.Native.String
use lark_bridge_agent_sdk.Base.{
  ℕ, String, Bool, true, false, not, ◌&&◌, ◌||◌, Option, none, some, List, [], ◌∷◌, ◌==◌, nat_eq,
  if◌then◌else◌, Result, ok, err,
}
use lark_bridge_agent_sdk.Base.Map.{Map, lookup, insert}
use lark_bridge_agent_sdk.Profile.{AgentId, id_claude, id_codex, other_id}

pub data CatalogStatus : Type 0 where
  active archived : CatalogStatus
  other_status : String → CatalogStatus

pub record CatalogIdentity : Type 0 where
  pub scope_id : String
  pub agent_id : AgentId
  pub cwd_realpath : String
  pub policy_fingerprint : String

pub record CatalogEntry : Type 0 where
  pub identity : CatalogIdentity
  pub key : String
  pub status : CatalogStatus
  pub updated_at : ℕ
  pub session_id : String
  pub thread_id : String
  pub last_summary : String

pub record UpsertCatalogInput : Type 0 where
  pub identity : CatalogIdentity
  pub session_id : String
  pub thread_id : String
  pub last_summary : String

pub data CatalogError : Type 0 where
  claude_requires_session codex_requires_thread : CatalogError

abbrev pub Catalog : Type 0
Catalog = Map CatalogEntry

abbrev pub agent_text : AgentId → String
agent_text id_claude = "claude"
agent_text id_codex = "codex"
agent_text (other_id s) = s

abbrev pub joined : String → String → String
joined s t = String.◌++◌ s (String.◌++◌ "\u{1f}" t)

unfoldable pub session_catalog_key : CatalogIdentity → String
session_catalog_key i =
    joined i.scope_id (joined (agent_text i.agent_id) (joined i.cwd_realpath i.policy_fingerprint))

abbrev pub is_claude : AgentId → Bool
is_claude id_claude = true
is_claude _ = false

abbrev pub is_active : CatalogStatus → Bool
is_active active = true
is_active _ = false

abbrev pub is_known_agent : AgentId → Bool
is_known_agent (other_id s) = false
is_known_agent _ = true

abbrev pub is_known_status : CatalogStatus → Bool
is_known_status (other_status s) = false
is_known_status _ = true

-- Agent identifiers are compared as the texts that they stand for.
unfoldable pub matches_identity : CatalogEntry → CatalogIdentity → Bool
unfolding session_catalog_key
matches_identity entry input =
    entry.identity.scope_id == input.scope_id
    && agent_text entry.identity.agent_id == agent_text input.agent_id
    && entry.identity.cwd_realpath == input.cwd_realpath
    && entry.identity.policy_fingerprint == input.policy_fingerprint
    && entry.key == session_catalog_key input

unfoldable pub is_valid_agent_entry : CatalogEntry → Bool
is_valid_agent_entry entry =
    if is_claude entry.identity.agent_id
    then not (entry.session_id == "") && entry.thread_id == ""
    else not (entry.thread_id == "") && entry.session_id == ""

unfoldable pub assert_agent_identity : UpsertCatalogInput → Option CatalogError
assert_agent_identity input =
    if is_claude input.identity.agent_id
    then (if input.session_id == "" || not (input.thread_id == "")
        then some claude_requires_session
        else none)
    else (if input.thread_id == "" || not (input.session_id == "")
        then some codex_requires_thread
        else none)

-- The entries that `Load` keeps.
unfoldable pub normalize_catalog_entry : CatalogEntry → Bool
normalize_catalog_entry entry = not (
    entry.key == ""
    || entry.identity.scope_id == ""
    || not (is_known_agent entry.identity.agent_id)
    || entry.identity.cwd_realpath == ""
    || entry.identity.policy_fingerprint == ""
    || not (is_known_status entry.status)
    || nat_eq entry.updated_at 0)

unfoldable pub load : List CatalogEntry → Catalog → Catalog
load [] entries = entries
load (entry ∷ parsed) entries =
    load parsed (if normalize_catalog_entry entry then insert entry.key entry entries else entries)

unfoldable pub usable : CatalogIdentity → Option CatalogEntry → Option CatalogEntry
usable input none = none
usable input (some entry) =
    if is_active entry.status && matches_identity entry input && is_valid_agent_entry entry
    then some entry
    else none

unfoldable pub active_for : CatalogIdentity → Catalog → Option CatalogEntry
unfolding usable
active_for input entries = usable input (lookup (session_catalog_key input) entries)

unfoldable pub active_entry : UpsertCatalogInput → ℕ → CatalogEntry
active_entry input now = record {
  identity = input.identity;
  key = session_catalog_key input.identity;
  status = active;
  updated_at = now;
  session_id = input.session_id;
  thread_id = input.thread_id;
  last_summary = input.last_summary;
}

unfoldable pub upserted :
    UpsertCatalogInput
    → ℕ
    → Catalog
    → Option CatalogError
    → Result CatalogError CatalogEntry × Catalog
upserted input now entries (some e) = (err e, entries)
upserted input now entries none = (
  ok (active_entry input now),
  insert (session_catalog_key input.identity) (active_entry input now) entries,
)

unfoldable pub upsert_active :
    UpsertCatalogInput → ℕ → Catalog → Result CatalogError CatalogEntry × Catalog
unfolding upserted
upsert_active input now entries = upserted input now entries (assert_agent_identity input)

unfoldable pub archived_as : String → ℕ → Catalog → Option CatalogEntry → Bool × Catalog
archived_as key now entries none = (false, entries)
archived_as key now entries (some entry) =
    if is_active entry.status
    then (true, insert key (record entry { status = archived; updated_at = now }) entries)
    else (false, entries)

unfoldable pub archive_active : CatalogIdentity → ℕ → Catalog → Bool × Catalog
unfolding archived_as
archive_active input now entries =
    let key = session_catalog_key input in archived_as key now entries (lookup key entries)
