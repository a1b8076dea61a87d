-- ===== src/Session/Tests.antt =====
-- internal/app/session: a scope with a Claude session and an idle timeout.
use mathlib.Core.List.{Memᴰ}
use lark_bridge_agent_sdk.Base.{
  ℕ, ◌≤◌, String, some, List, [], ◌∷◌, ◌≡◌, refl, ◌==◌, length, includes,
}
use lark_bridge_agent_sdk.Base.Map.{lookup, insert, delete, values}
use lark_bridge_agent_sdk.Profile.{id_claude}
use lark_bridge_agent_sdk.Session.Store as Store
use lark_bridge_agent_sdk.Session.Catalog.{
  CatalogEntry, Catalog, CatalogIdentity, UpsertCatalogInput, session_catalog_key, matches_identity,
  is_valid_agent_entry, assert_agent_identity, usable, active_for, active_entry, upserted,
  upsert_active, archived_as, archive_active,
}
use lark_bridge_agent_sdk.Session.Catalog.Gc.{
  CatalogGcOptions, with_defaults, gc, scopes_of, of_scope,
}
use lark_bridge_agent_sdk.Session.Catalog.Gc.Counting.{count}
use lark_bridge_agent_sdk.Session.Catalog.Gc.Bounds.{gc-Bounded}
use lark_bridge_agent_sdk.Session.Catalog.Laws.{
  SameIdentity, CatalogCall, upserts, archives, after_call, after_calls, active_for_recorded,
}

abbrev stored : Store.Store
stored =
    (
      "chat",
      record { session_id = "s1"; cwd = "/work"; updated_at = 5; idle_timeout_minutes = some 30 },
    )
    ∷ []

abbrev identity : CatalogIdentity
identity = record {
  scope_id = "chat";
  agent_id = id_claude;
  cwd_realpath = "/work";
  policy_fingerprint = "fp";
}

abbrev upsert : UpsertCatalogInput
upsert = record { identity = identity; session_id = "s1"; thread_id = ""; last_summary = "" }

abbrev calls : List CatalogCall
calls = upserts upsert 1 ∷ archives (record identity { scope_id = "other" }) 2 ∷ []

active_for_recorded_example :
    (input : UpsertCatalogInput) × (now : ℕ) × Memᴰ (upserts input now) calls
    × (active_entry upsert 1 ≡ active_entry input now)
    × SameIdentity input.identity identity
unfolding active_for usable after_calls after_call upsert_active upserted archive_active archived_as
    assert_agent_identity matches_identity is_valid_agent_entry session_catalog_key active_entry
    lookup insert delete
active_for_recorded_example = active_for_recorded calls identity (active_entry upsert 1) refl

abbrev entry : String → ℕ → CatalogEntry
entry key now = record (active_entry upsert now) { key = key }

-- The second of two entries is the older one.
abbrev two_entries : Catalog
two_entries = ("a", entry "a" 9) ∷ ("b", entry "b" 3) ∷ []

abbrev keep_one : CatalogGcOptions
keep_one = record {
  now = 10;
  max_archived_age = 0;
  max_entries_per_scope = 1;
  max_entries_per_profile = 0;
}

newest_is_kept : gc 10 keep_one two_entries ≡ ("a", entry "a" 9) ∷ []
unfolding gc scopes_of active_entry includes of_scope delete
newest_is_kept = refl

gc-Bounded_example :
    (count (λ e. e.identity.scope_id == "chat") (values (gc 10 keep_one two_entries)) ≤ 1)
    × (length (gc 10 keep_one two_entries) ≤ 1000)
    × (count (λ e. e.key == "b") (values (gc 10 keep_one two_entries))
        ≤ count (λ e. e.key == "b") (values two_entries))
unfolding with_defaults
gc-Bounded_example =
    gc-Bounded 10 keep_one two_entries "chat" (λ e. e.key == "b") (refl, (refl, tt))
