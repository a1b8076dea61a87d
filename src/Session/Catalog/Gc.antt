-- ===== src/Session/Catalog/Gc.antt =====
-- internal/app/session/catalog.go: `GC`. Times and ages are in milliseconds.
pub mod Counting
pub mod Bounds
use lark_bridge_agent_sdk.Base.{
  ℕ, zero, suc, ◌+◌, ◌-◌, ◌*◌, String, Bool, true, false, not, ◌&&◌, List, [], ◌∷◌, ◌++◌, leb, ltb,
  nat_eq, ◌==◌, length, includes, if◌then◌else◌,
}
use lark_bridge_agent_sdk.Base.Map.{Map, delete, values}
use lark_bridge_agent_sdk.Session.Catalog.{CatalogStatus, archived, CatalogEntry, Catalog}

-- A limit of zero or less, and the zero time, are zero here.
pub record CatalogGcOptions : Type 0 where
  pub now : ℕ
  pub max_archived_age : ℕ
  pub max_entries_per_scope : ℕ
  pub max_entries_per_profile : ℕ

abbrev or_default : ℕ → ℕ → ℕ
or_default n d = if nat_eq n 0 then d else n

-- The values for what is not given; `clock` is the time of `c.now`.
unfoldable pub with_defaults : ℕ → CatalogGcOptions → CatalogGcOptions
with_defaults clock o = record {
  now = or_default o.now clock;
  max_archived_age = or_default o.max_archived_age (90 * 24 * 3600000);
  max_entries_per_scope = or_default o.max_entries_per_scope 20;
  max_entries_per_profile = or_default o.max_entries_per_profile 1000;
}

abbrev is_archived : CatalogStatus → Bool
is_archived archived = true
is_archived _ = false

abbrev pub is_stale : CatalogGcOptions → CatalogEntry → Bool
is_stale o e = is_archived e.status && ltb o.max_archived_age (o.now - e.updated_at)

unfoldable pub without_stale : CatalogGcOptions → Catalog → Catalog
without_stale o [] = []
without_stale o (kv ∷ m) =
    let rest = without_stale o m in if is_stale o (kv.1) then rest else kv ∷ rest

-- `sort.Slice` by the time of the last change, the newest first; the order of equal times is that
-- of this sort.
unfoldable pub place : CatalogEntry → List CatalogEntry → List CatalogEntry
place e [] = e ∷ []
place e (f ∷ es) = if leb f.updated_at e.updated_at then e ∷ f ∷ es else f ∷ place e es

unfoldable pub newest_first : List CatalogEntry → List CatalogEntry
unfolding place
newest_first [] = []
newest_first (e ∷ es) = place e (newest_first es)

unfoldable pub entries_after : ℕ → List CatalogEntry → List CatalogEntry
entries_after n [] = []
entries_after zero (e ∷ es) = e ∷ es
entries_after (suc n) (e ∷ es) = entries_after n es

unfoldable pub keys_of : List CatalogEntry → List String
keys_of [] = []
keys_of (e ∷ es) = e.key ∷ keys_of es

unfoldable pub delete_all : List String → Catalog → Catalog
delete_all [] m = m
delete_all (k ∷ ks) m = delete_all ks (delete k m)

-- The keys of the entries beyond the newest ones.
abbrev pub surplus : ℕ → List CatalogEntry → List String
surplus limit es = keys_of (entries_after limit (newest_first es))

unfoldable pub of_scope : String → List CatalogEntry → List CatalogEntry
of_scope scope [] = []
of_scope scope (e ∷ es) =
    let rest = of_scope scope es in if e.identity.scope_id == scope then e ∷ rest else rest

-- The keys of `byScope`.
unfoldable pub scopes_of : List CatalogEntry → List String
scopes_of [] = []
scopes_of (e ∷ es) =
    let rest = scopes_of es in
    if includes rest e.identity.scope_id then rest else e.identity.scope_id ∷ rest

unfoldable pub surplus_by_scope : ℕ → List String → List CatalogEntry → List String
surplus_by_scope limit [] es = []
surplus_by_scope limit (scope ∷ scopes) es =
    surplus limit (of_scope scope es) ++ surplus_by_scope limit scopes es

unfoldable pub within_scopes : ℕ → Catalog → Catalog
unfolding delete_all surplus_by_scope
within_scopes limit m = let es = values m in delete_all (surplus_by_scope limit (scopes_of es) es) m

unfoldable pub within_profile : ℕ → Catalog → Catalog
unfolding delete_all newest_first entries_after keys_of
within_profile limit m = delete_all (surplus limit (values m)) m

unfoldable pub gc : ℕ → CatalogGcOptions → Catalog → Catalog
unfolding with_defaults without_stale within_scopes within_profile
gc clock options m =
    let o = with_defaults clock options in
    within_profile o.max_entries_per_profile
      (within_scopes o.max_entries_per_scope (without_stale o m))
