-- ===== src/Session/Catalog/Laws.antt =====
-- internal/app/session/catalog.go: which session `ActiveFor` gives to an identity.
use mathlib.Core.List.{Memᴰ}
use lark_bridge_agent_sdk.Base.{
  ℕ, String, Bool, true, Option, none, some, List, [], ◌∷◌, ◌≡◌, refl, ap, sym, subst, ◌∙◌, ◌==◌,
  eq_iff, eq_refl, if◌then◌else◌, arith, Bool-cases, inl, inr, if-lift,
}
use lark_bridge_agent_sdk.Base.Map.{lookup, insert, lookup-insert}
use lark_bridge_agent_sdk.Session.Catalog.{
  CatalogError, CatalogIdentity, CatalogEntry, UpsertCatalogInput, Catalog, archived, agent_text,
  is_active, session_catalog_key, matches_identity, is_valid_agent_entry, assert_agent_identity,
  usable, active_for, active_entry, upserted, upsert_active, archived_as, archive_active,
}

-- The same texts in all four places.
abbrev pub SameIdentity : CatalogIdentity → CatalogIdentity → Type 0
SameIdentity i j =
    (i.scope_id ≡ j.scope_id)
    × (agent_text i.agent_id ≡ agent_text j.agent_id)
    × (i.cwd_realpath ≡ j.cwd_realpath)
    × (i.policy_fingerprint ≡ j.policy_fingerprint)

matches-SameIdentity :
    (e : CatalogEntry) (j : CatalogIdentity)
    → matches_identity e j ≡ true
    → SameIdentity e.identity j
unfolding matches_identity
matches-SameIdentity e j h = ground (
  arith,
  h,
  eq_iff e.identity.scope_id j.scope_id,
  eq_iff (agent_text e.identity.agent_id) (agent_text j.agent_id),
  eq_iff e.identity.cwd_realpath j.cwd_realpath,
  eq_iff e.identity.policy_fingerprint j.policy_fingerprint,
)

usable-some :
    (j : CatalogIdentity) (o : Option CatalogEntry) (e : CatalogEntry)
    → usable j o ≡ some e
    → (o ≡ some e) × (is_active e.status ≡ true) × (matches_identity e j ≡ true)
unfolding usable
usable-some j none e h = absurd (cc h)
usable-some j (some x) e h =
    let same : x ≡ e = ground (arith, h) in
    (
      ap some same,
      subst (λ y. is_active y.status ≡ true) same (ground (arith, h)),
      subst (λ y. matches_identity y j ≡ true) same (ground (arith, h)),
    )

pub data CatalogCall : Type 0 where
  upserts : (input : UpsertCatalogInput) (now : ℕ) → CatalogCall
  archives : (identity : CatalogIdentity) (now : ℕ) → CatalogCall

unfoldable pub after_call : CatalogCall → Catalog → Catalog
after_call (upserts input now) entries = (upsert_active input now entries).1
after_call (archives identity now) entries = (archive_active identity now entries).1

unfoldable pub after_calls : List CatalogCall → Catalog → Catalog
after_calls [] entries = entries
after_calls (call ∷ calls) entries = after_calls calls (after_call call entries)

-- What holds of every active entry.
module _ (P : CatalogEntry → Type 0) where
  abbrev pub Actives : Catalog → Type 0
  Actives entries =
      (k : String) (e : CatalogEntry) → lookup k entries ≡ some e → is_active e.status ≡ true → P e

  insert-Actives :
      (key : String) (x : CatalogEntry) (entries : Catalog)
      → (is_active x.status ≡ true → P x)
      → Actives entries
      → Actives (insert key x entries)
  insert-Actives key x entries p h k e l a = elim (Bool-cases (key == k)) [
    | inl t ↦
        let same : x ≡ e = ground (arith, l, t, lookup-insert key k x entries) in
        subst P same (p (subst (λ y. is_active y.status ≡ true) (sym same) a))
    | inr f ↦ h k e (ground (arith, l, f, lookup-insert key k x entries)) a
  ]

  upserted-Actives :
      (input : UpsertCatalogInput) (now : ℕ) (entries : Catalog) (o : Option CatalogError)
      → P (active_entry input now)
      → Actives entries
      → Actives (upserted input now entries o).1
  unfolding upserted
  upserted-Actives input now entries (some e) p h = h
  upserted-Actives input now entries none p h =
      insert-Actives _ (active_entry input now) entries (λ _. p) h

  archived-Actives :
      (key : String) (now : ℕ) (entries : Catalog) (o : Option CatalogEntry)
      → Actives entries
      → Actives (archived_as key now entries o).1
  unfolding archived_as
  archived-Actives key now entries none h = h
  archived-Actives key now entries (some x) h =
      if-lift {A = Bool × Catalog} (λ r. Actives r.1) (is_active x.status) _ _
        (insert-Actives key _ entries (λ t. absurd (cc t)) h) h

  calls-Actives :
      (calls : List CatalogCall) (entries : Catalog)
      → ((input : UpsertCatalogInput) (now : ℕ)
          → Memᴰ (upserts input now) calls
          → P (active_entry input now))
      → Actives entries
      → Actives (after_calls calls entries)
  unfolding after_calls after_call archive_active upsert_active
  calls-Actives [] entries p h = h
  calls-Actives (upserts input now ∷ calls) entries p h =
      calls-Actives calls _ (λ i n m. p i n (Memᴰ.tail m))
        (upserted-Actives input now entries _ (p input now (Memᴰ.head refl)) h)
  calls-Actives (archives identity now ∷ calls) entries p h =
      calls-Actives calls _ (λ i n m. p i n (Memᴰ.tail m))
        (archived-Actives (session_catalog_key identity) now entries _ h)

-- The catalog never gives an identity the session of another one: what `ActiveFor` returns, after
-- any calls on an empty catalog, is what one of these calls recorded for the same scope, agent,
-- directory and policy.
pub active_for_recorded :
    (calls : List CatalogCall) (j : CatalogIdentity) (e : CatalogEntry)
    → active_for j (after_calls calls []) ≡ some e
    → (input : UpsertCatalogInput) × (now : ℕ) × Memᴰ (upserts input now) calls
      × (e ≡ active_entry input now)
      × SameIdentity input.identity j
unfolding active_for lookup active_entry
active_for_recorded calls j e h =
    let met = usable-some j (lookup (session_catalog_key j) (after_calls calls [])) e h in
    let found =
      calls-Actives
        (λ x.
          (i : UpsertCatalogInput) × (n : ℕ) × Memᴰ (upserts i n) calls × (x ≡ active_entry i n))
        calls [] (λ i n m. (i, n, m, refl)) (λ k x l a. absurd (cc l)) (session_catalog_key j) e
        met.0 met.1 in
    (
      found.0,
      found.1,
      found.2,
      found.3,
      matches-SameIdentity (active_entry found.0 found.1) j
          (subst (λ y. matches_identity y j ≡ true) found.3 met.2),
    )

usable-active_entry :
    (input : UpsertCatalogInput) (now : ℕ)
    → assert_agent_identity input ≡ none
    → usable input.identity (some (active_entry input now)) ≡ some (active_entry input now)
unfolding usable active_entry matches_identity is_valid_agent_entry assert_agent_identity
usable-active_entry input now h = ground (
  arith,
  h,
  eq_refl input.identity.scope_id,
  eq_refl (agent_text input.identity.agent_id),
  eq_refl input.identity.cwd_realpath,
  eq_refl input.identity.policy_fingerprint,
  eq_refl (session_catalog_key input.identity),
)

archived-usable :
    (j : CatalogIdentity) (key : String) (now : ℕ) (entries : Catalog) (o : Option CatalogEntry)
    → lookup key entries ≡ o
    → usable j (lookup key (archived_as key now entries o).1) ≡ none
unfolding usable archived_as
archived-usable j key now entries none h = ground (arith, h)
archived-usable j key now entries (some x) h = elim (Bool-cases (is_active x.status)) [
  | inl a ↦ ground (
    arith,
    a,
    eq_refl key,
    lookup-insert key key (record x { status = archived; updated_at = now }) entries,
  )
  | inr a ↦ ground (arith, a, h)
]

-- A session that `UpsertActive` records is the one that `ActiveFor` then gives to its identity, and
-- after `ArchiveActive` that identity has none.
pub recorded_then_archived :
    (input : UpsertCatalogInput) (now later : ℕ) (entries : Catalog)
    → assert_agent_identity input ≡ none
    → (active_for input.identity (upsert_active input now entries).1
        ≡ some (active_entry input now))
      × (active_for input.identity (archive_active input.identity later entries).1 ≡ none)
unfolding active_for upsert_active upserted archive_active
recorded_then_archived input now later entries h =
    let key = session_catalog_key input.identity in
    (
      ap (λ o. usable input.identity (lookup key (upserted input now entries o).1)) h
          ∙ ap (usable input.identity) (lookup-insert key key (active_entry input now) entries)
          ∙ ap
              (λ b.
                usable input.identity
                  (if b then some (active_entry input now) else lookup key entries))
              (eq_refl key)
          ∙ usable-active_entry input now h,
      archived-usable input.identity key later entries (lookup key entries) refl,
    )
