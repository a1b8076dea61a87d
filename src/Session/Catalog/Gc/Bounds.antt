-- ===== src/Session/Catalog/Gc/Bounds.antt =====
-- internal/app/session/catalog.go: how many entries `GC` leaves.
use lark_bridge_agent_sdk.Base.{
  ℕ, ◌≤◌, String, ◌≡◌, refl, ap, subst, Bool, true, false, not, ◌&&◌, List, [], ◌∷◌, ◌++◌, ◌==◌,
  eq_iff, includes, length, arith, if-lift, Bool-cases, inl, inr,
}
use lark_bridge_agent_sdk.Base.Map.{values}
use lark_bridge_agent_sdk.Session.Catalog.{CatalogEntry, Catalog}
use lark_bridge_agent_sdk.Session.Catalog.Gc.{
  CatalogGcOptions, with_defaults, gc, is_stale, without_stale, surplus, surplus_by_scope,
  within_scopes, within_profile, of_scope, scopes_of,
}
use lark_bridge_agent_sdk.Session.Catalog.Gc.Counting.{
  count, IsKeyed, count-delete_all, count-delete_less, delete_all-IsKeyed, AllIn, AllIn-refl,
  AllIn-left, AllIn-right, count-surplus,
}

in_scope-count :
    (scope : String) (t : CatalogEntry → Bool) (es : List CatalogEntry)
    → count (λ e. e.identity.scope_id == scope && t e) es ≡ count t (of_scope scope es)
unfolding count of_scope
in_scope-count scope t [] = refl
in_scope-count scope t (e ∷ es) = ground (arith, in_scope-count scope t es)

no_scope :
    (scope : String) (es : List CatalogEntry)
    → includes (scopes_of es) scope ≡ false
    → of_scope scope es ≡ []
unfolding scopes_of of_scope includes
no_scope scope [] h = refl
no_scope scope (e ∷ es) h = ground (arith, no_scope scope es, eq_iff e.identity.scope_id scope)

surplus-AllIn :
    (n : ℕ) (scope : String) (scopes : List String) (es : List CatalogEntry)
    → includes scopes scope ≡ true
    → AllIn (surplus_by_scope n scopes es) (surplus n (of_scope scope es))
unfolding surplus_by_scope includes
surplus-AllIn n scope [] es h = absurd (cc h)
surplus-AllIn n scope (s ∷ scopes) es h = elim (Bool-cases (s == scope)) [
  | inl e ↦
      subst
        (λ i.
          AllIn (surplus n (of_scope s es) ++ surplus_by_scope n scopes es)
            (surplus n (of_scope i es)))
        ((eq_iff s scope).0 e)
        (AllIn-left (surplus n (of_scope s es)) (surplus_by_scope n scopes es)
          (surplus n (of_scope s es)) (AllIn-refl (surplus n (of_scope s es))))
  | inr e ↦
      AllIn-right (surplus n (of_scope s es)) (surplus_by_scope n scopes es)
        (surplus n (of_scope scope es)) (surplus-AllIn n scope scopes es (ground arith))
]

-- No more entries of a scope are left than the limit.
count-within_scopes :
    (n : ℕ) (scope : String) (m : Catalog)
    → IsKeyed m
    → count (λ e. e.identity.scope_id == scope) (values (within_scopes n m)) ≤ n
unfolding within_scopes count
count-within_scopes n scope m h =
    let es = values m in
    let ks = surplus_by_scope n (scopes_of es) es in
    let left = count-delete_all (λ e. e.identity.scope_id == scope) ks m h in
    let same = in_scope-count scope (λ e. not (includes ks e.key)) es in
    elim (Bool-cases (includes (scopes_of es) scope)) [
      | inl e ↦ ground (
        arith,
        left,
        same,
        count-surplus n ks (of_scope scope es) (surplus-AllIn n scope (scopes_of es) es e),
      )
      | inr e ↦
          let none_left : count (λ e. not (includes ks e.key)) (of_scope scope es) ≡ 0 =
            ap (count (λ e. not (includes ks e.key))) (no_scope scope es e) in
          ground (arith, left, same, none_left)
    ]

count-within_profile :
    (n : ℕ) (m : Catalog) → IsKeyed m → count (λ e. true) (values (within_profile n m)) ≤ n
unfolding within_profile
count-within_profile n m h = ground (
  arith,
  count-delete_all (λ e. true) (surplus n (values m)) m h,
  count-surplus n (surplus n (values m)) (values m) (AllIn-refl (surplus n (values m))),
)

without_stale-IsKeyed :
    (o : CatalogGcOptions) (m : Catalog) → IsKeyed m → IsKeyed (without_stale o m)
unfolding without_stale
without_stale-IsKeyed o [] h = h
without_stale-IsKeyed o (kv ∷ m) (h, hs) =
    let rest = without_stale-IsKeyed o m hs in
    if-lift {A = Catalog} IsKeyed (is_stale o (kv.1)) _ _ rest (h, rest)

without_stale-less :
    (q : CatalogEntry → Bool) (o : CatalogGcOptions) (m : Catalog)
    → count q (values (without_stale o m)) ≤ count q (values m)
unfolding count without_stale
without_stale-less q o [] = ground arith
without_stale-less q o (kv ∷ m) = ground (arith, without_stale-less q o m)

count-length : (m : Catalog) → count (λ e. true) (values m) ≡ length m
unfolding count
count-length [] = refl
count-length (kv ∷ m) = ground (arith, count-length m)

-- Over a catalog whose entries stand under their keys, what `GC` leaves is within the limits, with
-- the defaults for those that are not given: for each scope and in all. It adds no entry and changes
-- none: those that satisfy any test become no more.
pub gc-Bounded :
    (clock : ℕ) (options : CatalogGcOptions) (m : Catalog) (scope : String)
    (q : CatalogEntry → Bool)
    → IsKeyed m
    → (count (λ e. e.identity.scope_id == scope) (values (gc clock options m))
        ≤ (with_defaults clock options).max_entries_per_scope)
      × (length (gc clock options m) ≤ (with_defaults clock options).max_entries_per_profile)
      × (count q (values (gc clock options m)) ≤ count q (values m))
unfolding gc within_scopes within_profile
gc-Bounded clock options m scope q h =
    let o = with_defaults clock options in
    let fresh = without_stale o m in
    let keyed = without_stale-IsKeyed o m h in
    let n = o.max_entries_per_scope in
    let es = values fresh in
    let ks = surplus_by_scope n (scopes_of es) es in
    let scoped = within_scopes n fresh in
    let still = delete_all-IsKeyed ks fresh keyed in
    let ls = surplus o.max_entries_per_profile (values scoped) in
    (
      ground (
        arith,
        count-delete_less (λ e. e.identity.scope_id == scope) ls scoped still,
        count-within_scopes n scope fresh keyed,
      ),
      ground (
        arith,
        count-within_profile o.max_entries_per_profile scoped still,
        count-length (within_profile o.max_entries_per_profile scoped),
      ),
      ground (
        arith,
        count-delete_less q ls scoped still,
        count-delete_less q ks fresh keyed,
        without_stale-less q o m,
      ),
    )
