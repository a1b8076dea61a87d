-- ===== src/Session/Catalog/Gc/Counting.antt =====
-- internal/app/session/catalog.go: entries of the catalog, counted.
use lark_bridge_agent_sdk.Base.{
  ℕ, zero, suc, ◌+◌, ◌≤◌, String, ◌≡◌, refl, sym, ap, ◌∙◌, Bool, true, false, not, ◌&&◌, ◌||◌, List,
  [], ◌∷◌, ◌++◌, ◌==◌, eq_iff, includes, arith, if◌then◌else◌, if-lift, Bool-cases, inl, inr,
}
use lark_bridge_agent_sdk.Base.Map.{delete, values}
use lark_bridge_agent_sdk.Session.Catalog.{CatalogEntry, Catalog}
use lark_bridge_agent_sdk.Session.Catalog.Gc.{
  surplus, place, newest_first, entries_after, keys_of, delete_all,
}

-- How many entries satisfy a test.
unfoldable pub count : (CatalogEntry → Bool) → List CatalogEntry → ℕ
count q [] = 0
count q (e ∷ es) = (if q e then 1 else 0) + count q es

-- Every entry stands under its own key.
abbrev pub IsKeyed : Catalog → Type 0
IsKeyed [] = Unit
IsKeyed (kv ∷ m) = (kv.0 ≡ kv.1.key) × IsKeyed m

pub count-same :
    (q r : CatalogEntry → Bool) (es : List CatalogEntry)
    → ((e : CatalogEntry) → q e ≡ r e)
    → count q es ≡ count r es
unfolding count
count-same q r [] h = refl
count-same q r (e ∷ es) h = ground (arith, h e, count-same q r es h)

pub count-less :
    (q t : CatalogEntry → Bool) (es : List CatalogEntry) → count (λ e. q e && t e) es ≤ count q es
unfolding count
count-less q t [] = ground arith
count-less q t (e ∷ es) = ground (arith, count-less q t es)

pub delete-IsKeyed : (k : String) (m : Catalog) → IsKeyed m → IsKeyed (delete k m)
unfolding delete
delete-IsKeyed k [] h = h
delete-IsKeyed k (kv ∷ m) (h, hs) =
    let rest = delete-IsKeyed k m hs in if-lift {A = Catalog} IsKeyed (kv.0 == k) _ _ rest (h, rest)

count-delete :
    (q : CatalogEntry → Bool) (k : String) (m : Catalog)
    → IsKeyed m
    → count q (values (delete k m)) ≡ count (λ e. q e && not (e.key == k)) (values m)
unfolding delete count
count-delete q k [] h = refl
count-delete q k (kv ∷ m) (h, hs) = elim (Bool-cases (kv.0 == k)) [
  | inl e ↦
      let same : kv.1.key == k ≡ true = ap (λ i. i == k) (sym h) ∙ e in
      ground (arith, e, same, count-delete q k m hs)
  | inr e ↦
      let other : kv.1.key == k ≡ false = ap (λ i. i == k) (sym h) ∙ e in
      ground (arith, e, other, count-delete q k m hs)
]

-- What is left of a list of deletions.
pub count-delete_all :
    (q : CatalogEntry → Bool) (ks : List String) (m : Catalog)
    → IsKeyed m
    → count q (values (delete_all ks m)) ≡ count (λ e. q e && not (includes ks e.key)) (values m)
unfolding delete_all includes
count-delete_all q [] m h =
    count-same q (λ e. q e && not (includes [] e.key)) (values m) (λ e. ground arith)
count-delete_all q (k ∷ ks) m h =
    count-delete_all q ks (delete k m) (delete-IsKeyed k m h)
    ∙ count-delete (λ e. q e && not (includes ks e.key)) k m h
    ∙ count-same _ _ (values m) (λ e. ground (arith, eq_iff e.key k, eq_iff k e.key))

pub delete_all-IsKeyed : (ks : List String) (m : Catalog) → IsKeyed m → IsKeyed (delete_all ks m)
unfolding delete_all
delete_all-IsKeyed [] m h = h
delete_all-IsKeyed (k ∷ ks) m h = delete_all-IsKeyed ks (delete k m) (delete-IsKeyed k m h)

pub count-delete_less :
    (q : CatalogEntry → Bool) (ks : List String) (m : Catalog)
    → IsKeyed m
    → count q (values (delete_all ks m)) ≤ count q (values m)
count-delete_less q ks m h =
    ground
      (arith, count-delete_all q ks m h, count-less q (λ e. not (includes ks e.key)) (values m))

count-place :
    (q : CatalogEntry → Bool) (e : CatalogEntry) (es : List CatalogEntry)
    → count q (place e es) ≡ count q (e ∷ es)
unfolding count place
count-place q e [] = refl
count-place q e (f ∷ es) = ground (arith, count-place q e es)

-- Sorting keeps all entries.
count-newest_first :
    (q : CatalogEntry → Bool) (es : List CatalogEntry) → count q (newest_first es) ≡ count q es
unfolding count newest_first
count-newest_first q [] = refl
count-newest_first q (e ∷ es) =
    ground (arith, count-place q e (newest_first es), count-newest_first q es)

-- All these keys are in the list.
abbrev pub AllIn : List String → List String → Type 0
AllIn ks [] = Unit
AllIn ks (l ∷ ls) = (includes ks l ≡ true) × AllIn ks ls

AllIn-cons : (k : String) (ks ls : List String) → AllIn ks ls → AllIn (k ∷ ks) ls
unfolding includes
AllIn-cons k ks [] h = tt
AllIn-cons k ks (l ∷ ls) (h, hs) = (ground arith, AllIn-cons k ks ls hs)

pub AllIn-refl : (ks : List String) → AllIn ks ks
unfolding includes
AllIn-refl [] = tt
AllIn-refl (k ∷ ks) = (ground (arith, eq_iff k k), AllIn-cons k ks ks (AllIn-refl ks))

includes-append :
    (ks ls : List String) (x : String) → includes (ks ++ ls) x ≡ includes ks x || includes ls x
unfolding includes
includes-append [] ls x = refl
includes-append (k ∷ ks) ls x = ground (arith, includes-append ks ls x)

pub AllIn-left : (ks more ls : List String) → AllIn ks ls → AllIn (ks ++ more) ls
AllIn-left ks more [] h = tt
AllIn-left ks more (l ∷ ls) (h, hs) =
    (ground (arith, includes-append ks more l), AllIn-left ks more ls hs)

pub AllIn-right : (more ks ls : List String) → AllIn ks ls → AllIn (more ++ ks) ls
AllIn-right more ks [] h = tt
AllIn-right more ks (l ∷ ls) (h, hs) =
    (ground (arith, includes-append more ks l), AllIn-right more ks ls hs)

-- Of entries whose surplus is deleted no more are left than the limit.
count-limit :
    (n : ℕ) (ks : List String) (es : List CatalogEntry)
    → AllIn ks (keys_of (entries_after n es))
    → count (λ e. not (includes ks e.key)) es ≤ n
unfolding count entries_after keys_of
count-limit n ks [] h = ground arith
count-limit zero ks (e ∷ es) (h, hs) = ground (arith, count-limit zero ks es (after es hs))
  where
    after :
        (es : List CatalogEntry) → AllIn ks (keys_of es) → AllIn ks (keys_of (entries_after 0 es))
    after [] h = h
    after (e ∷ es) h = h
count-limit (suc n) ks (e ∷ es) h = ground (arith, count-limit n ks es h)

pub count-surplus :
    (n : ℕ) (ks : List String) (es : List CatalogEntry)
    → AllIn ks (surplus n es)
    → count (λ e. not (includes ks e.key)) es ≤ n
count-surplus n ks es h = ground (
  arith,
  count-newest_first (λ e. not (includes ks e.key)) es,
  count-limit n ks (newest_first es) h,
)
