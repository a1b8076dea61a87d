-- ===== src/CardAuth/Keys/Order.antt =====
-- internal/app/cardauth/auth.go: what the exchange sort in `New` does to the keys.
use lark_bridge_agent_sdk.Base.{
  ℕ, zero, suc, ◌≤◌, Bool, not, ◌&&◌, none, some, List, [], ◌∷◌, ◌≡◌, refl, subst, ltb, nat_eq,
  length, arith, Option-cases, inl, inr,
}
use lark_bridge_agent_sdk.CardAuth.{Key}
use lark_bridge_agent_sdk.CardAuth.Keys.{
  exchange, sort_positions, sort_keys, new, signing_key, count_keys,
}

-- No version is below the bound.
abbrev pub LowerBound : ℕ → List Key → Type 0
LowerBound v [] = Unit
LowerBound v (k ∷ ks) = (v ≤ k.version) × LowerBound v ks

abbrev pub IsSorted : List Key → Type 0
IsSorted [] = Unit
IsSorted (k ∷ ks) = LowerBound k.version ks × IsSorted ks

exchange-count :
    (p : Key → Bool) (k : Key) (ks : List Key)
    → count_keys p ((exchange k ks).0 ∷ (exchange k ks).1) ≡ count_keys p (k ∷ ks)
unfolding exchange count_keys
exchange-count p k [] = refl
exchange-count p k (o ∷ os) = ground (arith, exchange-count p k os, exchange-count p o os)

exchange-length : (k : Key) (ks : List Key) → length (exchange k ks).1 ≡ length ks
unfolding exchange
exchange-length k [] = refl
exchange-length k (o ∷ os) = ground (arith, exchange-length k os, exchange-length o os)

exchange-le : (k : Key) (ks : List Key) → (exchange k ks).0.version ≤ k.version
unfolding exchange
exchange-le k [] = omega arith
exchange-le k (o ∷ os) = ground (arith, exchange-le k os, exchange-le o os)

-- The key that ends up in front is a least one.
exchange-least : (k : Key) (ks : List Key) → LowerBound (exchange k ks).0.version (exchange k ks).1
unfolding exchange
exchange-least k [] = tt
exchange-least k (o ∷ os) =
    ground (arith, exchange-le k os, exchange-le o os, exchange-least k os, exchange-least o os)

exchange-LowerBound :
    (v : ℕ) (k : Key) (ks : List Key)
    → v ≤ k.version
    → LowerBound v ks
    → (v ≤ (exchange k ks).0.version) × LowerBound v (exchange k ks).1
unfolding exchange
exchange-LowerBound v k [] h l = (h, tt)
exchange-LowerBound v k (o ∷ os) h (ho, l) =
    ground (arith, exchange-LowerBound v k os h l, exchange-LowerBound v o os ho l)

sort_positions-LowerBound :
    (n v : ℕ) (ks : List Key) → LowerBound v ks → LowerBound v (sort_positions n ks)
unfolding sort_positions
sort_positions-LowerBound zero v ks l = l
sort_positions-LowerBound (suc n) v [] l = tt
sort_positions-LowerBound (suc n) v (k ∷ ks) (h, l) =
    let kept = exchange-LowerBound v k ks h l in
    (kept.0, sort_positions-LowerBound n v (exchange k ks).1 kept.1)

sort_positions-IsSorted : (n : ℕ) (ks : List Key) → length ks ≤ n → IsSorted (sort_positions n ks)
unfolding sort_positions
sort_positions-IsSorted zero [] h = tt
sort_positions-IsSorted zero (k ∷ ks) h = absurd (omega arith)
sort_positions-IsSorted (suc n) [] h = tt
sort_positions-IsSorted (suc n) (k ∷ ks) h = (
  sort_positions-LowerBound n _ (exchange k ks).1 (exchange-least k ks),
  sort_positions-IsSorted n (exchange k ks).1 (omega (arith, exchange-length k ks)),
)

sort_positions-count :
    (p : Key → Bool) (n : ℕ) (ks : List Key) → count_keys p (sort_positions n ks) ≡ count_keys p ks
unfolding sort_positions count_keys
sort_positions-count p zero ks = refl
sort_positions-count p (suc n) [] = refl
sort_positions-count p (suc n) (k ∷ ks) =
    omega (arith, exchange-count p k ks, sort_positions-count p n (exchange k ks).1)

-- `New` orders its keys by version, the oldest first, and neither loses nor adds a key: each test
-- holds of as many keys after as before.
pub new-IsSorted :
    (keys ks : List Key)
    → new keys ≡ some ks
    → IsSorted ks × ((p : Key → Bool) → count_keys p ks ≡ count_keys p keys)
unfolding new sort_keys
new-IsSorted [] ks h = absurd (cc h)
new-IsSorted (k ∷ keys) ks h =
    subst (λ l. IsSorted l × ((p : Key → Bool) → count_keys p l ≡ count_keys p (k ∷ keys))) (cc h)
      (
        sort_positions-IsSorted (length (k ∷ keys)) (k ∷ keys) (omega arith),
        λ p. sort_positions-count p (length (k ∷ keys)) (k ∷ keys),
      )

-- An active key of a version above the given one.
abbrev pub newer : ℕ → Key → Bool
newer v k = not k.retired && ltb v k.version

abbrev pub active_at : ℕ → Key → Bool
active_at v k = not k.retired && nat_eq k.version v

all_retired : (v : ℕ) (ks : List Key) → signing_key ks ≡ none → count_keys (newer v) ks ≡ 0
unfolding signing_key count_keys
all_retired v [] h = refl
all_retired v (k ∷ ks) h = ground (arith, all_retired v ks)

signing_key-least :
    (v : ℕ) (ks : List Key) (key : Key)
    → LowerBound v ks
    → signing_key ks ≡ some key
    → v ≤ key.version
unfolding signing_key
signing_key-least v [] key l h = absurd (cc h)
signing_key-least v (k ∷ ks) key (b, l) h = elim (Option-cases (signing_key ks)) [
  | inl n ↦ ground (arith, n, h)
  | inr (later, e) ↦ ground (arith, e, h, signing_key-least v ks later l e)
]

signing_key-newest :
    (ks : List Key) (key : Key)
    → IsSorted ks
    → signing_key ks ≡ some key
    → (count_keys (newer key.version) ks ≡ 0) × (1 ≤ count_keys (active_at key.version) ks)
unfolding signing_key count_keys
signing_key-newest [] key s h = absurd (cc h)
signing_key-newest (k ∷ ks) key (l, s) h = elim (Option-cases (signing_key ks)) [
  | inl n ↦ ground (arith, n, h, all_retired key.version ks n)
  | inr (later, e) ↦
      ground
        (arith, e, h, signing_key-newest ks later s e, signing_key-least k.version ks later l e)
]

-- The key that signs is an active one of the keys given to `New`, and no active key among them has
-- a newer version.
pub signing_key_newest :
    (keys ks : List Key) (key : Key)
    → new keys ≡ some ks
    → signing_key ks ≡ some key
    → (count_keys (newer key.version) keys ≡ 0) × (1 ≤ count_keys (active_at key.version) keys)
signing_key_newest keys ks key h e =
    let sorted = new-IsSorted keys ks h in
    let newest = signing_key-newest ks key sorted.0 e in
    let same = sorted.1 in
    (
      omega (arith, newest.0, same (newer key.version)),
      omega (arith, newest.1, same (active_at key.version)),
    )
