-- ===== src/CardAuth/Keys.antt =====
-- internal/app/cardauth/auth.go: the keys, the order that `New` puts them in, and which of them
-- signs and which verifies.
pub mod Order
use lark_bridge_agent_sdk.Base.{
  ℕ, zero, suc, ◌+◌, ◌≤◌, Bool, true, false, not, Option, none, some, List, [], ◌∷◌, ◌≡◌, refl, ltb,
  nat_eq, if◌then◌else◌, length, arith, ◌⊎◌, inl, inr,
}
use lark_bridge_agent_sdk.CardAuth.{Key}

-- The inner loop of the exchange sort: the key at position `i` is compared with each later one and
-- changes places with one of a smaller version.
unfoldable pub exchange : Key → List Key → Key × List Key
exchange key [] = (key, [])
exchange key (other ∷ others) =
    if ltb other.version key.version
    then ((exchange other others).0, key ∷ (exchange other others).1)
    else ((exchange key others).0, other ∷ (exchange key others).1)

-- The outer loop, on the number of positions left.
unfoldable pub sort_positions : ℕ → List Key → List Key
sort_positions zero keys = keys
sort_positions (suc n) [] = []
sort_positions (suc n) (key ∷ keys) = (exchange key keys).0 ∷ sort_positions n (exchange key keys).1

unfoldable pub sort_keys : List Key → List Key
sort_keys keys = sort_positions (length keys) keys

-- `New` refuses to run without a key.
unfoldable pub new : List Key → Option (List Key)
new [] = none
new (key ∷ keys) = some (sort_keys (key ∷ keys))

-- The last key that is not retired.
unfoldable pub signing_key : List Key → Option Key
signing_key [] = none
signing_key (key ∷ keys) = elim (signing_key keys) [
  | some later ↦ some later
  | none ↦ if key.retired then none else some key
]

unfoldable pub find_key : ℕ → List Key → Option Key
find_key version [] = none
find_key version (key ∷ keys) =
    let rest = find_key version keys in if nat_eq key.version version then some key else rest

-- How often a key satisfies a test.
unfoldable pub count_keys : (Key → Bool) → List Key → ℕ
count_keys p [] = 0
count_keys p (key ∷ keys) = (if p key then 1 else 0) + count_keys p keys
