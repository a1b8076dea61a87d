-- ===== src/CardAuth/Nonces.antt =====
-- internal/app/cardauth/store.go: the nonces that were used or revoked. Each function runs under
-- the mutex of the store; the file that mirrors the map is left out.
use lark_bridge_agent_sdk.Base.{
  String, Bool, true, false, Option, List, [], ◌∷◌, ◌≡◌, is_some, if◌then◌else◌, arith,
}
use lark_bridge_agent_sdk.Base.Map.{Map, lookup, insert, lookup-insert}

pub data NonceState : Type 0 where
  used revoked : NonceState

abbrev pub NonceStore : Type 0
NonceStore = Map NonceState

unfoldable pub state : String → NonceStore → Option NonceState
state nonce nonces = lookup nonce nonces

unfoldable pub consume : String → NonceStore → Bool × NonceStore
consume nonce nonces =
    if is_some (lookup nonce nonces) then (false, nonces) else (true, insert nonce used nonces)

unfoldable pub revoke : String → NonceStore → NonceStore
revoke nonce nonces = insert nonce revoked nonces

-- What other goroutines do to the store.
pub data NonceCall : Type 0 where
  consumes revokes : String → NonceCall

unfoldable pub after_nonce_call : NonceCall → NonceStore → NonceStore
unfolding consume revoke
after_nonce_call (consumes nonce) nonces = (consume nonce nonces).1
after_nonce_call (revokes nonce) nonces = revoke nonce nonces

unfoldable pub after_nonce_calls : List NonceCall → NonceStore → NonceStore
after_nonce_calls [] nonces = nonces
after_nonce_calls (call ∷ calls) nonces = after_nonce_calls calls (after_nonce_call call nonces)

abbrev pub Taken : String → NonceStore → Type 0
Taken nonce nonces = is_some (lookup nonce nonces) ≡ true

pub insert-Taken :
    (k j : String) (s : NonceState) (n : NonceStore) → Taken j n → Taken j (insert k s n)
insert-Taken k j s n h = ground (arith, lookup-insert k j s n)

pub call-Taken :
    (c : NonceCall) (k : String) (n : NonceStore) → Taken k n → Taken k (after_nonce_call c n)
unfolding after_nonce_call consume revoke
call-Taken (consumes j) k n h = ground (arith, insert-Taken j k used n)
call-Taken (revokes j) k n h = insert-Taken j k revoked n h

-- A nonce stays taken.
pub calls-Taken :
    (cs : List NonceCall) (k : String) (n : NonceStore)
    → Taken k n
    → Taken k (after_nonce_calls cs n)
unfolding after_nonce_calls
calls-Taken [] k n h = h
calls-Taken (c ∷ cs) k n h = calls-Taken cs k (after_nonce_call c n) (call-Taken c k n h)
