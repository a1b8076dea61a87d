-- ===== src/CardAuth/Verify/Replay.antt =====
-- internal/app/cardauth: no nonce is accepted twice.
use lark_bridge_agent_sdk.Base.{
  ℕ, ◌+◌, ◌≤◌, String, Option, none, some, List, [], ◌∷◌, ◌≡◌, refl, ◌==◌, eq_iff, ok, err,
  if◌then◌else◌, is_some, arith,
}
use lark_bridge_agent_sdk.Base.Map.{lookup, lookup-insert}
use lark_bridge_agent_sdk.CardAuth.{Key, Codec, Payload, VerifyExpected, VerifyResult}
use lark_bridge_agent_sdk.CardAuth.Nonces.{
  NonceStore, NonceCall, NonceState, used, revoked, state, consume, after_nonce_calls, calls-Taken,
}
use lark_bridge_agent_sdk.CardAuth.Verify.{spend, accept, authenticate, verify}

-- One call of `Verify`, with what other goroutines do to the nonces before it and inside it.
pub record VerifyCall : Type 0 where
  pub token : String
  pub expected : VerifyExpected
  pub now : ℕ
  pub before : List NonceCall
  pub inside : List NonceCall

abbrev pub is_accepted_with : String → VerifyResult → ℕ
is_accepted_with nonce (err reason) = 0
is_accepted_with nonce (ok payload) = if payload.nonce == nonce then 1 else 0

abbrev pub taken : String → NonceStore → ℕ
taken nonce nonces = if is_some (lookup nonce nonces) then 1 else 0

module _ (codec : Codec) (keys : List Key) where
  unfoldable pub verify_callback : VerifyCall → NonceStore → VerifyResult × NonceStore
  verify_callback c nonces =
      verify codec keys c.token c.expected c.now c.inside (after_nonce_calls c.before nonces)

  -- How many of the calls accept a payload with this nonce.
  unfoldable pub acceptances : String → List VerifyCall → NonceStore → ℕ
  acceptances nonce [] nonces = 0
  acceptances nonce (c ∷ cs) nonces =
      is_accepted_with nonce (verify_callback c nonces).0
      + acceptances nonce cs (verify_callback c nonces).1

spend-taken :
    (k : String) (others : List NonceCall) (p : Payload) (n : NonceStore) (s : Option NonceState)
    → lookup p.nonce n ≡ s
    → (is_accepted_with k (spend others p n s).0 + taken k n ≤ taken k (spend others p n s).1)
unfolding spend consume
spend-taken k others p n (some used) h = omega arith
spend-taken k others p n (some revoked) h = omega arith
spend-taken k others p n none h = ground (
  arith,
  eq_iff p.nonce k,
  lookup-insert p.nonce k used (after_nonce_calls others n),
  calls-Taken others k n,
)

accept-taken :
    (k : String) (others : List NonceCall) (n : NonceStore) (r : VerifyResult)
    → is_accepted_with k (accept others n r).0 + taken k n ≤ taken k (accept others n r).1
unfolding accept state
accept-taken k others n (err reason) = omega arith
accept-taken k others n (ok p) = spend-taken k others p n (lookup p.nonce n) refl

taken-le :
    (k : String) (cs : List NonceCall) (n : NonceStore)
    → taken k n ≤ taken k (after_nonce_calls cs n)
taken-le k cs n = ground (arith, calls-Taken cs k n)

-- A nonce is accepted at most once in any number of calls of `Verify`, whatever tokens they are
-- given and whatever other goroutines do to the nonces in the meantime, and never if it was used or
-- revoked at the start.
pub acceptances_once :
    (codec : Codec) (keys : List Key) (k : String) (cs : List VerifyCall) (n : NonceStore)
    → acceptances codec keys k cs n + taken k n ≤ 1
unfolding acceptances verify_callback verify
acceptances_once codec keys k [] n = ground arith
acceptances_once codec keys k (c ∷ cs) n =
    let start = after_nonce_calls c.before n in
    let r = authenticate codec keys c.token c.expected c.now in
    omega (
      arith,
      taken-le k c.before n,
      accept-taken k c.inside start r,
      acceptances_once codec keys k cs (accept c.inside start r).1,
    )
