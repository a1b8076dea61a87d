-- ===== src/CardAuth/Verify/Authentic.antt =====
-- internal/app/cardauth/auth.go: which tokens `Verify` accepts.
use lark_bridge_agent_sdk.Base.{
  ℕ, ◌<◌, String, true, Option, none, some, List, ◌≡◌, ◌↔◌, refl, subst, eq_iff, ok, err,
  ok-injective, >>=-Through, ap, arith, Option-cases, inl, inr,
}
use lark_bridge_agent_sdk.Base.Map.{lookup}
use lark_bridge_agent_sdk.CardAuth.{
  Key, Codec, Payload, VerifyExpected, VerifyReason, VerifyResult, unknown_key, matches_expected,
}
use lark_bridge_agent_sdk.CardAuth.Split.{split}
use lark_bridge_agent_sdk.CardAuth.Keys.{find_key}
use lark_bridge_agent_sdk.CardAuth.Nonces.{
  NonceStore, NonceCall, NonceState, used, revoked, state, consume, after_nonce_calls,
}
use lark_bridge_agent_sdk.CardAuth.Verify.{
  token_parts, read_payload, checked, authenticate, expect, spend, accept, verify,
}

module _ (codec : Codec) (keys : List Key) (token : String) (expected : VerifyExpected)
    (now : ℕ) where
  -- The token carries this payload under the signature of its key, before its expiry and for the
  -- expected context.
  abbrev pub Authentic : Payload → Type 0
  Authentic p =
      (parts : String × String) × (key : Key) × (token_parts codec (split "." token) ≡ ok parts)
      × (read_payload codec parts.0 ≡ ok p)
      × (find_key p.key_version keys ≡ some key)
      × (parts.1 ≡ codec.mac parts.0 key.secret)
      × (now < p.expires_at)
      × (matches_expected p expected ≡ true)

  expect-some {ℓ} :
      {A : Type ℓ} (r : VerifyReason) (o : Option A) (a : A) → expect r o ≡ ok a → o ≡ some a
  expect-some r none a h = absurd (cc h)
  expect-some r (some b) a h = ap some (ok-injective h)

  checked_iff :
      (key : Key) (p q : Payload) (parts : String × String)
      → (checked codec keys expected now key p parts ≡ ok q) ↔ (
          (p ≡ q)
          × (parts.1 ≡ codec.mac parts.0 key.secret)
          × (now < p.expires_at)
          × (matches_expected p expected ≡ true))
  unfolding checked
  checked_iff key p q (encoded, signature) = (
    λ h. ground (arith, h, eq_iff signature (codec.mac encoded key.secret)),
    λ h. ground (arith, h, eq_iff signature (codec.mac encoded key.secret)),
  )

  authenticate_iff :
      (p : Payload) → (authenticate codec keys token expected now ≡ ok p) ↔ Authentic p
  unfolding authenticate
  authenticate_iff p = (
    λ h.
        let parts = >>=-Through (token_parts codec (split "." token)) _ p h in
        let payload = >>=-Through (read_payload codec parts.0.0) _ p parts.1 in
        let key =
          >>=-Through (expect unknown_key (find_key payload.0.key_version keys)) _ p payload.1 in
        let fields = (checked_iff key.0 payload.0 p parts.0).0 key.1 in
        (
          parts.0,
          key.0,
          parts.2,
          cc (payload.2, fields.0),
          cc (expect-some unknown_key (find_key payload.0.key_version keys) key.0 key.2, fields.0),
          fields.1,
          subst (λ q. now < q.expires_at) fields.0 fields.2,
          cc (fields.3, fields.0),
        ),
    λ (parts, key, e, r, k, m, l, c). cc (e, r, k, (checked_iff key p p parts).1 (refl, m, l, c)),
  )

spend_iff :
    (others : List NonceCall) (p q : Payload) (n : NonceStore) (s : Option NonceState)
    → ((spend others p n s).0 ≡ ok q)
      ↔ ((p ≡ q) × (s ≡ none) × (lookup p.nonce (after_nonce_calls others n) ≡ none))
unfolding spend consume
spend_iff others p q n (some used) = (λ h. absurd (cc h), λ (e, o, l). absurd (cc o))
spend_iff others p q n (some revoked) = (λ h. absurd (cc h), λ (e, o, l). absurd (cc o))
spend_iff others p q n none = elim (Option-cases (lookup p.nonce (after_nonce_calls others n))) [
  | inl e ↦ ground (arith, e)
  | inr (s, e) ↦ ground (arith, e)
]

accept_iff :
    (others : List NonceCall) (p : Payload) (n : NonceStore) (r : VerifyResult)
    → ((accept others n r).0 ≡ ok p) ↔ (
        (r ≡ ok p)
        × (lookup p.nonce n ≡ none)
        × (lookup p.nonce (after_nonce_calls others n) ≡ none))
unfolding accept state
accept_iff others p n (err reason) = (λ h. absurd (cc h), λ (e, l, m). absurd (cc e))
accept_iff others p n (ok q) =
    let rule = spend_iff others q p n (lookup q.nonce n) in
    (
      λ h. let met = rule.0 h in (ap ok met.0, cc (met.0, met.1), cc (met.0, met.2)),
      λ (e, l, m). let same = ok-injective e in rule.1 (same, cc (same, l), cc (same, m)),
    )

-- `Verify` accepts exactly the authentic tokens whose nonce is in the store neither when it looks
-- nor, after what other goroutines did in between, when it consumes the nonce.
pub verify_iff :
    (codec : Codec) (keys : List Key) (token : String) (expected : VerifyExpected) (now : ℕ)
    (others : List NonceCall) (nonces : NonceStore) (p : Payload)
    → ((verify codec keys token expected now others nonces).0 ≡ ok p) ↔ (
        Authentic codec keys token expected now p
        × (lookup p.nonce nonces ≡ none)
        × (lookup p.nonce (after_nonce_calls others nonces) ≡ none))
unfolding verify
verify_iff codec keys token expected now others nonces p =
    let accepted = accept_iff others p nonces (authenticate codec keys token expected now) in
    let authentic = authenticate_iff codec keys token expected now p in
    (
      λ h. let met = accepted.0 h in (authentic.0 met.0, met.1, met.2),
      λ (a, fresh, still). accepted.1 (authentic.1 a, fresh, still),
    )
