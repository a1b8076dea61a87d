-- ===== src/CardAuth/Verify/RoundTrip.antt =====
-- internal/app/cardauth/auth.go: a signed token is accepted by `Verify`.
use Prim.Native.String
use text.Mathlib.TextLemmas.{append_assoc}
use lark_bridge_agent_sdk.Base.{
  ℕ, ◌+◌, ◌≤◌, ◌<◌, String, Bool, true, false, none, some, List, [], ◌∷◌, ◌≡◌, refl, sym, ap, subst,
  ◌∙◌, ◌==◌, eq_refl, ok, ok-injective, nat_eq, arith, Option-cases, inl, inr,
}
use lark_bridge_agent_sdk.Base.Map.{lookup}
use lark_bridge_agent_sdk.CardAuth.{
  Key, Codec, SignInput, Payload, VerifyExpected, matches_expected, valid_payload,
}
use lark_bridge_agent_sdk.CardAuth.Split.{split, lacks, split-lacks, split-dotted}
use lark_bridge_agent_sdk.CardAuth.Keys.{signing_key, find_key, count_keys}
use lark_bridge_agent_sdk.CardAuth.Nonces.{NonceStore, NonceCall, after_nonce_calls}
use lark_bridge_agent_sdk.CardAuth.Verify.{
  token_prefix, dotted, signed_payload, token_of, sign_with, sign, token_parts, read_payload,
  verify,
}
use lark_bridge_agent_sdk.CardAuth.Verify.Authentic.{verify_iff}

-- What the encodings of the standard library promise of a payload and its signature: decoding
-- undoes encoding, and the alphabet of base64 has no dot.
pub record CodecLaws (codec : Codec) (p : Payload) (secret : String) : Type 0 where
  pub decode-encode : codec.decode (codec.encode (codec.marshal p)) ≡ some (codec.marshal p)
  pub unmarshal-marshal : codec.unmarshal (codec.marshal p) ≡ some p
  pub encode-lacks : lacks "." (codec.encode (codec.marshal p)) ≡ true
  pub mac-lacks : lacks "." (codec.mac (codec.encode (codec.marshal p)) secret) ≡ true
  pub encode-nonempty : (codec.encode (codec.marshal p) == "") ≡ false
  pub mac-nonempty : (codec.mac (codec.encode (codec.marshal p)) secret == "") ≡ false

abbrev pub has_version : ℕ → Key → Bool
has_version v k = nat_eq k.version v

signing_key-counted :
    (keys : List Key) (key : Key)
    → signing_key keys ≡ some key
    → 1 ≤ count_keys (has_version key.version) keys
unfolding signing_key count_keys
signing_key-counted [] key h = absurd (cc h)
signing_key-counted (k ∷ ks) key h = elim (Option-cases (signing_key ks)) [
  | inl n ↦ ground (arith, n, h)
  | inr (later, e) ↦ ground (arith, e, h, signing_key-counted ks key)
]

-- Where no two keys have the same version, the key that signs is the one that verifies.
find_key-signing_key :
    (keys : List Key) (key : Key)
    → count_keys (has_version key.version) keys ≤ 1
    → signing_key keys ≡ some key
    → find_key key.version keys ≡ some key
unfolding signing_key find_key count_keys
find_key-signing_key [] key d h = absurd (cc h)
find_key-signing_key (k ∷ ks) key d h = elim (Option-cases (signing_key ks)) [
  | inl n ↦ ground (arith, n, h)
  | inr (later, e) ↦ ground (arith, e, h, signing_key-counted ks key, find_key-signing_key ks key)
]

split-token :
    (s t : String)
    → lacks "." s ≡ true
    → lacks "." t ≡ true
    → split "." (dotted token_prefix (dotted s t)) ≡ "bridge_cb" ∷ "v1" ∷ s ∷ t ∷ []
unfolding lacks
split-token s t hs ht =
    ap (λ u. split "." u)
      (append_assoc "bridge_cb" ".v1" (String.◌++◌ "." (dotted s t))
        ∙ ap (λ u. String.◌++◌ "bridge_cb" u)
            (append_assoc "." "v1" (String.◌++◌ "." (dotted s t))))
    ∙ split-dotted "bridge_cb" (dotted "v1" (dotted s t)) refl
    ∙ ap (λ parts. "bridge_cb" ∷ parts)
        (split-dotted "v1" (dotted s t) refl
          ∙ ap (λ parts. "v1" ∷ parts)
              (split-dotted s t hs ∙ ap (λ parts. s ∷ parts) (split-lacks "." t ht)))

-- The context that the token is issued for.
abbrev pub expected_of : SignInput → VerifyExpected
expected_of input = record {
  run_id = input.run_id;
  scope = input.scope;
  chat_id = input.chat_id;
  operator_open_id = input.operator_open_id;
  action = input.action;
  policy_fingerprint = input.policy_fingerprint;
}

matches-signed :
    (input : SignInput) (now : ℕ) (fresh : String) (key : Key)
    → matches_expected (signed_payload input now fresh key) (expected_of input) ≡ true
unfolding matches_expected signed_payload
matches-signed input now fresh key = ground (
  arith,
  eq_refl input.run_id,
  eq_refl input.scope,
  eq_refl input.chat_id,
  eq_refl input.operator_open_id,
  eq_refl input.action,
  eq_refl input.policy_fingerprint,
)

module _ (codec : Codec) (p : Payload) (key : Key) (laws : CodecLaws codec p key.secret) where
  read-encoded : valid_payload p ≡ true → read_payload codec (codec.encode (codec.marshal p)) ≡ ok p
  unfolding read_payload
  read-encoded v = ground (arith, laws.decode-encode, laws.unmarshal-marshal, v)

  token_of-parts :
      token_parts codec (split "." (token_of codec p key))
      ≡ ok (codec.encode (codec.marshal p), codec.mac (codec.encode (codec.marshal p)) key.secret)
  unfolding token_of token_parts
  token_of-parts =
      let encoded = codec.encode (codec.marshal p) in
      ap (token_parts codec)
        (split-token encoded (codec.mac encoded key.secret) laws.encode-lacks laws.mac-lacks)
      ∙ ground (arith, laws.encode-nonempty, laws.mac-nonempty)

-- What `Sign` issues, `Verify` accepts for the context that it was issued for: before its expiry,
-- as long as its nonce was neither used nor revoked, and if no other key has the version of the key
-- that signed. The payload must have no empty field and no zero, and the encodings must keep their
-- promises on it.
pub sign-verify :
    (codec : Codec) (keys : List Key) (key : Key) (input : SignInput) (now later : ℕ)
    (fresh token : String) (others : List NonceCall) (nonces : NonceStore)
    → CodecLaws codec (signed_payload input now fresh key) key.secret
    → signing_key keys ≡ some key
    → count_keys (has_version key.version) keys ≤ 1
    → valid_payload (signed_payload input now fresh key) ≡ true
    → sign codec keys input now (some fresh) ≡ ok token
    → later < now + input.ttl
    → lookup fresh nonces ≡ none
    → lookup fresh (after_nonce_calls others nonces) ≡ none
    → (verify codec keys token (expected_of input) later others nonces).0
      ≡ ok (signed_payload input now fresh key)
unfolding sign sign_with signed_payload
sign-verify codec keys key input now later fresh token others nonces laws k d v s l f g =
    let payload = signed_payload input now fresh key in
    let encoded = codec.encode (codec.marshal payload) in
    let same = ok-injective (ap (sign_with codec input now (some fresh)) (sym k) ∙ s) in
    (verify_iff codec keys token (expected_of input) later others nonces payload).1 (
      (
        (encoded, codec.mac encoded key.secret),
        key,
        subst (λ t. token_parts codec (split "." t) ≡ ok (encoded, codec.mac encoded key.secret))
            same (token_of-parts codec payload key laws),
        read-encoded codec payload key laws v,
        find_key-signing_key keys key d k,
        refl,
        l,
        matches-signed input now fresh key,
      ),
      f,
      g,
    )
