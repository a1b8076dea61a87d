-- ===== src/CardAuth/Verify.antt =====
-- internal/app/cardauth/auth.go: signing a callback and verifying a token. The clock, the fresh
-- nonce and the calls of other goroutines between two accesses to the nonces are arguments.
pub mod Authentic
pub mod Replay
pub mod RoundTrip
use Prim.Native.String
use lark_bridge_agent_sdk.Base.{
  ℕ, ◌+◌, String, Bool, true, false, ◌&&◌, ◌||◌, Option, none, some, List, [], ◌∷◌, ◌==◌, leb,
  Result, ok, err, ◌>>=◌, ◌>>◌, if◌then◌else◌,
}
use lark_bridge_agent_sdk.Base.Map.{lookup}
use lark_bridge_agent_sdk.CardAuth.{
  Key, Codec, SignInput, Payload, VerifyExpected, VerifyReason, VerifyResult, malformed,
  unknown_key, bad_signature, expired, context_mismatch, nonce_replay, nonce_revoked,
  matches_expected, valid_payload,
}
use lark_bridge_agent_sdk.CardAuth.Split.{split}
use lark_bridge_agent_sdk.CardAuth.Keys.{signing_key, find_key}
use lark_bridge_agent_sdk.CardAuth.Nonces.{
  NonceState, used, revoked, NonceStore, NonceCall, state, consume, after_nonce_calls,
}

pub data SignError : Type 0 where
  no_signing_key no_nonce : SignError

abbrev pub token_prefix : String
token_prefix = "bridge_cb.v1"

-- The parts with dots between them.
abbrev pub dotted : String → String → String
dotted s t = String.◌++◌ s (String.◌++◌ "." t)

abbrev pub guard : Bool → VerifyReason → Result VerifyReason (Unit {0})
guard true reason = ok tt
guard false reason = err reason

abbrev pub expect {ℓ} : {A : Type ℓ} → VerifyReason → Option A → Result VerifyReason A
expect reason none = err reason
expect reason (some a) = ok a

unfoldable pub signed_payload : SignInput → ℕ → String → Key → Payload
signed_payload input now nonce key = record {
  run_id = input.run_id;
  scope = input.scope;
  chat_id = input.chat_id;
  operator_open_id = input.operator_open_id;
  action = input.action;
  expires_at = now + input.ttl;
  policy_fingerprint = input.policy_fingerprint;
  nonce = nonce;
  key_version = key.version;
}

module _ (codec : Codec) where
  unfoldable pub token_of : Payload → Key → String
  token_of payload key =
      let encoded = codec.encode (codec.marshal payload) in
      dotted token_prefix (dotted encoded (codec.mac encoded key.secret))

  unfoldable pub sign_with : SignInput → ℕ → Option String → Option Key → Result SignError String
  unfolding token_of signed_payload
  sign_with input now fresh none = err no_signing_key
  sign_with input now none (some key) = err no_nonce
  sign_with input now (some fresh) (some key) =
      ok (token_of (signed_payload input now fresh key) key)

  unfoldable pub sign : List Key → SignInput → ℕ → Option String → Result SignError String
  unfolding sign_with
  sign keys input now nonce = sign_with input now nonce (signing_key keys)

  -- The encoded payload and the signature.
  unfoldable pub token_parts : List String → Result VerifyReason (String × String)
  token_parts (name ∷ version ∷ encoded ∷ signature ∷ []) =
      if dotted name version == token_prefix
      then (if encoded == "" || signature == "" then err malformed else ok (encoded, signature))
      else err malformed
  token_parts _ = err malformed

  unfoldable pub read_payload : String → Result VerifyReason Payload
  read_payload encoded = expect malformed (codec.decode encoded) >>= λ raw.
      expect malformed (codec.unmarshal raw) >>= λ payload.
      guard (valid_payload payload) malformed >> ok payload

  -- All tests but those on the nonce, in their order.
  unfoldable pub checked :
      List Key → VerifyExpected → ℕ → Key → Payload → String × String → VerifyResult
  checked keys expected now key payload (encoded, signature) =
      guard (signature == codec.mac encoded key.secret) bad_signature
      >> (guard (if leb payload.expires_at now then false else true) expired
          >> (guard (matches_expected payload expected) context_mismatch >> ok payload))

  unfoldable pub authenticate : List Key → String → VerifyExpected → ℕ → VerifyResult
  unfolding token_parts read_payload checked
  authenticate keys token expected now = token_parts (split "." token) >>= λ parts.
      read_payload parts.0 >>= λ payload.
      expect unknown_key (find_key payload.key_version keys) >>= λ key.
      checked keys expected now key payload parts

abbrev pub spent : Payload → Bool × NonceStore → VerifyResult × NonceStore
spent payload (true, nonces) = (ok payload, nonces)
spent payload (false, nonces) = (err nonce_replay, nonces)

-- The state of the nonce, and then its consumption, with other calls in between.
unfoldable pub spend :
    List NonceCall → Payload → NonceStore → Option NonceState → VerifyResult × NonceStore
spend others payload nonces (some revoked) = (err nonce_revoked, nonces)
spend others payload nonces (some used) = (err nonce_replay, nonces)
spend others payload nonces none =
    spent payload (consume payload.nonce (after_nonce_calls others nonces))

unfoldable pub accept : List NonceCall → NonceStore → VerifyResult → VerifyResult × NonceStore
unfolding spend state
accept others nonces (err reason) = (err reason, nonces)
accept others nonces (ok payload) = spend others payload nonces (state payload.nonce nonces)

unfoldable pub verify :
    Codec
    → List Key
    → String
    → VerifyExpected
    → ℕ
    → List NonceCall
    → NonceStore
    → VerifyResult × NonceStore
unfolding accept
verify codec keys token expected now others nonces =
    accept others nonces (authenticate codec keys token expected now)
