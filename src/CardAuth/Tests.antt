-- ===== src/CardAuth/Tests.antt =====
-- internal/app/cardauth: a card of one run, signed with the newer of two keys. The toy codec writes
-- a payload as its nonce.
use Prim.Native.String
use lark_bridge_agent_sdk.Base.{
  ◌+◌, ◌≤◌, String, false, Option, none, some, List, [], ◌∷◌, ◌≡◌, refl, ok, includes, arith,
}
use lark_bridge_agent_sdk.Base.Map.{lookup, insert, delete}
use lark_bridge_agent_sdk.CardAuth.{Key, Codec, SignInput, Payload, matches_expected, valid_payload}
use lark_bridge_agent_sdk.CardAuth.Split.{split, in_front, lacks}
use lark_bridge_agent_sdk.CardAuth.Keys.{signing_key, find_key, count_keys}
use lark_bridge_agent_sdk.CardAuth.Nonces.{
  NonceStore, revokes, state, consume, revoke, after_nonce_call, after_nonce_calls,
}
use lark_bridge_agent_sdk.CardAuth.Verify.{
  signed_payload, token_of, sign_with, sign, token_parts, read_payload, checked, authenticate,
  spend, accept, verify,
}
use lark_bridge_agent_sdk.CardAuth.Verify.Authentic.{Authentic, verify_iff}
use lark_bridge_agent_sdk.CardAuth.Verify.Replay.{
  VerifyCall, acceptances, verify_callback, taken, acceptances_once,
}
use lark_bridge_agent_sdk.CardAuth.Verify.RoundTrip.{CodecLaws, expected_of, sign-verify}
use lark_bridge_agent_sdk.CardAuth.Pending.Offered.{sign_pending-verify_pending}
use lark_bridge_agent_sdk.CardAuth.Pending.{
  is_pending_input, digests, sign_digested, store_pending, pending_record, live, sign_pending,
  PendingCallback, Reading, Stores, verify_pending, finish_pending, verify_value, verify_entry,
  is_same_operator,
}
use lark_bridge_agent_sdk.CardAuth.Pending.Answers.{
  Offers, PendingCall, answers, accepted_answers, present, verify_pending-Offers, answered_once,
}

abbrev tail : String → Option String
tail String.[] = none
tail (String.◌∷◌ c s) = some s

abbrev input : SignInput
input = record {
  run_id = "run";
  scope = "chat";
  chat_id = "oc";
  operator_open_id = "ou";
  action = "agent_callback";
  policy_fingerprint = "fp";
  ttl = 60;
}

abbrev payload : String → Payload
payload fresh = record {
  run_id = "run";
  scope = "chat";
  chat_id = "oc";
  operator_open_id = "ou";
  action = "agent_callback";
  expires_at = 160;
  policy_fingerprint = "fp";
  nonce = fresh;
  key_version = 2;
}

abbrev toy : Codec
toy = record {
  mac = λ s k. String.◌++◌ k s;
  encode = λ s. String.◌++◌ "=" s;
  decode = tail;
  marshal = λ p. p.nonce;
  unmarshal = λ s. some (payload s);
  digest = λ s. s;
}

abbrev old_key : Key
old_key = record { version = 1; secret = "old"; retired = false }

abbrev new_key : Key
new_key = record { version = 2; secret = "new"; retired = false }

abbrev keys : List Key
keys = old_key ∷ new_key ∷ []

abbrev token : String
token = "bridge_cb.v1.=n.new=n"

abbrev fresh_store : NonceStore
fresh_store = []

toy_laws : CodecLaws toy (payload "n") "new"
unfolding lacks
toy_laws = record {
  decode-encode = refl;
  unmarshal-marshal = refl;
  encode-lacks = refl;
  mac-lacks = refl;
  encode-nonempty = refl;
  mac-nonempty = refl;
}

sign-verify_example :
    (verify toy keys token (expected_of input) 120 (revokes "m" ∷ []) fresh_store).0
    ≡ ok (payload "n")
unfolding signed_payload signing_key count_keys valid_payload sign sign_with token_of lookup insert
    delete after_nonce_calls after_nonce_call revoke
sign-verify_example =
    sign-verify toy keys new_key input 100 120 "n" token (revokes "m" ∷ []) fresh_store toy_laws
      refl (omega arith) refl refl (omega arith) refl refl

verify_iff_example :
    Authentic toy keys token (expected_of input) 120 (payload "n")
    × (lookup "n" fresh_store ≡ none)
    × (lookup "n" (after_nonce_calls [] fresh_store) ≡ none)
unfolding verify accept spend state consume authenticate split in_front token_parts read_payload
    valid_payload find_key checked matches_expected lookup insert delete after_nonce_calls
verify_iff_example =
    (verify_iff toy keys token (expected_of input) 120 [] fresh_store (payload "n")).0 refl

abbrev callback : VerifyCall
callback = record {
  token = token;
  expected = expected_of input;
  now = 120;
  before = [];
  inside = [];
}

accepted_then_refused : acceptances toy keys "n" (callback ∷ callback ∷ []) fresh_store ≡ 1
unfolding acceptances verify_callback verify accept spend state consume authenticate split in_front
    token_parts read_payload valid_payload find_key checked matches_expected lookup insert delete
    after_nonce_calls
accepted_then_refused = refl

acceptances_once_example :
    acceptances toy keys "n" (callback ∷ callback ∷ []) fresh_store + taken "n" fresh_store ≤ 1
acceptances_once_example = acceptances_once toy keys "n" (callback ∷ callback ∷ []) fresh_store

abbrev entry : PendingCallback
entry = record { expected = expected_of input; expires_at = 160; values = "yes" ∷ "no" ∷ [] }

abbrev stores : Stores
stores = ((token, entry) ∷ [], [])

abbrev reading : Reading
reading = record {
  now = 120;
  verify_now = 120;
  others = [];
  flush_fails = false;
  persist_fails = false;
}

verify_pending-Offers_example :
    (e : PendingCallback) × (lookup token stores.0 ≡ some e)
    × Offers toy keys token (expected_of input) reading e (some "yes") [] (payload "n")
    × (lookup token
          (verify_pending toy keys token (expected_of input) (some "yes") reading stores).1.0
        ≡ none)
unfolding verify_pending verify_entry verify_value finish_pending is_same_operator includes verify
    accept spend state consume authenticate split in_front token_parts read_payload valid_payload
    find_key checked matches_expected lookup insert delete after_nonce_calls
verify_pending-Offers_example =
    verify_pending-Offers toy keys token (expected_of input) reading (some "yes") stores
      (payload "n") refl

abbrev calls : List PendingCall
calls =
    answers token (expected_of input) (some "yes") reading
    ∷ answers token (expected_of input) (some "no") reading
    ∷ []

answered_once_example : accepted_answers toy keys token calls stores ≤ present token stores.0
answered_once_example = answered_once toy keys token calls stores

abbrev choices : List (Option String)
choices = some "yes" ∷ some "no" ∷ []

sign_pending-verify_pending_example :
    (verify_pending toy keys token
      (expected_of input)
      (some "no")
      reading
      ((sign_pending toy keys input choices 100 100 100 (some "n") false []).1, fresh_store)).0
    ≡ ok (payload "n")
unfolding sign_pending is_pending_input digests sign_digested store_pending pending_record live sign
    sign_with token_of signed_payload signing_key includes verify accept spend state consume
    authenticate split in_front token_parts read_payload valid_payload find_key checked
    matches_expected lookup insert delete after_nonce_calls
sign_pending-verify_pending_example =
    sign_pending-verify_pending toy keys input choices 100 100 100 (some "n") false [] token "no"
      ("yes" ∷ "no" ∷ []) reading fresh_store (payload "n") refl refl refl (omega arith) refl refl
      refl
