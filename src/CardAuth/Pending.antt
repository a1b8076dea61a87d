-- ===== src/CardAuth/Pending.antt =====
-- internal/app/cardauth/pending.go: tokens of sent cards, each for one answer out of several. Each
-- function runs under the mutex of the pending entries. The digest of a callback value stands for
-- the value; `none` is a value without one. What the file system answers is an argument.
pub mod Answers
pub mod Offered
use lark_bridge_agent_sdk.Base.{
  ℕ, ◌+◌, String, Bool, true, false, not, ◌&&◌, ◌||◌, Option, none, some, List, [], ◌∷◌, ◌==◌, leb,
  nat_eq, Result, ok, err, if◌then◌else◌, includes,
}
use lark_bridge_agent_sdk.Base.Map.{Map, lookup, insert, delete}
use lark_bridge_agent_sdk.CardAuth.{
  Key, Codec, SignInput, Payload, VerifyExpected, VerifyReason, VerifyResult, malformed, expired,
  context_mismatch, nonce_revoked,
}
use lark_bridge_agent_sdk.CardAuth.Nonces.{NonceStore, NonceCall}
use lark_bridge_agent_sdk.CardAuth.Verify.{SignError, sign, verify}

pub record PendingCallback : Type 0 where
  pub expected : VerifyExpected
  pub expires_at : ℕ
  pub values : List String

abbrev pub PendingStore : Type 0
PendingStore = Map PendingCallback

pub data PendingError : Type 0 where
  not_pending no_value_digest persist_failed : PendingError
  sign_failed : SignError → PendingError

unfoldable pub is_pending_input : SignInput → List (Option String) → Bool
is_pending_input input values =
    input.action == "agent_callback"
    && not (nat_eq input.ttl 0)
    && not (elim values [ [] ↦ true | _ ∷ _ ↦ false ])
    && not (input.run_id == "")
    && not (input.scope == "")
    && not (input.chat_id == "")
    && not (input.operator_open_id == "")
    && not (input.policy_fingerprint == "")

unfoldable pub digests : List (Option String) → Option (List String)
digests [] = some []
digests (value ∷ values) = elim value [
  | none ↦ none
  | some hash ↦ elim (digests values) [ none ↦ none | some hashes ↦ some (hash ∷ hashes) ]
]

-- The loop that drops expired entries.
unfoldable pub live : ℕ → PendingStore → PendingStore
live now [] = []
live now (entry ∷ entries) =
    let rest = live now entries in if leb (entry.1).expires_at now then rest else entry ∷ rest

unfoldable pub pending_record : SignInput → ℕ → List String → PendingCallback
pending_record input now hashes = record {
  expected = record {
    run_id = input.run_id;
    scope = input.scope;
    chat_id = input.chat_id;
    operator_open_id = input.operator_open_id;
    action = input.action;
    policy_fingerprint = input.policy_fingerprint;
  };
  expires_at = now + input.ttl;
  values = hashes;
}

abbrev pub PendingResult : Type 0
PendingResult = Result PendingError String × PendingStore

-- What `VerifyPending` meets. The clock is read by it and by `Verify`.
pub record Reading : Type 0 where
  pub now : ℕ
  pub verify_now : ℕ
  pub others : List NonceCall
  pub flush_fails : Bool
  pub persist_fails : Bool

abbrev pub Stores : Type 0
Stores = PendingStore × NonceStore

unfoldable pub is_same_operator : VerifyExpected → VerifyExpected → Bool
is_same_operator recorded expected =
    expected.action == "agent_callback"
    && recorded.scope == expected.scope
    && recorded.chat_id == expected.chat_id
    && recorded.operator_open_id == expected.operator_open_id

module _ (codec : Codec) where
  unfoldable pub store_pending :
      PendingCallback → ℕ → Bool → PendingStore → Result SignError String → PendingResult
  store_pending entry now persist_fails entries (err e) = (err (sign_failed e), entries)
  store_pending entry now persist_fails entries (ok token) =
      let key = codec.digest token in
      let kept = live now entries in
      if persist_fails
      then (err persist_failed, delete key kept)
      else (ok token, insert key entry kept)

  unfoldable pub sign_digested :
      List Key
      → SignInput
      → (start issued now : ℕ) → Option String
      → Bool
      → PendingStore
      → Option (List String)
      → PendingResult
  unfolding store_pending
  sign_digested keys input start issued now fresh persist_fails entries none =
      (err no_value_digest, entries)
  sign_digested keys input start issued now fresh persist_fails entries (some hashes) =
      store_pending (pending_record input start hashes) now persist_fails entries
        (sign codec keys input issued fresh)

  -- The clock is read three times: for the entry, for the token and for the loop.
  unfoldable pub sign_pending :
      List Key
      → SignInput
      → List (Option String)
      → (start issued now : ℕ) → Option String
      → Bool
      → PendingStore
      → PendingResult
  unfolding is_pending_input sign_digested
  sign_pending keys input values start issued now fresh persist_fails entries =
      if is_pending_input input values
      then sign_digested keys input start issued now fresh persist_fails entries (digests values)
      else (err not_pending, entries)

  unfoldable pub finish_pending :
      String → Reading → PendingStore → VerifyResult × NonceStore → VerifyResult × Stores
  finish_pending key r entries (err reason, nonces) = (err reason, (entries, nonces))
  finish_pending key r entries (ok payload, nonces) = (
    if r.flush_fails || r.persist_fails then err nonce_revoked else ok payload,
    (delete key entries, nonces),
  )

  unfoldable pub verify_value :
      List Key → String → Reading → PendingCallback → Option String → Stores → VerifyResult × Stores
  unfolding finish_pending
  verify_value keys token r entry none s = (err malformed, s)
  verify_value keys token r entry (some hash) (entries, nonces) =
      if includes entry.values hash
      then finish_pending (codec.digest token) r entries
          (verify codec keys token entry.expected r.verify_now r.others nonces)
      else (err context_mismatch, (entries, nonces))

  unfoldable pub verify_entry :
      List Key
      → String
      → VerifyExpected
      → Option String
      → Reading
      → Stores
      → Option PendingCallback
      → VerifyResult × Stores
  unfolding verify_value is_same_operator
  verify_entry keys token expected value r s none = (err context_mismatch, s)
  verify_entry keys token expected value r s (some entry) =
      if leb entry.expires_at r.now
      then (err expired, s)
      else if is_same_operator entry.expected expected
      then verify_value keys token r entry value s
      else (err context_mismatch, s)

  unfoldable pub verify_pending :
      List Key → String → VerifyExpected → Option String → Reading → Stores → VerifyResult × Stores
  unfolding verify_entry
  verify_pending keys token expected value r s =
      verify_entry keys token expected value r s (lookup (codec.digest token) s.0)

  unfoldable pub cancel_pending : String → PendingStore → PendingStore
  cancel_pending token entries = delete (codec.digest token) entries
