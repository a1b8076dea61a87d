-- ===== src/CardAuth/Pending/Offered.antt =====
-- internal/app/cardauth/pending.go: an answer that a card offers is accepted.
use lark_bridge_agent_sdk.Base.{
  ℕ, ◌+◌, ◌<◌, String, Bool, true, false, Option, none, some, List, ◌≡◌, ap, sym, ◌∙◌, ◌==◌,
  eq_refl, Result, ok, err, includes, arith,
}
use lark_bridge_agent_sdk.Base.Map.{lookup, lookup-insert}
use lark_bridge_agent_sdk.CardAuth.{Key, Codec, SignInput, Payload, VerifyResult}
use lark_bridge_agent_sdk.CardAuth.Nonces.{NonceStore}
use lark_bridge_agent_sdk.CardAuth.Verify.{SignError, sign, verify}
use lark_bridge_agent_sdk.CardAuth.Verify.RoundTrip.{expected_of}
use lark_bridge_agent_sdk.CardAuth.Pending.{
  PendingCallback, PendingStore, Reading, is_pending_input, digests, live, pending_record,
  store_pending, sign_digested, sign_pending, is_same_operator, finish_pending, verify_value,
  verify_entry, verify_pending,
}

module _ (codec : Codec) where
  store_pending-lookup :
      (entry : PendingCallback) (now : ℕ) (fails : Bool) (entries : PendingStore)
      (signed : Result SignError String) (token : String)
      → (store_pending codec entry now fails entries signed).0 ≡ ok token
      → lookup (codec.digest token) (store_pending codec entry now fails entries signed).1
        ≡ some entry
  unfolding store_pending
  store_pending-lookup entry now fails entries (err e) token h = absurd (cc h)
  store_pending-lookup entry now true entries (ok t) token h = absurd (cc h)
  store_pending-lookup entry now false entries (ok t) token h = ground (
    arith,
    h,
    lookup-insert (codec.digest t) (codec.digest token) entry (live now entries),
    eq_refl (codec.digest t),
  )

  sign_digested-lookup :
      (keys : List Key) (input : SignInput) (start issued now : ℕ) (fresh : Option String)
      (fails : Bool) (entries : PendingStore) (o : Option (List String)) (hashes : List String)
      (token : String)
      → o ≡ some hashes
      → (sign_digested codec keys input start issued now fresh fails entries o).0 ≡ ok token
      → lookup
          (codec.digest token)
          (sign_digested codec keys input start issued now fresh fails entries o).1
        ≡ some (pending_record input start hashes)
  unfolding sign_digested
  sign_digested-lookup keys input start issued now fresh fails entries none hashes token e h =
      absurd (cc e)
  sign_digested-lookup keys input start issued now fresh fails entries (some hs) hashes token e h =
      store_pending-lookup (pending_record input start hs) now fails entries
        (sign codec keys input issued fresh) token h
      ∙ ap (λ l. some (pending_record input start l)) (cc e)

  sign_pending-tests :
      (keys : List Key) (input : SignInput) (values : List (Option String)) (start issued now : ℕ)
      (fresh : Option String) (fails : Bool) (entries : PendingStore) (token : String)
      → (sign_pending codec keys input values start issued now fresh fails entries).0 ≡ ok token
      → ((input.action == "agent_callback") ≡ true)
        × (sign_pending codec keys input values start issued now fresh fails entries
            ≡ sign_digested codec keys input start issued now fresh fails entries (digests values))
  unfolding sign_pending is_pending_input
  sign_pending-tests keys input values start issued now fresh fails entries token h =
      ground (arith, h)

  finish_pending-ok :
      (r : Reading) (key : String) (entries : PendingStore) (v : VerifyResult × NonceStore)
      (p : Payload)
      → r.flush_fails ≡ false
      → r.persist_fails ≡ false
      → v.0 ≡ ok p
      → (finish_pending codec key r entries v).0 ≡ ok p
  unfolding finish_pending
  finish_pending-ok r key entries (err e, n) p f g h = absurd (cc h)
  finish_pending-ok r key entries (ok q, n) p f g h = ground (arith, f, g, h)

  -- What the entry of a token leads to for an answer that it offers.
  verify_entry-offered :
      (keys : List Key) (token : String) (input : SignInput) (start : ℕ) (hashes : List String)
      (hash : String) (r : Reading) (entries : PendingStore) (nonces : NonceStore) (p : Payload)
      → (input.action == "agent_callback") ≡ true
      → includes hashes hash ≡ true
      → r.now < start + input.ttl
      → r.flush_fails ≡ false
      → r.persist_fails ≡ false
      → (verify codec keys token (expected_of input) r.verify_now r.others nonces).0 ≡ ok p
      → (verify_entry codec keys token
          (expected_of input)
          (some hash)
          r
          (entries, nonces)
          (some (pending_record input start hashes))).0
        ≡ ok p
  unfolding verify_entry verify_value is_same_operator pending_record
  verify_entry-offered keys token input start hashes hash r entries nonces p a i l f g v = ground (
    arith,
    a,
    i,
    l,
    eq_refl input.scope,
    eq_refl input.chat_id,
    eq_refl input.operator_open_id,
    finish_pending-ok r (codec.digest token) entries
        (verify codec keys token (expected_of input) r.verify_now r.others nonces) p f g v,
  )

-- An answer to a sent card is accepted if the card offers its value, the operator, the chat and the
-- scope are those that the card was signed for, the time to live has not passed, `Verify` accepts
-- the token, and the stores can be written.
pub sign_pending-verify_pending :
    (codec : Codec) (keys : List Key) (input : SignInput) (values : List (Option String))
    (start issued now : ℕ) (fresh : Option String) (fails : Bool) (entries : PendingStore)
    (token hash : String) (hashes : List String) (r : Reading) (nonces : NonceStore) (p : Payload)
    → (sign_pending codec keys input values start issued now fresh fails entries).0 ≡ ok token
    → digests values ≡ some hashes
    → includes hashes hash ≡ true
    → r.now < start + input.ttl
    → r.flush_fails ≡ false
    → r.persist_fails ≡ false
    → (verify codec keys token (expected_of input) r.verify_now r.others nonces).0 ≡ ok p
    → (verify_pending codec keys token
        (expected_of input)
        (some hash)
        r
        ((sign_pending codec keys input values start issued now fresh fails entries).1, nonces)).0
      ≡ ok p
unfolding verify_pending
sign_pending-verify_pending codec keys input values start issued now fresh fails entries token hash
      hashes r nonces p s d i l f g v =
    let tests =
      sign_pending-tests codec keys input values start issued now fresh fails entries token s in
    let stored = (sign_pending codec keys input values start issued now fresh fails entries).1 in
    let found =
      ap (λ x. lookup (codec.digest token) x.1) tests.1
      ∙ sign_digested-lookup codec keys input start issued now fresh fails entries (digests values)
          hashes token d (ap (λ x. x.0) (sym tests.1) ∙ s) in
    ap (λ o. (verify_entry codec keys token (expected_of input) (some hash) r (stored, nonces) o).0)
      found
    ∙ verify_entry-offered codec keys token input start hashes hash r stored nonces p tests.0 i l f
        g v
