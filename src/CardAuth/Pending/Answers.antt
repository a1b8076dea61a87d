-- ===== src/CardAuth/Pending/Answers.antt =====
-- internal/app/cardauth/pending.go: which answers `VerifyPending` accepts, and how often.
use lark_bridge_agent_sdk.Base.{
  ℕ, ◌+◌, ◌≤◌, ◌<◌, String, true, Option, none, some, List, [], ◌∷◌, ◌≡◌, refl, ap, ◌∙◌, ◌==◌,
  eq_iff, eq_refl, leb, ok, err, if◌then◌else◌, is_some, includes, arith, Bool-cases, if-lift, inl,
  inr, ◌⊎◌,
}
use lark_bridge_agent_sdk.Base.Map.{lookup, delete, lookup-delete}
use lark_bridge_agent_sdk.CardAuth.{Key, Codec, Payload, VerifyExpected, VerifyResult}
use lark_bridge_agent_sdk.CardAuth.Nonces.{NonceStore}
use lark_bridge_agent_sdk.CardAuth.Verify.{verify}
use lark_bridge_agent_sdk.CardAuth.Pending.{
  PendingCallback, PendingStore, Reading, Stores, is_same_operator, finish_pending, verify_value,
  verify_entry, verify_pending, cancel_pending,
}

module _ (codec : Codec) (keys : List Key) (token : String) (expected : VerifyExpected)
    (r : Reading) where
  -- The entry offers this value to this operator and has not expired, and the token is authentic
  -- for the context of the entry.
  abbrev pub Offers : PendingCallback → Option String → NonceStore → Payload → Type 0
  Offers entry value nonces p =
      (hash : String) × (value ≡ some hash)
      × (includes entry.values hash ≡ true)
      × (r.now < entry.expires_at)
      × (is_same_operator entry.expected expected ≡ true)
      × ((verify codec keys token entry.expected r.verify_now r.others nonces).0 ≡ ok p)

  finish_pending-ok :
      (key : String) (entries : PendingStore) (v : VerifyResult × NonceStore) (p : Payload)
      → (finish_pending codec key r entries v).0 ≡ ok p
      → (v.0 ≡ ok p) × ((finish_pending codec key r entries v).1.0 ≡ delete key entries)
  unfolding finish_pending
  finish_pending-ok key entries (err e, n) p h = absurd (cc h)
  finish_pending-ok key entries (ok q, n) p h = (ground (arith, h), refl)

  -- What a value that the entry lists leads to.
  verify_value-ok :
      (entry : PendingCallback) (value : Option String) (s : Stores) (p : Payload)
      → (verify_value codec keys token r entry value s).0 ≡ ok p
      → (hash : String) × (value ≡ some hash)
        × (includes entry.values hash ≡ true)
        × ((verify codec keys token entry.expected r.verify_now r.others s.1).0 ≡ ok p)
        × ((verify_value codec keys token r entry value s).1.0 ≡ delete (codec.digest token) s.0)
  unfolding verify_value
  verify_value-ok entry none s p h = absurd (cc h)
  verify_value-ok entry (some hash) (entries, nonces) p h =
      elim (Bool-cases (includes entry.values hash)) [
        | inl e ↦
            let v = verify codec keys token entry.expected r.verify_now r.others nonces in
            let fine = finish_pending-ok (codec.digest token) entries v p (ground (arith, e, h)) in
            (hash, refl, e, fine.0, ground (arith, e, fine.1))
        | inr e ↦ absurd (ground (arith, e, h))
      ]

  verify_entry-tests :
      (value : Option String) (s : Stores) (entry : PendingCallback) (p : Payload)
      → (verify_entry codec keys token expected value r s (some entry)).0 ≡ ok p
      → (r.now < entry.expires_at)
        × (is_same_operator entry.expected expected ≡ true)
        × (verify_entry codec keys token expected value r s (some entry)
            ≡ verify_value codec keys token r entry value s)
  unfolding verify_entry
  verify_entry-tests value s entry p h = ground (arith, h)

  verify_entry-ok :
      (value : Option String) (s : Stores) (o : Option PendingCallback) (p : Payload)
      → (verify_entry codec keys token expected value r s o).0 ≡ ok p
      → (entry : PendingCallback) × (o ≡ some entry)
        × Offers entry value s.1 p
        × ((verify_entry codec keys token expected value r s o).1.0
            ≡ delete (codec.digest token) s.0)
  unfolding verify_entry
  verify_entry-ok value s none p h = absurd (cc h)
  verify_entry-ok value s (some entry) p h =
      let tests = verify_entry-tests value s entry p h in
      let met = verify_value-ok entry value s p (cc (tests.2, h)) in
      (entry, refl, (met.0, met.1, met.2, tests.0, tests.1, met.3), ap (λ x. x.1.0) tests.2 ∙ met.4)

  -- Only an entry with the token's digest is touched, and only by removing it.
  abbrev pub Removes : PendingStore → VerifyResult × Stores → Type 0
  Removes entries x = (x.1.0 ≡ entries) ⊎ (x.1.0 ≡ delete (codec.digest token) entries)

  finish_pending-Removes :
      (entries : PendingStore) (v : VerifyResult × NonceStore)
      → Removes entries (finish_pending codec (codec.digest token) r entries v)
  unfolding finish_pending
  finish_pending-Removes entries (err e, n) = inl refl
  finish_pending-Removes entries (ok q, n) = inr refl

  verify_value-Removes :
      (entry : PendingCallback) (value : Option String) (s : Stores)
      → Removes s.0 (verify_value codec keys token r entry value s)
  unfolding verify_value
  verify_value-Removes entry none s = inl refl
  verify_value-Removes entry (some hash) (entries, nonces) =
      if-lift (Removes entries) (includes entry.values hash) _ _
        (finish_pending-Removes entries
          (verify codec keys token entry.expected r.verify_now r.others nonces))
        (inl refl)

  verify_entry-Removes :
      (value : Option String) (s : Stores) (o : Option PendingCallback)
      → Removes s.0 (verify_entry codec keys token expected value r s o)
  unfolding verify_entry
  verify_entry-Removes value s none = inl refl
  verify_entry-Removes value s (some entry) =
      if-lift (Removes s.0) (leb entry.expires_at r.now) _ _ (inl refl) (
        if-lift (Removes s.0) (is_same_operator entry.expected expected) _ _
          (verify_value-Removes entry value s) (inl refl))

  -- `VerifyPending` accepts only an answer that the entry of the token offers to this operator in
  -- this chat and scope before the entry expires, and only with a token that `Verify` accepts for
  -- the recorded context. The entry is gone afterwards.
  pub verify_pending-Offers :
      (value : Option String) (s : Stores) (p : Payload)
      → (verify_pending codec keys token expected value r s).0 ≡ ok p
      → (entry : PendingCallback) × (lookup (codec.digest token) s.0 ≡ some entry)
        × Offers entry value s.1 p
        × (lookup (codec.digest token) (verify_pending codec keys token expected value r s).1.0
            ≡ none)
  unfolding verify_pending
  verify_pending-Offers value s p h =
      let met = verify_entry-ok value s (lookup (codec.digest token) s.0) p h in
      (
        met.0,
        met.1,
        met.2,
        ap (lookup (codec.digest token)) met.3
            ∙ ground (
              arith,
              lookup-delete (codec.digest token) (codec.digest token) s.0,
              eq_refl (codec.digest token),
            ),
      )

-- A call that answers a card or withdraws its token.
pub data PendingCall : Type 0 where
  answers :
      (token : String) (expected : VerifyExpected) (value : Option String) (r : Reading)
      → PendingCall
  cancels : (token : String) → PendingCall

abbrev pub is_accepted : VerifyResult → ℕ
is_accepted (err reason) = 0
is_accepted (ok payload) = 1

abbrev pub present : String → PendingStore → ℕ
present key entries = if is_some (lookup key entries) then 1 else 0

module _ (codec : Codec) (keys : List Key) (key : String) where
  -- How many answers to the entry of this digest are accepted.
  unfoldable pub accepted_answers : List PendingCall → Stores → ℕ
  accepted_answers [] s = 0
  accepted_answers (answers token expected value r ∷ calls) s =
      let after = verify_pending codec keys token expected value r s in
      (if codec.digest token == key then is_accepted after.0 else 0)
      + accepted_answers calls after.1
  accepted_answers (cancels token ∷ calls) s =
      accepted_answers calls (cancel_pending codec token s.0, s.1)

  present-answer_of :
      (token : String) (entries : PendingStore) (x : VerifyResult × Stores)
      → (x.1.0 ≡ entries) ⊎ (x.1.0 ≡ delete (codec.digest token) entries)
      → ((p : Payload)
          → x.0 ≡ ok p
          → (entry : PendingCallback) × (lookup (codec.digest token) entries ≡ some entry)
            × (lookup (codec.digest token) x.1.0 ≡ none))
      → (if codec.digest token == key then is_accepted x.0 else 0) + present key x.1.0
        ≤ present key entries
  present-answer_of token entries (err e, t) (inl u) met = ground (arith, u)
  present-answer_of token entries (err e, t) (inr u) met =
      ground (arith, u, lookup-delete (codec.digest token) key entries)
  present-answer_of token entries (ok p, t) (inl v) met =
      let was = met p refl in ground (arith, was.1, was.2, v, eq_iff (codec.digest token) key)
  present-answer_of token entries (ok p, t) (inr v) met =
      let was = met p refl in
      ground (
        arith,
        was.1,
        was.2,
        v,
        eq_iff (codec.digest token) key,
        lookup-delete (codec.digest token) key entries,
      )

  present-answer :
      (token : String) (expected : VerifyExpected) (value : Option String) (r : Reading)
      (s : Stores)
      → (if codec.digest token == key
            then is_accepted (verify_pending codec keys token expected value r s).0
            else 0)
          + present key (verify_pending codec keys token expected value r s).1.0
        ≤ present key s.0
  unfolding verify_pending
  present-answer token expected value r s =
      present-answer_of token s.0 (verify_pending codec keys token expected value r s)
        (verify_entry-Removes codec keys token expected r value s (lookup (codec.digest token) s.0))
        (λ p h.
          let met = verify_pending-Offers codec keys token expected r value s p h in
          (met.0, met.1, met.3))

  -- Until a token is issued anew, the entry of a sent card is answered at most once, and never
  -- after it is gone, whoever answers and whatever is cancelled in the meantime.
  pub answered_once :
      (calls : List PendingCall) (s : Stores) → accepted_answers calls s ≤ present key s.0
  unfolding accepted_answers cancel_pending
  answered_once [] s = omega arith
  answered_once (answers token expected value r ∷ calls) s = omega (
    arith,
    present-answer token expected value r s,
    answered_once calls (verify_pending codec keys token expected value r s).1,
  )
  answered_once (cancels token ∷ calls) s = ground (
    arith,
    answered_once calls (cancel_pending codec token s.0, s.1),
    lookup-delete (codec.digest token) key s.0,
  )
