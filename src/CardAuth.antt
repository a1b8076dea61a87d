-- ===== src/CardAuth.antt =====
-- internal/app/cardauth: the signed callbacks of cards. HMAC, base64, JSON and SHA-256 are the
-- operations of a `Codec`. Times are milliseconds and key versions are natural numbers.
mod Split
pub mod Keys
pub mod Nonces
pub mod Verify
pub mod Pending
mod Tests
use lark_bridge_agent_sdk.Base.{
  ℕ, String, Bool, not, ◌&&◌, ◌==◌, nat_eq, Option, some, List, ◌≡◌, Result,
}

pub record Key : Type 0 where
  pub version : ℕ
  pub secret : String
  pub retired : Bool

pub record SignInput : Type 0 where
  pub run_id : String
  pub scope : String
  pub chat_id : String
  pub operator_open_id : String
  pub action : String
  pub policy_fingerprint : String
  pub ttl : ℕ

pub record VerifyExpected : Type 0 where
  pub run_id : String
  pub scope : String
  pub chat_id : String
  pub operator_open_id : String
  pub action : String
  pub policy_fingerprint : String

pub record Payload : Type 0 where
  pub run_id : String
  pub scope : String
  pub chat_id : String
  pub operator_open_id : String
  pub action : String
  pub expires_at : ℕ
  pub policy_fingerprint : String
  pub nonce : String
  pub key_version : ℕ

pub data VerifyReason : Type 0 where
  malformed unknown_key bad_signature expired context_mismatch nonce_replay nonce_revoked :
      VerifyReason

abbrev pub VerifyResult : Type 0
VerifyResult = Result VerifyReason Payload

unfoldable pub matches_expected : Payload → VerifyExpected → Bool
matches_expected payload expected =
    payload.run_id == expected.run_id
    && payload.scope == expected.scope
    && payload.chat_id == expected.chat_id
    && payload.operator_open_id == expected.operator_open_id
    && payload.action == expected.action
    && payload.policy_fingerprint == expected.policy_fingerprint

unfoldable pub valid_payload : Payload → Bool
valid_payload payload =
    not (payload.run_id == "")
    && not (payload.scope == "")
    && not (payload.chat_id == "")
    && not (payload.operator_open_id == "")
    && not (payload.action == "")
    && not (nat_eq payload.expires_at 0)
    && not (payload.policy_fingerprint == "")
    && not (payload.nonce == "")
    && not (nat_eq payload.key_version 0)

-- The standard library's encodings: `mac` is the base64 of the HMAC of a text under a secret, and
-- `digest` the hash of a text.
pub record Codec : Type 0 where
  pub mac : String → String → String
  pub encode : String → String
  pub decode : String → Option String
  pub marshal : Payload → String
  pub unmarshal : String → Option Payload
  pub digest : String → String
