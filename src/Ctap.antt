-- ===== src/Ctap.antt =====
-- windows/common/Ctap2Bridge.h and Ctap2Bridge.cpp: requests and responses of a security key. The
-- SHA-256 digest is an argument, `none` when a call of Windows CNG in front of it fails.
pub mod Layout
use phonekey.Prelude.{
  ℕ, ◌+◌, Bool, List, [], ◌∷◌, Option, none, some, if◌then◌else◌, set, replicate,
}
use phonekey.Prelude.Writes.{memcpy, write_u32}
use phonekey.Protocol.{
  AuthPayload, new_payload, current_protocol_version, algorithm_ecdsa_p256_sha256,
}

pub record GetAssertionRequest : Type 0 where
  pub relying_party_id : List ℕ
  pub client_data_hash : List ℕ
  pub allow_credential_id : List ℕ

pub record GetAssertionResponse : Type 0 where
  pub status : ℕ
  pub authenticator_data : List ℕ
  pub signature_der : List ℕ
  pub user_handle : List ℕ

-- User present, and user verified.
abbrev pub flags_of : Bool → ℕ
flags_of user_verified = if user_verified then 0x05 else 0x01

-- `BuildAuthenticatorData`
unfoldable pub build_authenticator_data : (List ℕ → Option (List ℕ)) → List ℕ → ℕ → Bool → List ℕ
build_authenticator_data sha256 relying_party_id sign_count user_verified =
    let auth_data = replicate 37 0 in
    let hashed : List ℕ = elim (sha256 relying_party_id) [
      | none ↦ auth_data
      | some hash ↦ memcpy 0 hash 32 auth_data
    ] in
    write_u32 33 sign_count (set hashed 32 (flags_of user_verified))

-- `TranslateToPhoneKeyPayload`
unfoldable pub translate_to_phone_key_payload :
    GetAssertionRequest → List ℕ → List ℕ → List ℕ → ℕ → AuthPayload
translate_to_phone_key_payload request device_id session_id pc_id expiration_ms =
    record new_payload {
      protocol_version = current_protocol_version;
      algorithm_id = algorithm_ecdsa_p256_sha256;
      device_id = device_id;
      session_id = session_id;
      pc_id = pc_id;
      challenge = request.client_data_hash;
      expiration_timestamp_ms = expiration_ms;
    }

-- `FormatAssertionResponse`
unfoldable pub format_assertion_response : List ℕ → List ℕ → GetAssertionResponse
format_assertion_response auth_data signature_der = record {
  status = 0x00;
  authenticator_data = auth_data;
  signature_der = signature_der;
  user_handle = 0x01 ∷ 0x02 ∷ 0x03 ∷ 0x04 ∷ [];
}
