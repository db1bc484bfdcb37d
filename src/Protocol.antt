-- ===== src/Protocol.antt =====
-- windows/common/Protocol.h and Protocol.cpp: the error codes, and the 108-byte payload that the
-- phone signs. A `std::array<uint8_t, N>` is a list; `IsPayload` states the sizes that C++ types
-- guarantee.
pub mod RoundTrip
pub mod Rejection
use phonekey.Prelude.{
  ℕ, ◌+◌, ◌<◌, ◌≡◌, Bool, true, false, not, ◌||◌, List, [], ◌∷◌, ◌++◌, Option, none, some, ◌==◌,
  if◌then◌else◌, same_bytes, length, replicate, Result, ok, err, fault, ◌>>=◌, ◌>>◌, fail_if,
  read_bytes, ◌^◌,
}
use phonekey.Prelude.Words.{AllBytes}
use phonekey.Prelude.Reads.{read_u16, read_u64}
use phonekey.Prelude.Writes.{memcpy, write_u16, write_loop}

abbrev pub domain_size : ℕ
domain_size = 16

abbrev pub uuid_size : ℕ
uuid_size = 16

abbrev pub challenge_size : ℕ
challenge_size = 32

abbrev pub canonical_payload_size : ℕ
canonical_payload_size = 108

-- "PhoneKey-Auth-v1"
abbrev pub domain_prefix : List ℕ
domain_prefix =
    b'P' ∷ b'h' ∷ b'o' ∷ b'n' ∷ b'e' ∷ b'K' ∷ b'e' ∷ b'y' ∷ b'-' ∷ b'A' ∷ b'u' ∷ b't' ∷ b'h' ∷ b'-'
    ∷ b'v' ∷ b'1' ∷ []

abbrev pub current_protocol_version : ℕ
current_protocol_version = 0x0100

abbrev pub algorithm_ecdsa_p256_sha256 : ℕ
algorithm_ecdsa_p256_sha256 = 0x0001

abbrev pub default_challenge_ttl_ms : ℕ
default_challenge_ttl_ms = 30000

pub data ErrorCode : Type 0 where
  success invalid_request invalid_protocol_version invalid_algorithm : ErrorCode
  unknown_device invalid_signature challenge_not_found challenge_expired : ErrorCode
  challenge_already_consumed session_mismatch device_mismatch pc_mismatch : ErrorCode
  malformed_signature crypto_error biometric_required biometric_failed key_invalidated : ErrorCode

-- The numbers that the enumeration gives its members.
unfoldable pub error_value : ErrorCode → ℕ
error_value success = 0x0000
error_value invalid_request = 0x0001
error_value invalid_protocol_version = 0x0002
error_value invalid_algorithm = 0x0003
error_value unknown_device = 0x0004
error_value invalid_signature = 0x0005
error_value challenge_not_found = 0x0006
error_value challenge_expired = 0x0007
error_value challenge_already_consumed = 0x0008
error_value session_mismatch = 0x0009
error_value device_mismatch = 0x000A
error_value pc_mismatch = 0x000B
error_value malformed_signature = 0x000C
error_value crypto_error = 0x000D
error_value biometric_required = 0x000E
error_value biometric_failed = 0x000F
error_value key_invalidated = 0x0010

pub record AuthPayload : Type 0 where
  pub domain : List ℕ
  pub protocol_version : ℕ
  pub algorithm_id : ℕ
  pub device_id : List ℕ
  pub session_id : List ℕ
  pub pc_id : List ℕ
  pub challenge : List ℕ
  pub expiration_timestamp_ms : ℕ

-- What the field types of the struct guarantee.
pub record IsPayload (p : AuthPayload) : Type 0 where
  pub domain_length : length p.domain ≡ domain_size
  pub version_fits : p.protocol_version < 2 ^ 16
  pub algorithm_fits : p.algorithm_id < 2 ^ 16
  pub device_length : length p.device_id ≡ uuid_size
  pub session_length : length p.session_id ≡ uuid_size
  pub pc_length : length p.pc_id ≡ uuid_size
  pub challenge_length : length p.challenge ≡ challenge_size
  pub expiration_fits : p.expiration_timestamp_ms < 2 ^ 64

-- `AuthPayload::AuthPayload()`
unfoldable pub new_payload : AuthPayload
new_payload = record {
  domain = domain_prefix;
  protocol_version = current_protocol_version;
  algorithm_id = algorithm_ecdsa_p256_sha256;
  device_id = replicate uuid_size 0;
  session_id = replicate uuid_size 0;
  pc_id = replicate uuid_size 0;
  challenge = replicate challenge_size 0;
  expiration_timestamp_ms = 0;
}

-- `AuthPayload::Serialize`: writes at a moving offset of a zeroed buffer.
unfoldable pub serialize : AuthPayload → List ℕ
serialize p =
    let buffer = replicate canonical_payload_size 0 in
    let buffer1 = memcpy 0 p.domain domain_size buffer in
    let buffer2 = write_u16 16 p.protocol_version buffer1 in
    let buffer3 = write_u16 18 p.algorithm_id buffer2 in
    let buffer4 = memcpy 20 p.device_id uuid_size buffer3 in
    let buffer5 = memcpy 36 p.session_id uuid_size buffer4 in
    let buffer6 = memcpy 52 p.pc_id uuid_size buffer5 in
    let buffer7 = memcpy 68 p.challenge challenge_size buffer6 in
    write_loop 8 100 p.expiration_timestamp_ms buffer7

-- `AuthPayload::Deserialize` at a non-null pointer; the offsets are the running sums of the sizes.
unfoldable pub deserialize_at : List ℕ → ℕ → Result ErrorCode AuthPayload
deserialize_at bytes size = do
  fail_if (not (size == canonical_payload_size)) invalid_request
  domain ← read_bytes bytes 0 domain_size
  fail_if (not (same_bytes domain domain_prefix)) invalid_request
  version ← read_u16 bytes 16
  fail_if (not (version == current_protocol_version)) invalid_protocol_version
  algorithm ← read_u16 bytes 18
  fail_if (not (algorithm == algorithm_ecdsa_p256_sha256)) invalid_algorithm
  device_id ← read_bytes bytes 20 uuid_size
  session_id ← read_bytes bytes 36 uuid_size
  pc_id ← read_bytes bytes 52 uuid_size
  challenge ← read_bytes bytes 68 challenge_size
  expiration ← read_u64 bytes 100
  ok (record {
    domain = domain;
    protocol_version = version;
    algorithm_id = algorithm;
    device_id = device_id;
    session_id = session_id;
    pc_id = pc_id;
    challenge = challenge;
    expiration_timestamp_ms = expiration;
  })

-- A null pointer is `none`. The payload and the error code that C++ returns through references
-- are the two kinds of result.
unfoldable pub deserialize : Option (List ℕ) → ℕ → Result ErrorCode AuthPayload
unfolding deserialize_at
deserialize none size = err invalid_request
deserialize (some bytes) size = deserialize_at bytes size
