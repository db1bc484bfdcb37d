-- ===== src/Protocol/RoundTrip.antt =====
-- `AuthPayload::Serialize` as a concatenation of fields, and `AuthPayload::Deserialize` behind it.
use phonekey.Prelude.{
  ℕ, ◌≡◌, refl, ap, ◌∙◌, List, [], ◌++◌, append_assoc, append-nil, some, arith, length,
  length-append, same_bytes_refl, ok, read_bytes, read_bytes-append,
}
use phonekey.Prelude.Words.{be16, be64, length-be16, length-be_bytes}
use phonekey.Prelude.Reads.{read_u16, read_u64, read_u16-append, read_u64-append}
use phonekey.Prelude.Writes.{memcpy-cursor, write_u16-cursor, write_loop-cursor}
use phonekey.Protocol.{
  AuthPayload, IsPayload, ErrorCode, serialize, deserialize, deserialize_at, domain_prefix,
  current_protocol_version, algorithm_ecdsa_p256_sha256,
}

-- The fields in the order of the wire format.
abbrev pub layout : AuthPayload → List ℕ
layout p =
    p.domain
    ++ (be16 p.protocol_version
        ++ (be16 p.algorithm_id
            ++ (p.device_id
                ++ (p.session_id ++ (p.pc_id ++ (p.challenge ++ be64 p.expiration_timestamp_ms))))))

-- The same, bracketed to the left as the writes build it.
abbrev prefix2 : AuthPayload → List ℕ
prefix2 p = p.domain ++ be16 p.protocol_version

abbrev prefix3 : AuthPayload → List ℕ
prefix3 p = prefix2 p ++ be16 p.algorithm_id

abbrev prefix4 : AuthPayload → List ℕ
prefix4 p = prefix3 p ++ p.device_id

abbrev prefix5 : AuthPayload → List ℕ
prefix5 p = prefix4 p ++ p.session_id

abbrev prefix6 : AuthPayload → List ℕ
prefix6 p = prefix5 p ++ p.pc_id

abbrev prefix7 : AuthPayload → List ℕ
prefix7 p = prefix6 p ++ p.challenge

module _ (p : AuthPayload) (v : IsPayload p) where
  length-prefix2 : length (prefix2 p) ≡ 18
  length-prefix2 = omega (
    arith,
    v.domain_length,
    length-append {0} p.domain (be16 p.protocol_version),
    length-be16 p.protocol_version,
  )

  length-prefix3 : length (prefix3 p) ≡ 20
  length-prefix3 = omega (
    arith,
    length-prefix2,
    length-append {0} (prefix2 p) (be16 p.algorithm_id),
    length-be16 p.algorithm_id,
  )

  length-prefix4 : length (prefix4 p) ≡ 36
  length-prefix4 =
      omega (arith, v.device_length, length-prefix3, length-append {0} (prefix3 p) p.device_id)

  length-prefix5 : length (prefix5 p) ≡ 52
  length-prefix5 =
      omega (arith, v.session_length, length-prefix4, length-append {0} (prefix4 p) p.session_id)

  length-prefix6 : length (prefix6 p) ≡ 68
  length-prefix6 = omega (arith, v.pc_length, length-prefix5, length-append {0} (prefix5 p) p.pc_id)

  length-prefix7 : length (prefix7 p) ≡ 100
  length-prefix7 =
      omega (arith, v.challenge_length, length-prefix6, length-append {0} (prefix6 p) p.challenge)

-- Serialize writes the fields one after the other, in the order and the widths of the wire format:
-- no byte is skipped or overwritten.
pub serialize-layout : (p : AuthPayload) → IsPayload p → serialize p ≡ layout p
unfolding serialize
serialize-layout p v =
    rw
      (
        memcpy-cursor p.domain [] 0 16 92 108 refl v.domain_length refl,
        write_u16-cursor p.domain 16 p.protocol_version 90 92 v.domain_length refl,
        write_u16-cursor (prefix2 p) 18 p.algorithm_id 88 90 (length-prefix2 p v) refl,
        memcpy-cursor p.device_id (prefix3 p) 20 16 72 88 (length-prefix3 p v) v.device_length refl,
        memcpy-cursor p.session_id (prefix4 p) 36 16 56 72 (length-prefix4 p v) v.session_length
            refl,
        memcpy-cursor p.pc_id (prefix5 p) 52 16 40 56 (length-prefix5 p v) v.pc_length refl,
        memcpy-cursor p.challenge (prefix6 p) 68 32 8 40 (length-prefix6 p v) v.challenge_length
            refl,
        write_loop-cursor (prefix7 p) 100 p.expiration_timestamp_ms 0 8 (length-prefix7 p v) 8 refl,
      )
      (append-nil _ ∙ simp append_assoc)

-- Whatever stands behind the payload, each read finds its field.
module _ (p : AuthPayload) (v : IsPayload p) (rest : List ℕ) where
  abbrev wire : List ℕ
  wire = layout p ++ rest

  abbrev after7 : List ℕ
  after7 = be64 p.expiration_timestamp_ms ++ rest

  abbrev after6 : List ℕ
  after6 = p.challenge ++ after7

  abbrev after5 : List ℕ
  after5 = p.pc_id ++ after6

  abbrev after4 : List ℕ
  after4 = p.session_id ++ after5

  abbrev after3 : List ℕ
  after3 = p.device_id ++ after4

  abbrev after2 : List ℕ
  after2 = be16 p.algorithm_id ++ after3

  wire_from_left : wire ≡ p.domain ++ (be16 p.protocol_version ++ after2)
  wire_from_left = simp append_assoc

  read_domain : read_bytes {E = ErrorCode} wire 0 16 ≡ ok p.domain
  read_domain = rw wire_from_left (read_bytes-append [] p.domain _ 0 16 refl v.domain_length)

  read_version : read_u16 {E = ErrorCode} wire 16 ≡ ok p.protocol_version
  read_version =
      rw wire_from_left (read_u16-append p.domain after2 16 _ v.domain_length v.version_fits)

  read_algorithm : read_u16 {E = ErrorCode} wire 18 ≡ ok p.algorithm_id
  read_algorithm =
      rw (wire_from_left, ← append_assoc p.domain (be16 p.protocol_version) after2)
        (read_u16-append (prefix2 p) after3 18 _ (length-prefix2 p v) v.algorithm_fits)

  read_device : read_bytes {E = ErrorCode} wire 20 16 ≡ ok p.device_id
  read_device =
      let e : wire ≡ prefix3 p ++ (p.device_id ++ after4) = simp append_assoc in
      rw e (read_bytes-append (prefix3 p) _ after4 20 16 (length-prefix3 p v) v.device_length)

  read_session : read_bytes {E = ErrorCode} wire 36 16 ≡ ok p.session_id
  read_session =
      let e : wire ≡ prefix4 p ++ (p.session_id ++ after5) = simp append_assoc in
      rw e (read_bytes-append (prefix4 p) _ after5 36 16 (length-prefix4 p v) v.session_length)

  read_pc : read_bytes {E = ErrorCode} wire 52 16 ≡ ok p.pc_id
  read_pc =
      let e : wire ≡ prefix5 p ++ (p.pc_id ++ after6) = simp append_assoc in
      rw e (read_bytes-append (prefix5 p) _ after6 52 16 (length-prefix5 p v) v.pc_length)

  read_challenge : read_bytes {E = ErrorCode} wire 68 32 ≡ ok p.challenge
  read_challenge =
      let e : wire ≡ prefix6 p ++ (p.challenge ++ after7) = simp append_assoc in
      rw e (read_bytes-append (prefix6 p) _ after7 68 32 (length-prefix6 p v) v.challenge_length)

  read_expiration : read_u64 {E = ErrorCode} wire 100 ≡ ok p.expiration_timestamp_ms
  read_expiration =
      let e : wire ≡ prefix7 p ++ after7 = simp append_assoc in
      rw e (read_u64-append (prefix7 p) rest 100 _ (length-prefix7 p v) v.expiration_fits)

-- What the reads of a buffer return decides the whole function.
deserialize_of_reads :
    (bytes : List ℕ) (p : AuthPayload)
    → read_bytes {E = ErrorCode} bytes 0 16 ≡ ok p.domain
    → read_u16 {E = ErrorCode} bytes 16 ≡ ok p.protocol_version
    → read_u16 {E = ErrorCode} bytes 18 ≡ ok p.algorithm_id
    → read_bytes {E = ErrorCode} bytes 20 16 ≡ ok p.device_id
    → read_bytes {E = ErrorCode} bytes 36 16 ≡ ok p.session_id
    → read_bytes {E = ErrorCode} bytes 52 16 ≡ ok p.pc_id
    → read_bytes {E = ErrorCode} bytes 68 32 ≡ ok p.challenge
    → read_u64 {E = ErrorCode} bytes 100 ≡ ok p.expiration_timestamp_ms
    → p.domain ≡ domain_prefix
    → p.protocol_version ≡ current_protocol_version
    → p.algorithm_id ≡ algorithm_ecdsa_p256_sha256
    → deserialize_at bytes 108 ≡ ok p
unfolding deserialize_at
deserialize_of_reads bytes p r1 r2 r3 r4 r5 r6 r7 r8 hd hv ha =
    ground (arith, same_bytes_refl p.domain)

-- Deserialize gives back the payload that Serialize wrote, if it carries the domain prefix, the
-- current version and the ECDSA algorithm, and whatever bytes follow the 108 in the buffer.
pub deserialize-serialize :
    (p : AuthPayload) (rest : List ℕ)
    → IsPayload p
    → p.domain ≡ domain_prefix
    → p.protocol_version ≡ current_protocol_version
    → p.algorithm_id ≡ algorithm_ecdsa_p256_sha256
    → deserialize (some (serialize p ++ rest)) 108 ≡ ok p
unfolding deserialize
deserialize-serialize p rest v hd hv ha = rw (serialize-layout p v) (
    deserialize_of_reads (layout p ++ rest) p (read_domain p v rest) (read_version p v rest)
      (read_algorithm p v rest) (read_device p v rest) (read_session p v rest) (read_pc p v rest)
      (read_challenge p v rest) (read_expiration p v rest) hd hv ha)

layout-prefix7 :
    (p : AuthPayload) → length (layout p) ≡ length (prefix7 p ++ be64 p.expiration_timestamp_ms)
layout-prefix7 p = ap length (simp append_assoc)

pub length-serialize : (p : AuthPayload) → IsPayload p → length (serialize p) ≡ 108
length-serialize p v = rw (serialize-layout p v) (
    omega (
      arith,
      length-prefix7 p v,
      length-append {0} (prefix7 p) (be64 p.expiration_timestamp_ms),
      length-be_bytes 8 p.expiration_timestamp_ms,
      layout-prefix7 p,
    ))
