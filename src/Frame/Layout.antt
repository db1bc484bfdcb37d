-- ===== src/Frame/Layout.antt =====
-- `FrameProtocol::SerializeFrame` as a concatenation of fields.
use phonekey.Prelude.{
  ℕ, ◌+◌, ◌≤◌, ◌≡◌, refl, ap, ◌∙◌, List, [], ◌∷◌, ◌++◌, append-nil, arith, length, nil_of_length,
  ltb→le, length-append, replicate, ok, ltb, set, Bool-cases, inl, inr, if◌then◌else◌,
}
use phonekey.Prelude.Words.{u8, u32, be32, length-be32}
use phonekey.Prelude.Writes.{write_u32, memcpy-cursor, write_u32-cursor, write_u8-cursor}
use phonekey.Frame.{
  TransportFrame, FrameError, TransportMessageType, frame_magic, max_payload_size, message_value,
  message_of, pair_req, pair_resp, unlock_req, unlock_resp, error_msg, write_body, serialize_frame,
}
use phonekey.Frame.Crc.{calculate_crc32-crc32, crc32}

abbrev pub header_to_flags : TransportFrame → List ℕ
header_to_flags f =
    (be32 frame_magic ++ be32 (length f.payload)) ++ (message_value f.message_type ∷ [])

-- The header: magic, payload length, message type, flags and sequence number.
unfoldable pub header : TransportFrame → List ℕ
header f = (header_to_flags f ++ (f.flags ∷ [])) ++ be32 f.sequence_number

-- A frame on the wire.
abbrev pub body : TransportFrame → List ℕ
body f = header f ++ f.payload

unfoldable pub wire : TransportFrame → List ℕ
wire f = body f ++ be32 (crc32 (body f))

message_byte : (m : TransportMessageType) → u8 (message_value m) ≡ message_value m
unfolding message_value
message_byte pair_req = refl
message_byte pair_resp = refl
message_byte unlock_req = refl
message_byte unlock_resp = refl
message_byte error_msg = refl

pub message_of-value : (m : TransportMessageType) → message_of (message_value m) ≡ ok m
unfolding message_value message_of
message_of-value pair_req = refl
message_of-value pair_resp = refl
message_of-value unlock_req = refl
message_of-value unlock_resp = refl
message_of-value error_msg = refl

pub length-header : (f : TransportFrame) → length (header f) ≡ 14
unfolding header be32
length-header f = refl

pub length-body : (f : TransportFrame) → length (body f) ≡ 14 + length f.payload
length-body f = omega (arith, length-append {0} (header f) f.payload, length-header f)

pub length-wire : (f : TransportFrame) → length (wire f) ≡ 18 + length f.payload
unfolding wire
length-wire f = omega (
  arith,
  length-append {0} (body f) (be32 (crc32 (body f))),
  length-body f,
  length-be32 (crc32 (body f)),
)

-- The writes in front of the payload, on a zeroed buffer with room for `n` bytes more.
header_written :
    (f : TransportFrame) (n : ℕ)
    → write_u32 10 f.sequence_number (
        set
          (set
            (write_u32 4 (length f.payload) (write_u32 0 frame_magic (replicate (14 + n) 0)))
            8
            (message_value f.message_type))
          9
          f.flags)
      ≡ header f ++ replicate n 0
unfolding header
header_written f n =
    let magic = be32 frame_magic in
    let len = be32 (length f.payload) in
    let l1 : length magic ≡ 4 = length-be32 frame_magic in
    let l2 : length (magic ++ len) ≡ 8 =
      omega (arith, length-append {0} magic len, l1, length-be32 (length f.payload)) in
    let l3 : length (header_to_flags f) ≡ 9 =
      omega (arith, length-append {0} (magic ++ len) (message_value f.message_type ∷ []), l2) in
    let l4 : length (header_to_flags f ++ (f.flags ∷ [])) ≡ 10 =
      omega (arith, length-append {0} (header_to_flags f) (f.flags ∷ []), l3) in
    rw (
      write_u32-cursor [] 0 frame_magic (10 + n) (14 + n) refl (omega arith),
      write_u32-cursor magic 4 (length f.payload) (6 + n) (10 + n) l1 (omega arith),
      write_u8-cursor (magic ++ len) 8 (message_value f.message_type) (5 + n) (6 + n) l2
          (omega arith),
      write_u8-cursor (header_to_flags f) 9 f.flags (4 + n) (5 + n) l3 (omega arith),
      write_u32-cursor (header_to_flags f ++ (f.flags ∷ [])) 10 f.sequence_number n (4 + n) l4 refl,
    )

write_body-body :
    (f : TransportFrame)
    → length f.payload ≤ max_payload_size
    → write_body f ≡ (body f ++ replicate 4 0, 14 + length f.payload)
unfolding write_body
write_body-body f h =
    let n : ℕ = length f.payload in
    let same : u32 n ≡ n = omega arith in
    let total : 14 + n + 4 ≡ 14 + (n + 4) = omega arith in
    let byte = message_byte f.message_type in
    elim (Bool-cases (ltb 0 n)) [
      | inl some_bytes ↦ rw (
        same,
        total,
        byte,
        header_written f (n + 4),
        some_bytes,
        memcpy-cursor f.payload (header f) 14 n 4 (n + 4) (length-header f) refl refl,
      )
      | inr no_bytes ↦
          let none_left : n ≡ 0 = omega (arith, ltb→le 0 n no_bytes) in
          let e : f.payload ≡ [] = nil_of_length f.payload none_left in
          let four : n + 4 ≡ 4 = omega (arith, none_left) in
          let only : header f ++ f.payload ≡ header f =
            ap (◌++◌ (header f)) e ∙ append-nil (header f) in
          rw (same, total, byte, header_written f (n + 4), no_bytes, four, only)
            (ap (λ k. (header f ++ replicate 4 0, k)) (omega (arith, none_left)))
    ]

-- Serialize writes magic, length, type, flags, sequence number and payload, each at its offset, and
-- then the CRC-32 of all of them; an oversized payload gives an empty vector. The checksum is computed
-- inside the buffer.
pub serialize_frame-wire :
    (f : TransportFrame)
    → serialize_frame f ≡ (if ltb max_payload_size (length f.payload) then ok [] else ok (wire f))
unfolding serialize_frame wire
serialize_frame-wire f = elim (Bool-cases (ltb max_payload_size (length f.payload))) [
  | inl big ↦ rw big
  | inr fits ↦
      let h : length f.payload ≤ max_payload_size = ltb→le _ _ fits in
      let same : u32 (length f.payload) ≡ length f.payload = omega arith in
      rw
        (
          fits,
          write_body-body f h,
          same,
          calculate_crc32-crc32 {E = FrameError} (body f) (replicate 4 0) (14 + length f.payload)
              (length-body f),
          write_u32-cursor (body f) (14 + length f.payload) (crc32 (body f)) 0 4 (length-body f)
              refl,
        )
        (ap ok (append-nil (wire f)))
]
