-- ===== src/Frame.antt =====
-- windows/common/TransportInterface.h and FrameProtocol.cpp: frames with a 14-byte header, a
-- payload and a CRC-32. `size_t` has 64 bits.
pub mod Crc
pub mod Layout
pub mod RoundTrip
pub mod Locality
pub mod Safety
pub mod Detection
pub mod Corruption
use Prim.Native.String.{String}
use phonekey.Prelude.{
  ℕ, ◌+◌, ◌-◌, ◌^◌, ◌<◌, ◌≤◌, ◌≡◌, Bool, not, List, [], ◌∷◌, Option, none, some, ◌==◌, ltb,
  if◌then◌else◌, length, replicate, set, Result, ok, err, fault, ◌>>=◌, ◌>>◌, fail_if, read,
  read_bytes,
}
use phonekey.Prelude.Words.{u8, u32}
use phonekey.Prelude.Reads.{read_u32}
use phonekey.Prelude.Writes.{memcpy, write_u32}
use Crc.{calculate_crc32}

-- "PKFR"
abbrev pub frame_magic : ℕ
frame_magic = 0x504B4652

abbrev pub max_payload_size : ℕ
max_payload_size = 65536

-- `std::numeric_limits<size_t>::max()`
abbrev pub size_max : ℕ
size_max = 2 ^ 64 - 1

pub data TransportMessageType : Type 0 where
  pair_req pair_resp unlock_req unlock_resp error_msg : TransportMessageType

unfoldable pub message_value : TransportMessageType → ℕ
message_value pair_req = 0x01
message_value pair_resp = 0x02
message_value unlock_req = 0x10
message_value unlock_resp = 0x11
message_value error_msg = 0xFF

pub record TransportFrame : Type 0 where
  pub magic : ℕ
  pub payload_length : ℕ
  pub message_type : TransportMessageType
  pub flags : ℕ
  pub sequence_number : ℕ
  pub payload : List ℕ
  pub checksum : ℕ

-- `TransportFrame::TransportFrame()`
abbrev pub new_frame : TransportFrame
new_frame = record {
  magic = frame_magic;
  payload_length = 0;
  message_type = unlock_req;
  flags = 0;
  sequence_number = 0;
  payload = [];
  checksum = 0;
}

pub data FrameError : Type 0 where
  null_buffer under_minimum invalid_magic payload_too_large size_overflow : FrameError
  incomplete_frame checksum_mismatch unknown_message_type : FrameError

-- The text that `outError` receives.
unfoldable pub error_text : FrameError → String
error_text null_buffer = "Null buffer pointer"
error_text under_minimum = "Frame buffer under 18 bytes minimum length"
error_text invalid_magic = "Invalid magic bytes"
error_text payload_too_large = "Payload size exceeds 64KB security limit"
error_text size_overflow = "Integer overflow in frame size computation"
error_text incomplete_frame =
    "Incomplete frame buffer: provided size less than calculated frame length"
error_text checksum_mismatch = "CRC32 checksum mismatch (Frame corrupted)"
error_text unknown_message_type = "Unknown message type identifier"

-- The writes before the checksum, and the offset that they end at.
unfoldable pub write_body : TransportFrame → List ℕ × ℕ
write_body f =
    let payload_len = u32 (length f.payload) in
    let total_len = 14 + payload_len + 4 in
    let buffer = replicate total_len 0 in
    let buffer1 = write_u32 0 frame_magic buffer in
    let buffer2 = write_u32 4 payload_len buffer1 in
    let buffer3 = set buffer2 8 (u8 (message_value f.message_type)) in
    let buffer4 = set buffer3 9 f.flags in
    let buffer5 = write_u32 10 f.sequence_number buffer4 in
    if ltb 0 payload_len
    then (memcpy 14 f.payload payload_len buffer5, 14 + payload_len)
    else (buffer5, 14)

-- `FrameProtocol::SerializeFrame`. An oversized payload gives an empty vector.
unfoldable pub serialize_frame : TransportFrame → Result FrameError (List ℕ)
serialize_frame f =
    if ltb max_payload_size (length f.payload)
    then ok []
    else let (buffer, offset) = write_body f in
      do
        checksum ← calculate_crc32 (some buffer) (14 + u32 (length f.payload))
        ok (write_u32 offset checksum buffer)

-- The comparisons with the enumerators, and the cast that follows them.
unfoldable pub message_of : ℕ → Result FrameError TransportMessageType
message_of raw =
    if raw == 0x01
    then ok pair_req
    else if raw == 0x02
    then ok pair_resp
    else if raw == 0x10
    then ok unlock_req
    else if raw == 0x11
    then ok unlock_resp
    else if raw == 0xFF
    then ok error_msg
    else err unknown_message_type

-- The extraction after the checksum has matched.
unfoldable pub extract_frame : List ℕ → ℕ → ℕ → ℕ → Result FrameError TransportFrame
extract_frame bytes magic payload_len checksum = do
  raw_message_type ← read bytes 8
  message_type ← message_of raw_message_type
  flags ← read bytes 9
  sequence_number ← read_u32 bytes 10
  payload ← if ltb 0 payload_len then read_bytes bytes 14 payload_len else ok []
  ok (record {
    magic = magic;
    payload_length = payload_len;
    message_type = message_type;
    flags = flags;
    sequence_number = sequence_number;
    payload = payload;
    checksum = checksum;
  })

-- The checks against the size of the buffer and against the checksum, and the extraction.
unfoldable pub check_frame : List ℕ → ℕ → ℕ → ℕ → Result FrameError TransportFrame
check_frame bytes size magic payload_len = do
  fail_if (ltb size (14 + payload_len + 4)) incomplete_frame
  expected_checksum ← read_u32 bytes (14 + payload_len)
  actual_checksum ← calculate_crc32 (some bytes) (14 + payload_len)
  fail_if (not (actual_checksum == expected_checksum)) checksum_mismatch
  extract_frame bytes magic payload_len actual_checksum

-- `FrameProtocol::DeserializeFrame` at a non-null pointer.
unfoldable pub deserialize_frame_at : List ℕ → ℕ → Result FrameError TransportFrame
deserialize_frame_at bytes size = do
  fail_if (ltb size 18) under_minimum
  magic ← read_u32 bytes 0
  fail_if (not (magic == frame_magic)) invalid_magic
  payload_len ← read_u32 bytes 4
  fail_if (ltb max_payload_size payload_len) payload_too_large
  fail_if (ltb (size_max - 18) payload_len) size_overflow
  check_frame bytes size magic payload_len

unfoldable pub deserialize_frame : Option (List ℕ) → ℕ → Result FrameError TransportFrame
unfolding deserialize_frame_at check_frame
deserialize_frame none size = err null_buffer
deserialize_frame (some bytes) size = deserialize_frame_at bytes size

-- What the field types of the struct guarantee.
pub record IsFrame (f : TransportFrame) : Type 0 where
  pub flags_byte : f.flags < 256
  pub sequence_fits : f.sequence_number < 2 ^ 32
