-- ===== src/Examples/Wire.antt =====
-- Examples for the payload and for frames.
use phonekey.Prelude.{
  read, read_bytes, ℕ, ◌≡◌, ◌≢◌, refl, arith, List, [], ◌∷◌, ◌++◌, some, none, ok, err, fault,
}
use phonekey.Prelude.Words.{be32, byte_at}
use phonekey.Prelude.Reads.{read_u32}
use phonekey.Protocol.{IsPayload, serialize, deserialize}
use phonekey.Protocol.RoundTrip.{deserialize-serialize}
use phonekey.Protocol.Rejection.{deserialize_safe}
use phonekey.Frame.{
  TransportFrame, IsFrame, new_frame, serialize_frame, deserialize_frame, checksum_mismatch,
  error_msg, message_value, extract_frame, message_of,
}
use phonekey.Frame.Crc.{crc32, calculate_crc32, crc_byte}
use phonekey.Frame.Layout.{length-header, header, body, wire}
use phonekey.Frame.RoundTrip.{received, deserialize_frame-serialize_frame}
use phonekey.Frame.Safety.{deserialize_frame_safe}
use phonekey.Frame.Detection.{crc32_detects_byte}
use phonekey.Frame.Corruption.{deserialize_frame_corrupted}
use phonekey.Examples.{payload}

pub payload-IsPayload : IsPayload payload
payload-IsPayload = record {
  domain_length = refl;
  version_fits = omega arith;
  algorithm_fits = omega arith;
  device_length = refl;
  session_length = refl;
  pc_length = refl;
  challenge_length = refl;
  expiration_fits = omega arith;
}

deserialize-serialize_example :
    deserialize (some (serialize payload ++ (1 ∷ 2 ∷ []))) 108 ≡ ok payload
deserialize-serialize_example =
    deserialize-serialize payload (1 ∷ 2 ∷ []) payload-IsPayload refl refl refl

deserialize_safe_example :
    (deserialize none 3 ≢ fault) × (deserialize (some (1 ∷ 2 ∷ 3 ∷ [])) 3 ≢ fault)
deserialize_safe_example = deserialize_safe (1 ∷ 2 ∷ 3 ∷ []) 3 (omega arith)

-- A frame with two bytes of payload.
abbrev small : TransportFrame
small = record new_frame { message_type = error_msg; sequence_number = 5; payload = 0 ∷ 8 ∷ [] }

small-IsFrame : IsFrame small
small-IsFrame = record { flags_byte = omega arith; sequence_fits = omega arith }

deserialize_frame-serialize_frame_example :
    (bytes : List ℕ) × (serialize_frame small ≡ ok bytes)
    × (deserialize_frame (some (bytes ++ (80 ∷ []))) 20 ≡ ok (received small))
deserialize_frame-serialize_frame_example =
    deserialize_frame-serialize_frame small (80 ∷ []) 20 small-IsFrame (omega arith) (omega arith)

deserialize_frame_safe_example :
    (deserialize_frame none 3 ≢ fault) × (deserialize_frame (some (1 ∷ 2 ∷ 3 ∷ [])) 3 ≢ fault)
deserialize_frame_safe_example = deserialize_frame_safe (1 ∷ 2 ∷ 3 ∷ []) 3 (omega arith)

small-received : deserialize_frame (some (wire small)) 20 ≡ ok (received small)
unfolding deserialize_frame wire read_u32 read header be32 byte_at calculate_crc32 crc_byte
    message_value crc32 extract_frame message_of read_bytes
small-received = refl

crc32_detects_byte_example : crc32 (1 ∷ 2 ∷ 3 ∷ []) ≢ crc32 (1 ∷ 7 ∷ 3 ∷ [])
crc32_detects_byte_example =
    crc32_detects_byte (1 ∷ []) (3 ∷ []) 2 7 (omega arith, tt) (omega arith, tt) (omega arith)
      (omega arith) (λ e. omega (arith, e))

deserialize_frame_corrupted_example :
    deserialize_frame
      (some ((header small ++ (4 ∷ 8 ∷ [])) ++ (be32 (crc32 (body small)) ++ [])))
      20
    ≡ err checksum_mismatch
deserialize_frame_corrupted_example =
    deserialize_frame_corrupted small (header small) (8 ∷ []) [] 0 4 20 small-IsFrame
      (omega arith, (omega arith, tt)) (omega arith) refl (omega (arith, length-header small))
      (omega arith) (λ e. omega (arith, e)) (omega arith)
