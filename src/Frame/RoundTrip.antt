-- ===== src/Frame/RoundTrip.antt =====
-- `FrameProtocol::DeserializeFrame` behind `SerializeFrame`.
use phonekey.Prelude.{
  ℕ, ◌+◌, ◌≤◌, ◌≡◌, refl, ◌∙◌, List, [], ◌∷◌, ◌++◌, append_assoc, some, arith, length,
  nil_of_length, ok, read_bytes, read_bytes-append, read, read-append_head, le→ltb,
}
use phonekey.Prelude.Words.{be32, length-be32}
use phonekey.Prelude.Reads.{read_u32, read_u32-append}
use phonekey.Frame.{
  check_frame, TransportFrame, FrameError, IsFrame, frame_magic, max_payload_size, message_value,
  serialize_frame, extract_frame, deserialize_frame_at, deserialize_frame,
}
use phonekey.Frame.Crc.{calculate_crc32, calculate_crc32-crc32, crc32, crc32-lt}
use phonekey.Frame.Layout.{
  header_to_flags, header, body, wire, message_of-value, length-header, length-body,
  serialize_frame-wire,
}

-- What the reads of a buffer return decides the whole function.
deserialize_of_reads :
    (bytes : List ℕ) (size : ℕ) (f : TransportFrame)
    → length f.payload ≤ max_payload_size
    → 18 + length f.payload ≤ size
    → read_u32 {E = FrameError} bytes 0 ≡ ok frame_magic
    → read_u32 {E = FrameError} bytes 4 ≡ ok (length f.payload)
    → read_u32 {E = FrameError} bytes (14 + length f.payload) ≡ ok f.checksum
    → calculate_crc32 {E = FrameError} (some bytes) (14 + length f.payload) ≡ ok f.checksum
    → extract_frame bytes frame_magic (length f.payload) f.checksum ≡ ok f
    → deserialize_frame_at bytes size ≡ ok f
unfolding deserialize_frame_at check_frame
deserialize_of_reads bytes size f fits room r1 r2 r3 r4 r5 = ground arith

extract_of_reads :
    (bytes : List ℕ) (f : TransportFrame)
    → f.magic ≡ frame_magic
    → f.payload_length ≡ length f.payload
    → read {E = FrameError} bytes 8 ≡ ok (message_value f.message_type)
    → read {E = FrameError} bytes 9 ≡ ok f.flags
    → read_u32 {E = FrameError} bytes 10 ≡ ok f.sequence_number
    → read_bytes {E = FrameError} bytes 14 (length f.payload) ≡ ok f.payload
    → extract_frame bytes frame_magic (length f.payload) f.checksum ≡ ok f
unfolding extract_frame
extract_of_reads bytes f hm hl r1 r2 r3 r4 =
    ground (arith, message_of-value f.message_type, nil_of_length f.payload)

-- What a receiver holds after a frame: the fields that the sender does not choose are filled in.
abbrev pub received : TransportFrame → TransportFrame
received f = record f {
  magic = frame_magic;
  payload_length = length f.payload;
  checksum = crc32 (body f);
}

module _ (f : TransportFrame) (v : IsFrame f) (rest : List ℕ) where
  abbrev pub after_header : List ℕ
  after_header = f.payload ++ (be32 (crc32 (body f)) ++ rest)

  pub bytes_from_left :
      wire f ++ rest
      ≡ be32 frame_magic
        ++ (be32 (length f.payload)
            ++ (message_value f.message_type ∷ f.flags ∷ (be32 f.sequence_number ++ after_header)))
  unfolding wire header
  bytes_from_left = simp append_assoc

  bytes_at_checksum : wire f ++ rest ≡ body f ++ (be32 (crc32 (body f)) ++ rest)
  unfolding wire
  bytes_at_checksum = simp append_assoc

  abbrev sent_length : ℕ
  sent_length = length f.payload

  read_checksum :
      read_u32 {E = FrameError} (wire f ++ rest) (14 + sent_length) ≡ ok (crc32 (body f))
  read_checksum =
      rw bytes_at_checksum
        (read_u32-append (body f) rest (14 + sent_length) _ (length-body f) (crc32-lt (body f)))

  computed_checksum :
      calculate_crc32 {E = FrameError} (some (wire f ++ rest)) (14 + sent_length)
      ≡ ok (crc32 (body f))
  computed_checksum =
      rw bytes_at_checksum (calculate_crc32-crc32 (body f) _ (14 + sent_length) (length-body f))

  extracted :
      extract_frame (wire f ++ rest) frame_magic sent_length (crc32 (body f)) ≡ ok (received f)
  extracted =
      let magic = be32 frame_magic in
      let len = be32 sent_length in
      let l2 : length (magic ++ len) ≡ 8 = unfold be32 in refl in
      let l3 : length (header_to_flags f) ≡ 9 = unfold be32 in refl in
      let l4 : length (header_to_flags f ++ (f.flags ∷ [])) ≡ 10 = unfold be32 in refl in
      let e2 : wire f ++ rest
          ≡ (magic ++ len)
            ++ (message_value f.message_type ∷ f.flags ∷ (be32 f.sequence_number ++ after_header)) =
        bytes_from_left ∙ simp append_assoc in
      let e3 : wire f ++ rest
          ≡ header_to_flags f ++ (f.flags ∷ (be32 f.sequence_number ++ after_header)) =
        bytes_from_left ∙ simp append_assoc in
      let e4 : wire f ++ rest
          ≡ (header_to_flags f ++ (f.flags ∷ [])) ++ (be32 f.sequence_number ++ after_header) =
        bytes_from_left ∙ simp append_assoc in
      let e5 : wire f ++ rest ≡ header f ++ after_header =
        unfold header in (bytes_from_left ∙ simp append_assoc) in
      extract_of_reads (wire f ++ rest) (received f) refl refl
        (rw e2 (read-append_head (magic ++ len) _ 8 _ l2))
        (rw e3 (read-append_head (header_to_flags f) _ 9 _ l3))
        (rw e4 (
          read_u32-append (header_to_flags f ++ (f.flags ∷ [])) after_header 10 _ l4
            v.sequence_fits))
        (rw e5 (read_bytes-append (header f) f.payload _ 14 sent_length (length-header f) refl))

-- DeserializeFrame gives back the frame that SerializeFrame wrote, with magic, length and checksum
-- filled in, at any size that covers the frame and whatever bytes follow it.
pub deserialize_frame-serialize_frame :
    (f : TransportFrame) (rest : List ℕ) (size : ℕ)
    → IsFrame f
    → length f.payload ≤ max_payload_size
    → 18 + length f.payload ≤ size
    → (bytes : List ℕ) × (serialize_frame f ≡ ok bytes)
      × (deserialize_frame (some (bytes ++ rest)) size ≡ ok (received f))
unfolding deserialize_frame
deserialize_frame-serialize_frame f rest size v fits room = (
  wire f,
  rw (serialize_frame-wire f, le→ltb _ _ fits) refl,
  deserialize_of_reads (wire f ++ rest) size (received f) fits room
      (rw (bytes_from_left f v rest) (read_u32-append [] _ 0 frame_magic refl (omega arith)))
      (rw (bytes_from_left f v rest) (
        read_u32-append (be32 frame_magic) _ 4 (length f.payload) (length-be32 frame_magic)
          (omega arith)))
      (read_checksum f v rest) (computed_checksum f v rest) (extracted f v rest),
)
