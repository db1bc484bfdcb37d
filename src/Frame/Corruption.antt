-- ===== src/Frame/Corruption.antt =====
-- A frame with one byte changed behind its length field does not pass `DeserializeFrame`.
use phonekey.Prelude.{
  ℕ, ◌+◌, ◌≤◌, ◌<◌, ◌≡◌, ◌≢◌, refl, sym, ap, ◌∙◌, List, [], ◌∷◌, ◌++◌, append_assoc, some, arith,
  length, length-append, take, drop, take-append_left, take-append, take-append-drop, All-append,
  All-of-append, ok, err,
}
use phonekey.Prelude.Words.{be32, length-be32, be32-AllBytes, AllBytes, IsByte}
use phonekey.Prelude.Reads.{read_u32, read_u32-append}
use phonekey.Frame.{
  TransportFrame, FrameError, IsFrame, frame_magic, max_payload_size, message_value, check_frame,
  TransportMessageType, pair_req, pair_resp, unlock_req, unlock_resp, error_msg,
  deserialize_frame_at, deserialize_frame, checksum_mismatch,
}
use phonekey.Frame.Crc.{calculate_crc32, calculate_crc32-crc32, crc32, crc32-lt}
use phonekey.Frame.Layout.{header, header_to_flags, body, length-body}
use phonekey.Frame.Detection.{crc32_detects_byte}

message_value-IsByte : (m : TransportMessageType) → message_value m < 256
unfolding message_value
message_value-IsByte pair_req = omega arith
message_value-IsByte pair_resp = omega arith
message_value-IsByte unlock_req = omega arith
message_value-IsByte unlock_resp = omega arith
message_value-IsByte error_msg = omega arith

pub header-AllBytes : (f : TransportFrame) → IsFrame f → AllBytes (header f)
unfolding header
header-AllBytes f v =
    All-append IsByte (header_to_flags f ++ (f.flags ∷ [])) _
      (All-append IsByte (header_to_flags f) (f.flags ∷ [])
        (All-append IsByte (be32 frame_magic ++ be32 (length f.payload)) _
          (All-append IsByte (be32 frame_magic) _ (be32-AllBytes frame_magic)
            (be32-AllBytes (length f.payload)))
          (message_value-IsByte f.message_type, tt))
        (v.flags_byte, tt))
      (be32-AllBytes f.sequence_number)

-- The first eight bytes hold the magic and the length.
front_of_body :
    (f : TransportFrame) (front tail : List ℕ)
    → body f ≡ front ++ tail
    → 8 ≤ length front
    → front ≡ (be32 frame_magic ++ be32 (length f.payload)) ++ drop 8 front
unfolding header
front_of_body f front tail e h =
    let eight = be32 frame_magic ++ be32 (length f.payload) in
    let more = ((message_value f.message_type ∷ f.flags ∷ be32 f.sequence_number) ++ f.payload) in
    let starts : body f ≡ eight ++ more = simp append_assoc in
    let first : take 8 front ≡ eight =
      sym (take-append_left 8 front tail h)
      ∙ ap (take 8) (sym e ∙ starts)
      ∙ take-append 8 eight more (unfold be32 in refl) in
    sym (take-append-drop 8 front) ∙ ap (λ xs. xs ++ drop 8 front) first

bad_checksum_of_reads :
    (bytes : List ℕ) (size n expected actual : ℕ)
    → n ≤ max_payload_size
    → 18 + n ≤ size
    → actual ≢ expected
    → read_u32 {E = FrameError} bytes 0 ≡ ok frame_magic
    → read_u32 {E = FrameError} bytes 4 ≡ ok n
    → read_u32 {E = FrameError} bytes (14 + n) ≡ ok expected
    → calculate_crc32 {E = FrameError} (some bytes) (14 + n) ≡ ok actual
    → deserialize_frame_at bytes size ≡ err checksum_mismatch
unfolding deserialize_frame_at check_frame
bad_checksum_of_reads bytes size n expected actual fits room ne r1 r2 r3 r4 = ground arith

-- A frame in which exactly one byte behind the length field was changed, in the header or in the
-- payload, is refused for its checksum, whatever follows it.
pub deserialize_frame_corrupted :
    (f : TransportFrame) (front back rest : List ℕ) (b c size : ℕ)
    → IsFrame f
    → AllBytes f.payload
    → length f.payload ≤ max_payload_size
    → body f ≡ front ++ (b ∷ back)
    → 8 ≤ length front
    → c < 256
    → c ≢ b
    → 18 + length f.payload ≤ size
    → deserialize_frame (some ((front ++ (c ∷ back)) ++ (be32 (crc32 (body f)) ++ rest))) size
      ≡ err checksum_mismatch
unfolding deserialize_frame
deserialize_frame_corrupted f front back rest b c size v bytes fits e h hc ne room =
    let changed = front ++ (c ∷ back) in
    let after = be32 (crc32 (body f)) ++ rest in
    let (hf, hbk) =
      All-of-append IsByte front (b ∷ back)
        (rw e at (All-append IsByte (header f) f.payload (header-AllBytes f v) bytes)) in
    let same_length : length changed ≡ 14 + length f.payload = omega (
      arith,
      length-append {0} front (c ∷ back),
      length-append {0} front (b ∷ back),
      length-body f,
      ap length e,
    ) in
    let front_eq = front_of_body f front (b ∷ back) e h in
    let differs : crc32 changed ≢ crc32 (body f) =
      λ p. crc32_detects_byte front back c b hf hbk.1 hc hbk.0 ne (p ∙ ap crc32 e) in
    let starts : changed ++ after
        ≡ be32 frame_magic ++ (be32 (length f.payload) ++ ((drop 8 front ++ (c ∷ back)) ++ after)) =
      ap (λ xs. (xs ++ (c ∷ back)) ++ after) front_eq ∙ simp append_assoc in
    bad_checksum_of_reads (changed ++ after) size (length f.payload) (crc32 (body f))
      (crc32 changed) fits room differs
      (rw starts (read_u32-append [] _ 0 frame_magic refl (omega arith)))
      (rw starts (
        read_u32-append (be32 frame_magic) _ 4 (length f.payload) (length-be32 frame_magic)
          (omega arith)))
      (read_u32-append changed rest (14 + length f.payload) _ same_length (crc32-lt (body f)))
      (calculate_crc32-crc32 changed after (14 + length f.payload) same_length)
