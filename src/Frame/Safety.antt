-- ===== src/Frame/Safety.antt =====
-- `FrameProtocol::DeserializeFrame` on arbitrary bytes.
use phonekey.Prelude.{
  >>=-eq-ok, fail_if-eq-ok, not, ℕ, ◌+◌, ◌-◌, ◌≤◌, ◌≡◌, ◌≢◌, List, [], some, none, arith, length,
  take, drop, ok, fault, Result, ltb, ◌==◌, ltb→le, if◌then◌else◌, read_total, read_bytes,
  read_bytes_total, read_bytes-ok, >>=-ne-fault, fail_if-ne-fault, ok-ne-fault, err-ne-fault, ◌>>=◌,
  Bool-cases, inl, inr,
}
use phonekey.Prelude.Reads.{read_u32, read_u32_total}
use phonekey.Frame.{
  TransportFrame, FrameError, frame_magic, max_payload_size, message_of, deserialize_frame,
  extract_frame, check_frame, TransportMessageType, pair_req, pair_resp, unlock_req, unlock_resp,
  error_msg, payload_too_large, size_overflow, size_max,
}
use phonekey.Frame.Crc.{crc32, calculate_crc32-take}

message_of-ne-fault : (raw : ℕ) → message_of raw ≢ fault
unfolding message_of
message_of-ne-fault raw = λ e. ground arith

payload_read-ne-fault :
    (bytes : List ℕ) (n : ℕ)
    → 18 + n ≤ length bytes
    → (payload : List ℕ) × ((if ltb 0 n then read_bytes {E = FrameError} bytes 14 n else ok [])
        ≡ ok payload)
payload_read-ne-fault bytes n h = elim (Bool-cases (ltb 0 n)) [
  | inl more ↦ (take n (drop 14 bytes), rw more (read_bytes_total bytes 14 n (omega arith)))
  | inr nothing ↦ ([], rw nothing)
]

message_of-bind-ne-fault :
    (raw : ℕ) (k : TransportMessageType → Result FrameError TransportFrame)
    → ((m : TransportMessageType) → k m ≢ fault)
    → (message_of raw >>= k) ≢ fault
unfolding message_of
message_of-bind-ne-fault raw k h =
    λ e. ground (arith, h pair_req, h pair_resp, h unlock_req, h unlock_resp, h error_msg)

extract_frame-ne-fault :
    (bytes : List ℕ) (magic n checksum : ℕ)
    → 18 + n ≤ length bytes
    → extract_frame bytes magic n checksum ≢ fault
unfolding extract_frame
extract_frame-ne-fault bytes magic n checksum h =
    >>=-ne-fault _ _ (read_total bytes 8 (omega arith)) λ raw.
      message_of-bind-ne-fault raw _ λ message_type.
        >>=-ne-fault _ _ (read_total bytes 9 (omega arith)) λ flags.
          >>=-ne-fault _ _ (read_u32_total bytes 10 (omega arith)) λ sequence_number.
            >>=-ne-fault _ _ (payload_read-ne-fault bytes n h) λ payload. ok-ne-fault _

check_frame-ne-fault :
    (bytes : List ℕ) (size magic n : ℕ)
    → size ≤ length bytes
    → check_frame bytes size magic n ≢ fault
unfolding check_frame
check_frame-ne-fault bytes size magic n h = elim (Bool-cases (ltb size (14 + n + 4))) [
  | inl cut ↦ rw cut (err-ne-fault _)
  | inr whole ↦
      let room : 14 + n + 4 ≤ size = ltb→le _ _ whole in
      rw whole (
        >>=-ne-fault _ _ (read_u32_total bytes (14 + n) (omega arith)) λ expected.
          >>=-ne-fault _ _ (_, calculate_crc32-take bytes (14 + n) (omega arith))
            λ actual.
              fail_if-ne-fault _ _ _ (extract_frame-ne-fault bytes magic n actual (omega arith)))
]

-- DeserializeFrame never reads outside its buffer: neither at a null pointer, nor at a buffer of the
-- size that it is told, whatever length the header claims.
pub deserialize_frame_safe :
    (bytes : List ℕ) (size : ℕ)
    → size ≤ length bytes
    → (deserialize_frame none size ≢ fault) × (deserialize_frame (some bytes) size ≢ fault)
unfolding deserialize_frame
deserialize_frame_safe bytes size h = (
  err-ne-fault _,
  elim (Bool-cases (ltb size 18)) [
    | inl short ↦ rw short (err-ne-fault _)
    | inr enough ↦
        let room : 18 ≤ size = ltb→le _ _ enough in
        rw enough (
          >>=-ne-fault _ _ (read_u32_total bytes 0 (omega arith)) λ magic. fail_if-ne-fault _ _ _ (
            >>=-ne-fault _ _ (read_u32_total bytes 4 (omega arith)) λ n.
              fail_if-ne-fault (ltb max_payload_size n) payload_too_large _ (
                fail_if-ne-fault (ltb (size_max - 18) n) size_overflow _
                  (check_frame-ne-fault bytes size magic n h))))
  ],
)

extract_frame_accepts :
    (bytes : List ℕ) (magic n checksum : ℕ) (f : TransportFrame)
    → extract_frame bytes magic n checksum ≡ ok f
    → (f.magic ≡ magic)
      × (f.payload_length ≡ n)
      × (f.checksum ≡ checksum)
      × (length f.payload ≡ n)
      × (f.payload ≡ take n (drop 14 bytes))
unfolding extract_frame message_of
extract_frame_accepts bytes magic n checksum f e =
    ground (arith, read_bytes-ok {E = FrameError} bytes 14 n {ys = f.payload})

pub check_frame_accepts :
    (bytes : List ℕ) (size magic n : ℕ) (f : TransportFrame)
    → size ≤ length bytes
    → check_frame bytes size magic n ≡ ok f
    → (14 + n + 4 ≤ size) × (extract_frame bytes magic n (crc32 (take (14 + n) bytes)) ≡ ok f)
unfolding check_frame
check_frame_accepts bytes size magic n f h e =
    ground (arith, calculate_crc32-take {E = FrameError} bytes (14 + n))

-- Whatever DeserializeFrame accepts has the magic bytes, a payload of the length that its header
-- claims, at most 64 KB and inside the buffer, and the checksum of the bytes in front of it.
deserialize_frame_accepts :
    (bytes : List ℕ) (size : ℕ) (f : TransportFrame)
    → size ≤ length bytes
    → deserialize_frame (some bytes) size ≡ ok f
    → (f.magic ≡ frame_magic)
      × (f.payload_length ≡ length f.payload)
      × (length f.payload ≤ max_payload_size)
      × (18 + length f.payload ≤ size)
      × (f.payload ≡ take f.payload_length (drop 14 bytes))
      × (f.checksum ≡ crc32 (take (14 + f.payload_length) bytes))
unfolding deserialize_frame
deserialize_frame_accepts bytes size f h e =
    let (_, e1) = fail_if-eq-ok (ltb size 18) _ _ e in
    let (magic, _, e2) = >>=-eq-ok (read_u32 bytes 0) _ e1 in
    let (is_magic, e3) = fail_if-eq-ok (not (magic == frame_magic)) _ _ e2 in
    let (n, _, e4) = >>=-eq-ok (read_u32 bytes 4) _ e3 in
    let (small, e5) = fail_if-eq-ok (ltb max_payload_size n) _ _ e4 in
    let (_, e6) = fail_if-eq-ok (ltb (size_max - 18) n) _ _ e5 in
    let (whole, e7) = check_frame_accepts bytes size magic n f h e6 in
    ground (arith, extract_frame_accepts bytes magic n (crc32 (take (14 + n) bytes)) f e7)
