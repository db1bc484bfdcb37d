-- ===== src/Frame/Locality.antt =====
-- `FrameProtocol::DeserializeFrame` at the front of a longer buffer.
use phonekey.Prelude.{
  ℕ, zero, suc, ◌+◌, ◌≤◌, ◌<◌, ◌≡◌, refl, List, [], ◌∷◌, ◌++◌, some, arith, length, length-append,
  length-drop, take, drop, drop-append_left, take-append_left, get_elem?, read, read_bytes,
  read_bytes_total, Bool-cases, inl, inr, ltb, ltb→le,
}
use phonekey.Prelude.Reads.{read_u32, read_u32_total}
use phonekey.Frame.{FrameError, deserialize_frame, extract_frame, check_frame}
use phonekey.Frame.Crc.{calculate_crc32, calculate_crc32-take, crc32}

get_elem?-append_left :
    (xs ys : List ℕ) (i : ℕ) → i < length xs → get_elem? (xs ++ ys) i ≡ get_elem? xs i
get_elem?-append_left [] ys i h = absurd (omega arith)
get_elem?-append_left (x ∷ xs) ys zero h = refl
get_elem?-append_left (x ∷ xs) ys (suc i) h = get_elem?-append_left xs ys i (omega arith)

module _ (xs ys : List ℕ) where
  read_left : (i : ℕ) → i < length xs → read {E = FrameError} (xs ++ ys) i ≡ read xs i
  unfolding read
  read_left i h = rw (get_elem?-append_left xs ys i h)

  pub read_u32_left :
      (i : ℕ) → i + 4 ≤ length xs → read_u32 {E = FrameError} (xs ++ ys) i ≡ read_u32 xs i
  unfolding read_u32
  read_u32_left i h = rw (
    read_left i (omega arith),
    read_left (i + 1) (omega arith),
    read_left (i + 2) (omega arith),
    read_left (i + 3) (omega arith),
  )

  read_bytes_left :
      (i n : ℕ) → i + n ≤ length xs → read_bytes {E = FrameError} (xs ++ ys) i n ≡ read_bytes xs i n
  read_bytes_left i n h =
      let longer : length (xs ++ ys) ≡ length xs + length ys = length-append xs ys in
      let rest : n ≤ length (drop i xs) = omega (arith, length-drop i xs) in
      rw (
        read_bytes_total {E = FrameError} (xs ++ ys) i n (omega arith),
        read_bytes_total {E = FrameError} xs i n h,
        drop-append_left i xs ys (omega arith),
        take-append_left n (drop i xs) ys rest,
      )

  checksum_left :
      (n : ℕ)
      → n ≤ length xs
      → calculate_crc32 {E = FrameError} (some (xs ++ ys)) n ≡ calculate_crc32 (some xs) n
  checksum_left n h =
      let longer : length (xs ++ ys) ≡ length xs + length ys = length-append xs ys in
      rw (
        calculate_crc32-take {E = FrameError} (xs ++ ys) n (omega arith),
        calculate_crc32-take {E = FrameError} xs n h,
        take-append_left n xs ys h,
      )

  extract_left :
      (magic n checksum : ℕ)
      → 18 + n ≤ length xs
      → extract_frame (xs ++ ys) magic n checksum ≡ extract_frame xs magic n checksum
  unfolding extract_frame
  extract_left magic n checksum h = rw (
    read_left 8 (omega arith),
    read_left 9 (omega arith),
    read_u32_left 10 (omega arith),
    read_bytes_left 14 n (omega arith),
  )

  check_left :
      (size magic n : ℕ)
      → size ≤ length xs
      → check_frame (xs ++ ys) size magic n ≡ check_frame xs size magic n
  unfolding check_frame
  check_left size magic n h = elim (Bool-cases (ltb size (14 + n + 4))) [
    | inl cut ↦ rw cut
    | inr whole ↦
        let room : 14 + n + 4 ≤ size = ltb→le _ _ whole in
        let (expected, e) = read_u32_total {E = FrameError} xs (14 + n) (omega arith) in
        let sum = calculate_crc32-take {E = FrameError} xs (14 + n) (omega arith) in
        rw (
          whole,
          read_u32_left (14 + n) (omega arith),
          checksum_left (14 + n) (omega arith),
          e,
          sum,
          extract_left magic n (crc32 (take (14 + n) xs)) (omega arith),
        )
  ]

  -- What DeserializeFrame answers does not depend on the bytes behind the size that it is told.
  pub deserialize_frame_left :
      (size : ℕ)
      → size ≤ length xs
      → deserialize_frame (some (xs ++ ys)) size ≡ deserialize_frame (some xs) size
  unfolding deserialize_frame
  deserialize_frame_left size h = elim (Bool-cases (ltb size 18)) [
    | inl short ↦ rw short
    | inr enough ↦
        let room : 18 ≤ size = ltb→le _ _ enough in
        let (magic, e) = read_u32_total {E = FrameError} xs 0 (omega arith) in
        let (n, e') = read_u32_total {E = FrameError} xs 4 (omega arith) in
        rw (
          enough,
          read_u32_left 0 (omega arith),
          read_u32_left 4 (omega arith),
          e,
          e',
          check_left size magic n h,
        )
  ]
