-- ===== src/Prelude/Reads.antt =====
-- Big-endian reads at an offset of a buffer.
use Prim.Native.Nat.{ℕ, zero, suc, ◌+◌, ◌*◌, ◌/◌, ◌^◌, ◌≤◌, ◌<◌, bit_or}
use mathlib.Core.Path.{◌≡◌, refl, ap, ◌∙◌}
use mathlib.Core.Logic.{◌≢◌}
use mathlib.Core.List.{List, [], ◌∷◌, ◌++◌, append_assoc}
use native.Mathlib.Omega.{arith}
use native.Mathlib.Nat.{div-le_self}
use phonekey.Prelude.Lists.{length, length-append}
use phonekey.Prelude.Results.{
  Result, ok, err, ◌>>=◌, >>=-ne-err, read-ne-err, read, read-append, read_total,
}
use phonekey.Prelude.Words.{
  u16, u32, u64, ◌<<◌, byte_at, byte_at_lem, byte_at-IsByte, be16, be32, be64, be_bytes, join16,
  join32, join64, be16-join, be32-join, next_byte,
}

module _ {E : Type 0} where
  -- `(data[i] << 8) | data[i + 1]`, as a uint16_t
  unfoldable pub read_u16 : List ℕ → ℕ → Result E ℕ
  read_u16 xs i = do a ← read xs i; b ← read xs (i + 1); ok (u16 (bit_or (a << 8) b))

  -- `(data[i] << 24) | (data[i + 1] << 16) | (data[i + 2] << 8) | data[i + 3]`, as a uint32_t
  unfoldable pub read_u32 : List ℕ → ℕ → Result E ℕ
  read_u32 xs i = do
    a ← read xs i
    b ← read xs (i + 1)
    c ← read xs (i + 2)
    d ← read xs (i + 3)
    ok (bit_or (bit_or (bit_or (u32 (a << 24)) (u32 (b << 16))) (u32 (c << 8))) d)

  -- `for (…) acc = (acc << 8) | data[i]`, with `left` rounds to go
  unfoldable pub read_u64_loop : ℕ → List ℕ → ℕ → ℕ → Result E ℕ
  read_u64_loop zero xs i acc = ok acc
  read_u64_loop (suc left) xs i acc = do
    b ← read xs i
    read_u64_loop left xs (i + 1) (bit_or (u64 (acc << 8)) b)

  unfoldable pub read_u64 : List ℕ → ℕ → Result E ℕ
  read_u64 xs i = read_u64_loop 8 xs i 0

module _ {E : Type 0} where
  pub read_u16-append :
      (front back : List ℕ) (n x : ℕ)
      → length front ≡ n
      → x < 2 ^ 16
      → read_u16 {E = E} (front ++ (be16 x ++ back)) n ≡ ok x
  unfolding read_u16 be16
  read_u16-append front back n x hf hx = ground (
    arith,
    read-append {E = E} front (be16 x ++ back) n 0 (byte_at x 8) hf refl,
    read-append {E = E} front (be16 x ++ back) n 1 (byte_at x 0) hf refl,
    join16 (byte_at x 8) (byte_at x 0) (byte_at-IsByte x 8) (byte_at-IsByte x 0),
    be16-join x hx,
  )

  pub read_u32-append :
      (front back : List ℕ) (n x : ℕ)
      → length front ≡ n
      → x < 2 ^ 32
      → read_u32 {E = E} (front ++ (be32 x ++ back)) n ≡ ok x
  unfolding read_u32 be32
  read_u32-append front back n x hf hx = ground (
    arith,
    read-append {E = E} front (be32 x ++ back) n 0 (byte_at x 24) hf refl,
    read-append {E = E} front (be32 x ++ back) n 1 (byte_at x 16) hf refl,
    read-append {E = E} front (be32 x ++ back) n 2 (byte_at x 8) hf refl,
    read-append {E = E} front (be32 x ++ back) n 3 (byte_at x 0) hf refl,
    join32 (byte_at x 24) (byte_at x 16) (byte_at x 8) (byte_at x 0) (byte_at-IsByte x 24)
        (byte_at-IsByte x 16) (byte_at-IsByte x 8) (byte_at-IsByte x 0),
    be32-join x hx,
  )

  -- One round of the loop reads one byte behind `front`.
  read_u64_loop-step :
      (left : ℕ) (front back : List ℕ) (n b acc : ℕ)
      → length front ≡ n
      → acc < 2 ^ 56
      → b < 256
      → read_u64_loop {E = E} (suc left) (front ++ (b ∷ back)) n acc
        ≡ read_u64_loop left ((front ++ (b ∷ [])) ++ back) (n + 1) (acc * 256 + b)
  unfolding read_u64_loop
  read_u64_loop-step left front back n b acc hf ha hb = ground (
    arith,
    read-append {E = E} front (b ∷ back) n 0 b hf refl,
    join64 acc b ha hb,
    append_assoc front (b ∷ []) back,
  )

  read_u64_loop-append :
      (left : ℕ) (front back : List ℕ) (n x : ℕ)
      → length front ≡ n
      → x < 2 ^ 64
      → read_u64_loop {E = E} left (front ++ (be_bytes left x ++ back)) n (x / 2 ^ (left * 8))
        ≡ ok x
  unfolding be_bytes
  read_u64_loop-append zero front back n x hf hx = unfold read_u64_loop in ap ok (omega arith)
  read_u64_loop-append (suc left) front back n x hf hx =
      let b = byte_at x (left * 8) in
      let fits : x / 2 ^ (suc left * 8) < 2 ^ 56 =
        omega (arith, next_byte left x, div-le_self x (2 ^ (left * 8))) in
      let e : x / 2 ^ (suc left * 8) * 256 + b ≡ x / 2 ^ (left * 8) =
        omega (arith, next_byte left x, byte_at_lem x (left * 8)) in
      read_u64_loop-step left front (be_bytes left x ++ back) n b _ hf fits
        (byte_at-IsByte x (left * 8))
      ∙ rw e (
          read_u64_loop-append left (front ++ (b ∷ [])) back (n + 1) x
            (omega (arith, length-append {0} front (b ∷ []))) hx)

  pub read_u64-append :
      (front back : List ℕ) (n x : ℕ)
      → length front ≡ n
      → x < 2 ^ 64
      → read_u64 {E = E} (front ++ (be64 x ++ back)) n ≡ ok x
  unfolding read_u64
  read_u64-append front back n x hf hx =
      let e : x / 2 ^ 64 ≡ 0 = omega arith in rw (← e) (read_u64_loop-append 8 front back n x hf hx)

  -- Reads inside the buffer succeed.
  pub read_u16_total :
      (xs : List ℕ) (i : ℕ) → i + 2 ≤ length xs → (x : ℕ) × (read_u16 {E = E} xs i ≡ ok x)
  unfolding read_u16
  read_u16_total xs i h =
      let (a, ea) = read_total {E = E} xs i (omega arith) in
      let (b, eb) = read_total {E = E} xs (i + 1) (omega arith) in
      (u16 (bit_or (a << 8) b), ground arith)

  pub read_u32_total :
      (xs : List ℕ) (i : ℕ) → i + 4 ≤ length xs → (x : ℕ) × (read_u32 {E = E} xs i ≡ ok x)
  unfolding read_u32
  read_u32_total xs i h =
      let (a, ea) = read_total {E = E} xs i (omega arith) in
      let (b, eb) = read_total {E = E} xs (i + 1) (omega arith) in
      let (c, ec) = read_total {E = E} xs (i + 2) (omega arith) in
      let (d, ed) = read_total {E = E} xs (i + 3) (omega arith) in
      (bit_or (bit_or (bit_or (u32 (a << 24)) (u32 (b << 16))) (u32 (c << 8))) d, ground arith)

  read_u64_loop_total :
      (left : ℕ) (xs : List ℕ) (i acc : ℕ)
      → i + left ≤ length xs
      → (x : ℕ) × (read_u64_loop {E = E} left xs i acc ≡ ok x)
  unfolding read_u64_loop
  read_u64_loop_total zero xs i acc h = (acc, refl)
  read_u64_loop_total (suc left) xs i acc h =
      let (b, eb) = read_total {E = E} xs i (omega arith) in
      let (x, ex) = read_u64_loop_total left xs (i + 1) (bit_or (u64 (acc << 8)) b) (omega arith) in
      (x, rw eb ex)

  pub read_u64_total :
      (xs : List ℕ) (i : ℕ) → i + 8 ≤ length xs → (x : ℕ) × (read_u64 {E = E} xs i ≡ ok x)
  unfolding read_u64
  read_u64_total xs i h = read_u64_loop_total 8 xs i 0 h

module _ {E : Type 0} where
  pub read_u16-ne-err : (xs : List ℕ) (i : ℕ) (e : E) → read_u16 {E = E} xs i ≢ err e
  unfolding read_u16
  read_u16-ne-err xs i e =
      >>=-ne-err _ _ e (read-ne-err xs i e)
        λ a. >>=-ne-err _ _ e (read-ne-err xs (i + 1) e) λ b p. cc

  read_u64_loop-ne-err :
      (left : ℕ) (xs : List ℕ) (i acc : ℕ) (e : E) → read_u64_loop {E = E} left xs i acc ≢ err e
  unfolding read_u64_loop
  read_u64_loop-ne-err zero xs i acc e = λ p. cc
  read_u64_loop-ne-err (suc left) xs i acc e =
      >>=-ne-err _ _ e (read-ne-err xs i e) λ b. read_u64_loop-ne-err left xs (i + 1) _ e

  pub read_u64-ne-err : (xs : List ℕ) (i : ℕ) (e : E) → read_u64 {E = E} xs i ≢ err e
  unfolding read_u64
  read_u64-ne-err xs i e = read_u64_loop-ne-err 8 xs i 0 e
