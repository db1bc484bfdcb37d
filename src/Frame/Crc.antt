-- ===== src/Frame/Crc.antt =====
-- `FrameProtocol::CalculateCrc32`: the reflected IEEE 802.3 polynomial, bit by bit.
use Prim.Native.Nat.{bit_and, bit_xor}
use phonekey.Prelude.{
  ℕ, zero, suc, ◌+◌, ◌-◌, ◌^◌, ◌<◌, ◌≤◌, ◌≡◌, refl, arith, not, List, [], ◌∷◌, ◌++◌, Option, none,
  some, ◌==◌, if◌then◌else◌, length, take, drop, Result, ok, ◌>>=◌, read, read-append_head,
  take-append-drop, length-take, append_assoc, length-append,
}
use phonekey.Prelude.Words.{u32, ◌>>>◌}

-- `for (int j = 0; j < 8; ++j)`, with `left` rounds to go
unfoldable pub crc_bits : ℕ → ℕ → ℕ
crc_bits zero crc = crc
crc_bits (suc left) crc =
    crc_bits left (if not (bit_and crc 1 == 0) then bit_xor (crc >>> 1) 0xEDB88320 else crc >>> 1)

-- One round of the outer loop.
unfoldable pub crc_byte : ℕ → ℕ → ℕ
unfolding crc_bits
crc_byte crc b = crc_bits 8 (bit_xor crc b)

-- `for (size_t i = 0; i < length; ++i)`, at index `i` with `left` rounds to go
unfoldable pub crc_loop : {E : Type 0} → ℕ → List ℕ → ℕ → ℕ → Result E ℕ
crc_loop zero bytes i crc = ok crc
crc_loop (suc left) bytes i crc = do b ← read bytes i; crc_loop left bytes (i + 1) (crc_byte crc b)

-- `~crc` on a uint32_t
abbrev complement : ℕ → ℕ
complement crc = 2 ^ 32 - 1 - u32 crc

-- `FrameProtocol::CalculateCrc32`. A null pointer is `none`.
unfoldable pub calculate_crc32 : {E : Type 0} → Option (List ℕ) → ℕ → Result E ℕ
unfolding crc_loop
calculate_crc32 none length = ok 0
calculate_crc32 (some bytes) length =
    if length == 0 then ok 0 else do crc ← crc_loop length bytes 0 0xFFFFFFFF; ok (complement crc)

-- The register after a run of bytes, and the checksum of a whole sequence.
unfoldable pub crc_register : ℕ → List ℕ → ℕ
crc_register crc [] = crc
crc_register crc (b ∷ bs) = crc_register (crc_byte crc b) bs

unfoldable pub crc32 : List ℕ → ℕ
unfolding crc_register crc_byte
crc32 bytes = if length bytes == 0 then 0 else complement (crc_register 0xFFFFFFFF bytes)

crc_loop-register :
    {E : Type 0} (body front back : List ℕ) (i left crc : ℕ)
    → length front ≡ i
    → length body ≡ left
    → crc_loop {E = E} left (front ++ (body ++ back)) i crc ≡ ok (crc_register crc body)
unfolding crc_loop crc_register
crc_loop-register [] front back i zero crc hi hl = refl
crc_loop-register [] front back i (suc left) crc hi hl = absurd (omega arith)
crc_loop-register (b ∷ bs) front back i zero crc hi hl = absurd (omega arith)
crc_loop-register {E} (b ∷ bs) front back i (suc left) crc hi hl =
    rw (read-append_head {E = E} front (bs ++ back) i b hi) (
      rw (← append_assoc front (b ∷ []) (bs ++ back)) (
        crc_loop-register bs (front ++ (b ∷ [])) back (i + 1) left (crc_byte crc b)
          (omega (arith, length-append {0} front (b ∷ []))) (omega arith)))

-- The checksum of the first bytes of a buffer is the checksum of those bytes alone.
pub calculate_crc32-crc32 :
    {E : Type 0} (body back : List ℕ) (n : ℕ)
    → length body ≡ n
    → calculate_crc32 {E = E} (some (body ++ back)) n ≡ ok (crc32 body)
unfolding calculate_crc32 crc32
calculate_crc32-crc32 {E} body back n h =
    ground (arith, crc_loop-register {E = E} body [] back 0 n 0xFFFFFFFF refl h)

-- The same for the bytes that stand in front of an offset.
pub calculate_crc32-take :
    {E : Type 0} (bytes : List ℕ) (n : ℕ)
    → n ≤ length bytes
    → calculate_crc32 {E = E} (some bytes) n ≡ ok (crc32 (take n bytes))
calculate_crc32-take {E} bytes n h =
    rw (take-append-drop n bytes) at
      (calculate_crc32-crc32 {E = E} (take n bytes) (drop n bytes) n (length-take n bytes h))

pub crc32-lt : (bytes : List ℕ) → crc32 bytes < 2 ^ 32
unfolding crc32
crc32-lt bytes = ground arith

-- The check value of the IEEE 802.3 CRC: the checksum of "123456789".
check_value : crc32 (b'1' ∷ b'2' ∷ b'3' ∷ b'4' ∷ b'5' ∷ b'6' ∷ b'7' ∷ b'8' ∷ b'9' ∷ []) ≡ 0xCBF43926
unfolding crc32
check_value = refl
