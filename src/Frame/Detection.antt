-- ===== src/Frame/Detection.antt =====
-- What the CRC-32 detects: the register is a bijective function of the register before, and of the
-- byte that is taken in, so one changed byte always changes the checksum.
use Prim.Native.Nat.{bit_and, bit_xor}
use phonekey.Prelude.{
  ℕ, zero, suc, ◌-◌, ◌/◌, ◌%◌, ◌^◌, ◌<◌, ◌≤◌, ◌≡◌, refl, sym, ap, ◌∙◌, ◌≢◌, arith, List, [], ◌∷◌,
  ◌++◌, Bool-cases, inl, inr, ◌⊎◌, length-append, not, ◌==◌, if◌then◌else◌,
}
use phonekey.Prelude.Bits.{bit_and_one}
use phonekey.Prelude.Xor.{xor_cancel_left, xor_cancel_right, xor-shift, xor-fits}
use phonekey.Prelude.Words.{◌>>>◌, AllBytes}
use phonekey.Frame.Crc.{crc_bits, crc_byte, crc_register, crc32}

-- One round of the inner loop.
shift_one : ℕ → ℕ
shift_one crc = if not (bit_and crc 1 == 0) then bit_xor (crc >>> 1) 0xEDB88320 else crc >>> 1

shift_one_even : (x : ℕ) → x % 2 ≡ 0 → shift_one x ≡ x / 2
unfolding shift_one
shift_one_even x h = ground (arith, bit_and_one x)

shift_one_odd : (x : ℕ) → x % 2 ≡ 1 → shift_one x ≡ bit_xor (x / 2) 0xEDB88320
unfolding shift_one
shift_one_odd x h = ground (arith, bit_and_one x)

-- The polynomial sets the top bit, which a shifted register lacks.
top_bit : (y : ℕ) → y < 2 ^ 31 → 2 ^ 31 ≤ bit_xor y 0xEDB88320
top_bit y h =
    let e : y / 2 ^ 31 ≡ 0 = omega arith in
    let top : bit_xor y 0xEDB88320 / 2 ^ 31 ≡ 1 =
      xor-shift 31 y 0xEDB88320 ∙ ap (λ (t : ℕ). bit_xor t 1) e in
    omega (arith, top)

parity : (x : ℕ) → (x % 2 ≡ 0) ⊎ (x % 2 ≡ 1)
parity x = elim (Bool-cases (x % 2 == 0)) [
  | inl e ↦ inl (ground arith)
  | inr e ↦ inr (ground arith)
]

shift_one-fits : (x : ℕ) → x < 2 ^ 32 → shift_one x < 2 ^ 32
shift_one-fits x h = elim (parity x) [
  | inl even ↦ omega (arith, shift_one_even x even)
  | inr odd ↦
      omega (arith, shift_one_odd x odd, xor-fits (x / 2) 0xEDB88320 (omega arith) (omega arith))
]

shift_one_injective : (x y : ℕ) → x < 2 ^ 32 → y < 2 ^ 32 → shift_one x ≡ shift_one y → x ≡ y
shift_one_injective x y hx hy e = elim (parity x) [
  | inl ex ↦ elim (parity y) [
    | inl ey ↦ omega (arith, shift_one_even x ex, shift_one_even y ey)
    | inr oy ↦
        absurd
          (omega (arith, shift_one_even x ex, shift_one_odd y oy, top_bit (y / 2) (omega arith)))
  ]
  | inr ox ↦ elim (parity y) [
    | inl ey ↦
        absurd
          (omega (arith, shift_one_odd x ox, shift_one_even y ey, top_bit (x / 2) (omega arith)))
    | inr oy ↦
        let half : x / 2 ≡ y / 2 =
          xor_cancel_right (x / 2) (y / 2) 0xEDB88320
            (sym (shift_one_odd x ox) ∙ e ∙ shift_one_odd y oy) in
        omega (arith, half)
  ]
]

crc_bits-fits : (n x : ℕ) → x < 2 ^ 32 → crc_bits n x < 2 ^ 32
unfolding crc_bits shift_one
crc_bits-fits zero x h = h
crc_bits-fits (suc n) x h = crc_bits-fits n (shift_one x) (shift_one-fits x h)

crc_bits_injective : (n x y : ℕ) → x < 2 ^ 32 → y < 2 ^ 32 → crc_bits n x ≡ crc_bits n y → x ≡ y
unfolding crc_bits shift_one
crc_bits_injective zero x y hx hy e = e
crc_bits_injective (suc n) x y hx hy e =
    shift_one_injective x y hx hy (
      crc_bits_injective n (shift_one x) (shift_one y) (shift_one-fits x hx) (shift_one-fits y hy)
        e)

crc_byte-fits : (x b : ℕ) → x < 2 ^ 32 → b < 256 → crc_byte x b < 2 ^ 32
unfolding crc_byte
crc_byte-fits x b hx hb = crc_bits-fits 8 (bit_xor x b) (xor-fits x b hx (omega arith))

-- In the register before,
crc_byte_injective :
    (x y b : ℕ) → x < 2 ^ 32 → y < 2 ^ 32 → b < 256 → crc_byte x b ≡ crc_byte y b → x ≡ y
unfolding crc_byte
crc_byte_injective x y b hx hy hb e =
    xor_cancel_right x y b
      (crc_bits_injective 8 _ _ (xor-fits x b hx (omega arith)) (xor-fits y b hy (omega arith)) e)

-- and in the byte.
crc_byte_injective_byte :
    (x b c : ℕ) → x < 2 ^ 32 → b < 256 → c < 256 → crc_byte x b ≡ crc_byte x c → b ≡ c
unfolding crc_byte
crc_byte_injective_byte x b c hx hb hc e =
    xor_cancel_left x b c
      (crc_bits_injective 8 _ _ (xor-fits x b hx (omega arith)) (xor-fits x c hx (omega arith)) e)

crc_register-fits : (x : ℕ) (bs : List ℕ) → x < 2 ^ 32 → AllBytes bs → crc_register x bs < 2 ^ 32
unfolding crc_register
crc_register-fits x [] h bytes = h
crc_register-fits x (b ∷ bs) h bytes =
    crc_register-fits (crc_byte x b) bs (crc_byte-fits x b h bytes.0) bytes.1

crc_register_injective :
    (bs : List ℕ) (x y : ℕ)
    → x < 2 ^ 32
    → y < 2 ^ 32
    → AllBytes bs
    → crc_register x bs ≡ crc_register y bs
    → x ≡ y
unfolding crc_register
crc_register_injective [] x y hx hy bytes e = e
crc_register_injective (b ∷ bs) x y hx hy bytes e = crc_byte_injective x y b hx hy bytes.0 (
    crc_register_injective bs (crc_byte x b) (crc_byte y b) (crc_byte-fits x b hx bytes.0)
      (crc_byte-fits y b hy bytes.0) bytes.1 e)

crc_register-append :
    (xs ys : List ℕ) (x : ℕ) → crc_register x (xs ++ ys) ≡ crc_register (crc_register x xs) ys
unfolding crc_register
crc_register-append [] ys x = refl
crc_register-append (b ∷ xs) ys x = crc_register-append xs ys (crc_byte x b)

crc32_nonempty :
    (front back : List ℕ) (b : ℕ)
    → crc32 (front ++ (b ∷ back))
      ≡ 2 ^ 32 - 1 - crc_register 0xFFFFFFFF (front ++ (b ∷ back)) % 2 ^ 32
unfolding crc32
crc32_nonempty front back b = ground (arith, length-append front (b ∷ back))

-- Two sequences of bytes that differ in exactly one place have different checksums.
pub crc32_detects_byte :
    (front back : List ℕ) (b c : ℕ)
    → AllBytes front
    → AllBytes back
    → b < 256
    → c < 256
    → b ≢ c
    → crc32 (front ++ (b ∷ back)) ≢ crc32 (front ++ (c ∷ back))
crc32_detects_byte front back b c hf hk hb hc ne e =
    let start = crc_register 0xFFFFFFFF front in
    let start_fits : start < 2 ^ 32 = crc_register-fits 0xFFFFFFFF front (omega arith) hf in
    let rb = crc_register (crc_byte start b) back in
    let rc = crc_register (crc_byte start c) back in
    let rb_fits : rb < 2 ^ 32 = crc_register-fits _ back (crc_byte-fits start b start_fits hb) hk in
    let rc_fits : rc < 2 ^ 32 = crc_register-fits _ back (crc_byte-fits start c start_fits hc) hk in
    let same : rb ≡ rc =
      omega
        (arith, e, crc32_nonempty front back b, crc32_nonempty front back c, split b, split c) in
    ne (
      crc_byte_injective_byte start b c start_fits hb hc (
        crc_register_injective back _ _ (crc_byte-fits start b start_fits hb)
          (crc_byte-fits start c start_fits hc) hk same))
  where
    split :
        (x : ℕ)
        → crc_register 0xFFFFFFFF (front ++ (x ∷ back))
          ≡ crc_register (crc_byte (crc_register 0xFFFFFFFF front) x) back
    split x = unfold crc_register in crc_register-append front (x ∷ back) 0xFFFFFFFF
