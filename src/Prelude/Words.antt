-- ===== src/Prelude/Words.antt =====
-- Fixed-width integers and their big-endian bytes. A word is a number; a cast is `% 2 ^ w`.
use Prim.Native.Nat.{ℕ, zero, suc, ◌+◌, ◌*◌, ◌/◌, ◌%◌, ◌^◌, ◌<◌, bit_and, bit_or}
use mathlib.Core.Path.{◌≡◌, refl, sym}
use mathlib.Core.List.{List, [], ◌∷◌}
use native.Mathlib.Omega.{arith}
use native.Mathlib.Nat.{div-div-eq-div-mul}
use native.Mathlib.Numerals.{towards_suc}
use phonekey.Prelude.Lists.{length, All}
use phonekey.Prelude.Bits.{and_byte, or_disjoint, or_above}

abbrev pub u8 : ℕ → ℕ
u8 x = x % 2 ^ 8

abbrev pub u16 : ℕ → ℕ
u16 x = x % 2 ^ 16

abbrev pub u32 : ℕ → ℕ
u32 x = x % 2 ^ 32

abbrev pub u64 : ℕ → ℕ
u64 x = x % 2 ^ 64

infixl 75 ◌<<◌ ◌>>>◌
abbrev pub ◌<<◌ : ℕ → ℕ → ℕ
x << k = x * 2 ^ k

abbrev pub ◌>>>◌ : ℕ → ℕ → ℕ
x >>> k = x / 2 ^ k

abbrev pub IsByte : ℕ → Type 0
IsByte b = b < 256

-- `static_cast<uint8_t>((x >> k) & 0xFF)`
unfoldable pub byte_at : ℕ → ℕ → ℕ
byte_at x k = u8 (bit_and (x >>> k) 0xff)

pub byte_at_lem : (x k : ℕ) → byte_at x k ≡ x / 2 ^ k % 256
unfolding byte_at
byte_at_lem x k = omega (arith, and_byte (x / 2 ^ k))

-- The bytes of a word, most significant first.
unfoldable pub be16 : ℕ → List ℕ
be16 x = byte_at x 8 ∷ byte_at x 0 ∷ []

unfoldable pub be32 : ℕ → List ℕ
be32 x = byte_at x 24 ∷ byte_at x 16 ∷ byte_at x 8 ∷ byte_at x 0 ∷ []

-- The lowest `n` bytes of a word, as the loops over 64-bit timestamps write them.
unfoldable pub be_bytes : ℕ → ℕ → List ℕ
be_bytes zero x = []
be_bytes (suc i) x = byte_at x (i * 8) ∷ be_bytes i x

abbrev pub be64 : ℕ → List ℕ
be64 = be_bytes 8

-- `(a << 8) | b` and the like as sums.
pub join16 : (a b : ℕ) → a < 256 → b < 256 → u16 (bit_or (a << 8) b) ≡ a * 256 + b
join16 a b ha hb = omega (arith, or_disjoint 8 a b hb)

pub join32 :
    (a b c d : ℕ)
    → a < 256
    → b < 256
    → c < 256
    → d < 256
    → bit_or (bit_or (bit_or (u32 (a << 24)) (u32 (b << 16))) (u32 (c << 8))) d
      ≡ a * 2 ^ 24 + b * 2 ^ 16 + c * 2 ^ 8 + d
join32 a b c d ha hb hc hd = ground (
  arith,
  or_above 24 a (a * 2 ^ 24) (b * 2 ^ 16) refl (omega arith),
  or_above 16 (a * 256 + b) (a * 2 ^ 24 + b * 2 ^ 16) (c * 2 ^ 8) (omega arith) (omega arith),
  or_above 8 (a * 65536 + b * 256 + c) (a * 2 ^ 24 + b * 2 ^ 16 + c * 2 ^ 8) d (omega arith)
      (omega arith),
)

-- One round of the loop: while the sum fits 64 bits nothing is cut off.
pub join64 : (acc b : ℕ) → acc < 2 ^ 56 → b < 256 → bit_or (u64 (acc << 8)) b ≡ acc * 256 + b
join64 acc b ha hb = omega (arith, or_above 8 acc (u64 (acc * 2 ^ 8)) b (omega arith) hb)

pub be16-join : (x : ℕ) → x < 2 ^ 16 → byte_at x 8 * 256 + byte_at x 0 ≡ x
be16-join x h = omega (arith, byte_at_lem x 8, byte_at_lem x 0)

pub be32-join :
    (x : ℕ)
    → x < 2 ^ 32
    → byte_at x 24 * 2 ^ 24 + byte_at x 16 * 2 ^ 16 + byte_at x 8 * 2 ^ 8 + byte_at x 0 ≡ x
be32-join x h = omega (arith, byte_at_lem x 24, byte_at_lem x 16, byte_at_lem x 8, byte_at_lem x 0)

pub next_byte : (left x : ℕ) → x / 2 ^ (suc left * 8) ≡ x / 2 ^ (left * 8) / 256
next_byte left x =
    let e : 2 ^ (suc left * 8) ≡ 2 ^ (left * 8) * 256 =
      let more : suc left * 8 ≡ left * 8 + 8 = omega arith in
      rw more (simp towards_suc (omega arith)) in
    rw e (sym (div-div-eq-div-mul x (2 ^ (left * 8)) 256))

pub byte_at-IsByte : (x k : ℕ) → IsByte (byte_at x k)
byte_at-IsByte x k = omega (arith, byte_at_lem x k)

abbrev pub AllBytes : List ℕ → Type 0
AllBytes = All IsByte

pub length-be_bytes : (n x : ℕ) → length (be_bytes n x) ≡ n
unfolding be_bytes
length-be_bytes zero x = refl
length-be_bytes (suc n) x = omega (arith, length-be_bytes n x)

pub be_bytes-AllBytes : (n x : ℕ) → AllBytes (be_bytes n x)
unfolding be_bytes
be_bytes-AllBytes zero x = tt
be_bytes-AllBytes (suc n) x = (byte_at-IsByte x (n * 8), be_bytes-AllBytes n x)

pub length-be16 : (x : ℕ) → length (be16 x) ≡ 2
unfolding be16
length-be16 x = refl

pub length-be32 : (x : ℕ) → length (be32 x) ≡ 4
unfolding be32
length-be32 x = refl

pub be16-AllBytes : (x : ℕ) → AllBytes (be16 x)
unfolding be16
be16-AllBytes x = (byte_at-IsByte x 8, (byte_at-IsByte x 0, tt))

pub be32-AllBytes : (x : ℕ) → AllBytes (be32 x)
unfolding be32
be32-AllBytes x =
    (byte_at-IsByte x 24, (byte_at-IsByte x 16, (byte_at-IsByte x 8, (byte_at-IsByte x 0, tt))))
