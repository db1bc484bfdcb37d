-- ===== src/Prelude/Bits.antt =====
-- Facts about `&`, `|` and `^` at variables, from the binary digits that the native operations
-- stand for.
use Prim.Native.Nat.{
  ℕ, zero, suc, ◌+◌, ◌-◌, ◌*◌, ◌/◌, ◌%◌, ◌^◌, ◌≤◌, ◌<◌, min, max, digits, bitwise, bit_and, bit_or,
  bit_xor, bit_and-bitwise, bit_or-bitwise, bit_xor-bitwise, differ,
}
use mathlib.Core.Path.{◌≡◌, refl, ap}
use native.Mathlib.Nat.{pow-suc}
use native.Mathlib.Omega.{arith}

-- Fuel beyond the first argument does not change a bitwise operation.
module _ (tail : ℕ → ℕ) (op : ℕ → ℕ → ℕ) where
  digits_more : (n x y : ℕ) → x ≤ n → digits tail op (suc n) x y ≡ digits tail op n x y
  digits_more zero zero y h = refl
  digits_more (suc n) zero y h = refl
  digits_more zero (suc x) y h = absurd (omega arith)
  digits_more (suc n) (suc x) y h = omega (arith, digits_more n (suc x / 2) (y / 2) (omega arith))

  digits_plus : (k n x y : ℕ) → x ≤ n → digits tail op (k + n) x y ≡ digits tail op n x y
  digits_plus zero n x y h = let e : 0 + n ≡ n = omega arith in rw e
  digits_plus (suc k) n x y h =
      let e : suc k + n ≡ suc (k + n) = omega arith in
      rw (e, digits_more (k + n) x y (omega arith), digits_plus k n x y h)

  lowest_digit :
      (x y : ℕ)
      → bitwise tail op (suc x) y ≡ bitwise tail op (suc x / 2) (y / 2) * 2 + op (suc x % 2) (y % 2)
  lowest_digit x y =
      let e : x - suc x / 2 + suc x / 2 ≡ x = omega arith in
      omega
        (arith, rw e at (digits_plus (x - suc x / 2) (suc x / 2) (suc x / 2) (y / 2) (omega arith)))

pub bit_xor_step : (x y : ℕ) → bit_xor x y ≡ 2 * bit_xor (x / 2) (y / 2) + differ (x % 2) (y % 2)
bit_xor_step zero y = simp bit_xor-bitwise (omega arith)
bit_xor_step (suc x) y =
    simp bit_xor-bitwise (omega (arith, lowest_digit (λ rest. rest) differ x y))

pub bit_or_step : (x y : ℕ) → bit_or x y ≡ 2 * bit_or (x / 2) (y / 2) + max (x % 2) (y % 2)
bit_or_step zero y = simp bit_or-bitwise (omega arith)
bit_or_step (suc x) y = simp bit_or-bitwise (omega (arith, lowest_digit (λ rest. rest) max x y))

pub bit_and_step : (x y : ℕ) → bit_and x y ≡ 2 * bit_and (x / 2) (y / 2) + min (x % 2) (y % 2)
bit_and_step zero y = simp bit_and-bitwise (omega arith)
bit_and_step (suc x) y = simp bit_and-bitwise (omega (arith, lowest_digit (λ rest. 0) min x y))

and_nothing_fuel : (fuel x : ℕ) → x ≤ fuel → bit_and x 0 ≡ 0
and_nothing_fuel zero zero le = refl
and_nothing_fuel (suc fuel) zero le = refl
and_nothing_fuel zero (suc x) le = absurd (omega arith)
and_nothing_fuel (suc fuel) (suc x) le =
    let half = and_nothing_fuel fuel (suc x / 2) (omega arith) in
    omega (arith, half, bit_and_step (suc x) 0)

-- A mask of ones that is one digit longer.
mask_grow : (m x : ℕ) → bit_and x (m * 2 + 1) ≡ bit_and (x / 2) m * 2 + x % 2
mask_grow m x =
    let e : (m * 2 + 1) / 2 ≡ m = omega arith in rw (bit_and_step x (m * 2 + 1), e) (omega arith)

and_half_byte : (x : ℕ) → bit_and x 0x0f ≡ x % 16
and_half_byte x = omega (
  arith,
  mask_grow 7 x,
  mask_grow 3 (x / 2),
  mask_grow 1 (x / 2 / 2),
  mask_grow 0 (x / 2 / 2 / 2),
  and_nothing_fuel (x / 2 / 2 / 2 / 2) (x / 2 / 2 / 2 / 2) (omega arith),
)

-- `x & 0xFF` keeps the lowest byte.
pub and_byte : (x : ℕ) → bit_and x 0xff ≡ x % 256
and_byte x = omega (
  arith,
  mask_grow 127 x,
  mask_grow 63 (x / 2),
  mask_grow 31 (x / 2 / 2),
  mask_grow 15 (x / 2 / 2 / 2),
  and_half_byte (x / 2 / 2 / 2 / 2),
)

or_nothing_fuel : (n a : ℕ) → a ≤ n → bit_or a 0 ≡ a
or_nothing_fuel n zero h = refl
or_nothing_fuel zero (suc a) h = absurd (omega arith)
or_nothing_fuel (suc n) (suc a) h =
    omega (arith, bit_or_step (suc a) 0, or_nothing_fuel n (suc a / 2) (omega arith))

-- `(q << k) | r` is a sum, for `r` below `2 ^ k`.
pub or_disjoint : (k q r : ℕ) → r < 2 ^ k → bit_or (q * 2 ^ k) r ≡ q * 2 ^ k + r
or_disjoint zero q r h = ground (arith, or_nothing_fuel q q (omega arith))
or_disjoint (suc k) q r h = ground (
  arith,
  bit_or_step (q * 2 ^ suc k) r,
  ap (λ (t : ℕ). q * t) (pow-suc 2 k),
  pow-suc 2 k,
  or_disjoint k q (r / 2) (omega (arith, pow-suc 2 k)),
)

-- The same for an `x` that is a multiple of `2 ^ k`.
pub or_above : (k q x r : ℕ) → x ≡ q * 2 ^ k → r < 2 ^ k → bit_or x r ≡ x + r
or_above k q x r e h = rw e (or_disjoint k q r h)

pub bit_and_one : (x : ℕ) → bit_and x 1 ≡ x % 2
bit_and_one x = omega (arith, mask_grow 0 x, and_nothing_fuel (x / 2) (x / 2) (omega arith))
