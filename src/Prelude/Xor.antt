-- ===== src/Prelude/Xor.antt =====
-- Facts about `^` at variables: it cancels, and it commutes with shifting right.
use Prim.Native.Nat.{ℕ, zero, suc, ◌+◌, ◌/◌, ◌%◌, ◌^◌, ◌≤◌, ◌<◌, bit_xor, differ}
use mathlib.Core.Path.{◌≡◌, refl, ap, ap₂, ◌∙◌, sym}
use native.Mathlib.Nat.{div-div-eq-div-mul, pow-suc}
use native.Mathlib.Omega.{arith}
use phonekey.Prelude.Bits.{bit_xor_step}

-- On binary digits.
differ_bits :
    (x y : ℕ)
    → x < 2
    → y < 2
    → (differ x y < 2) × (differ (differ x y) y ≡ x) × (differ x (differ x y) ≡ y)
differ_bits zero zero hx hy = (omega arith, refl, refl)
differ_bits zero (suc zero) hx hy = (omega arith, refl, refl)
differ_bits (suc zero) zero hx hy = (omega arith, refl, refl)
differ_bits (suc zero) (suc zero) hx hy = (omega arith, refl, refl)
differ_bits (suc (suc x)) y hx hy = absurd (omega arith)
differ_bits zero (suc (suc y)) hx hy = absurd (omega arith)
differ_bits (suc zero) (suc (suc y)) hx hy = absurd (omega arith)

lowest :
    (a b : ℕ)
    → (bit_xor a b / 2 ≡ bit_xor (a / 2) (b / 2)) × (bit_xor a b % 2 ≡ differ (a % 2) (b % 2))
lowest a b =
    omega (arith, bit_xor_step a b, (differ_bits (a % 2) (b % 2) (omega arith) (omega arith)).0)

from_halves : (m n : ℕ) → m / 2 ≡ n / 2 → m % 2 ≡ n % 2 → m ≡ n
from_halves m n h k = omega arith

Cancels : ℕ → ℕ → Type 0
Cancels a b = (bit_xor (bit_xor a b) b ≡ a) × (bit_xor a (bit_xor a b) ≡ b)

cancel_step : (a b : ℕ) → Cancels (a / 2) (b / 2) → Cancels a b
unfolding Cancels
cancel_step a b (ih_left, ih_right) =
    let (high, low) = lowest a b in
    let (_, left, right) = differ_bits (a % 2) (b % 2) (omega arith) (omega arith) in
    (
      from_halves _ _
          ((lowest (bit_xor a b) b).0 ∙ ap (λ (t : ℕ). bit_xor t (b / 2)) high ∙ ih_left)
          ((lowest (bit_xor a b) b).1 ∙ ap (λ (t : ℕ). differ t (b % 2)) low ∙ left),
      from_halves _ _
          ((lowest a (bit_xor a b)).0 ∙ ap (λ (t : ℕ). bit_xor (a / 2) t) high ∙ ih_right)
          ((lowest a (bit_xor a b)).1 ∙ ap (λ (t : ℕ). differ (a % 2) t) low ∙ right),
    )

cancel_fuel : (n a b : ℕ) → a + b ≤ n → Cancels a b
cancel_fuel n zero zero h = unfold Cancels in (refl, refl)
cancel_fuel zero zero (suc b) h = absurd (omega arith)
cancel_fuel zero (suc a) b h = absurd (omega arith)
cancel_fuel (suc n) zero (suc b) h =
    cancel_step zero (suc b) (cancel_fuel n (zero / 2) (suc b / 2) (omega arith))
cancel_fuel (suc n) (suc a) b h =
    cancel_step (suc a) b (cancel_fuel n (suc a / 2) (b / 2) (omega arith))

pub xor_cancel_right : (a b c : ℕ) → bit_xor a c ≡ bit_xor b c → a ≡ b
unfolding Cancels
xor_cancel_right a b c e =
    sym (cancel_fuel (a + c) a c (omega arith)).0
    ∙ ap (λ (t : ℕ). bit_xor t c) e
    ∙ (cancel_fuel (b + c) b c (omega arith)).0

pub xor_cancel_left : (a b c : ℕ) → bit_xor a b ≡ bit_xor a c → b ≡ c
unfolding Cancels
xor_cancel_left a b c e =
    sym (cancel_fuel (a + b) a b (omega arith)).1
    ∙ ap (λ (t : ℕ). bit_xor a t) e
    ∙ (cancel_fuel (a + c) a c (omega arith)).1

pub xor-shift : (k a b : ℕ) → bit_xor a b / 2 ^ k ≡ bit_xor (a / 2 ^ k) (b / 2 ^ k)
xor-shift zero a b =
    let one : (x : ℕ) → x / 2 ^ zero ≡ x = λ x. omega arith in
    one (bit_xor a b) ∙ ap₂ bit_xor (sym (one a)) (sym (one b))
xor-shift (suc k) a b =
    let split : (x : ℕ) → x / 2 ^ suc k ≡ x / 2 ^ k / 2 =
      λ x. rw (pow-suc 2 k) (sym (div-div-eq-div-mul x (2 ^ k) 2)) in
    split (bit_xor a b)
    ∙ ap (λ (t : ℕ). t / 2) (xor-shift k a b)
    ∙ (lowest (a / 2 ^ k) (b / 2 ^ k)).0
    ∙ ap₂ bit_xor (sym (split a)) (sym (split b))

-- Two values of 32 bits give a value of 32 bits.
pub xor-fits : (a b : ℕ) → a < 2 ^ 32 → b < 2 ^ 32 → bit_xor a b < 2 ^ 32
xor-fits a b ha hb =
    let ea : a / 2 ^ 32 ≡ 0 = omega arith in
    let eb : b / 2 ^ 32 ≡ 0 = omega arith in
    let e : bit_xor a b / 2 ^ 32 ≡ 0 = xor-shift 32 a b ∙ ap₂ bit_xor ea eb in omega (arith, e)
