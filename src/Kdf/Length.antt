-- ===== src/Kdf/Length.antt =====
-- The lengths of derived keys and PINs.
use phonekey.Prelude.{
  ℕ, zero, suc, ◌+◌, ◌-◌, ◌*◌, ◌/◌, ◌<◌, true, false, lt→ltb, le→ltb, ◌%◌, ◌≤◌, ◌≡◌, ◌⊎◌, refl, inl,
  inr, arith, List, [], ◌∷◌, ◌++◌, Option, some, Bool, Bool-cases, ltb, ltb→le, ltb→lt, ◌==◌,
  ==_false, length, length-append, length-take, take, min, All, ok,
}
use phonekey.Prelude.Reads.{read_u32, read_u32_total}
use phonekey.Kdf.{
  Hmac, hmac_sha256, expand_loop, expand, compute_sas_pin, decimal, print_pin, pin_of, sas_info,
  no_pin,
}

abbrev pub Derived : ℕ → Option (List ℕ) → Type 0
Derived out_len r = (key : List ℕ) × (r ≡ some key) × ((length key ≡ out_len) ⊎ (key ≡ []))

expand_loop-Derived :
    (hmac : Hmac) (prk info : List ℕ) (out_len fuel : ℕ) (okm t : List ℕ) (counter : ℕ)
    → length okm ≤ out_len
    → out_len ≤ fuel + length okm
    → Derived out_len (expand_loop hmac prk info out_len fuel okm t counter)
unfolding expand_loop
expand_loop-Derived hmac prk info out_len zero okm t counter room enough =
    elim (Bool-cases (ltb (length okm) out_len)) [
      | inl more ↦ absurd (omega (arith, ltb→lt _ _ more))
      | inr done ↦ (okm, rw (done, expand_loop) refl, inl (omega (arith, ltb→le _ _ done)))
    ]
expand_loop-Derived hmac prk info out_len (suc fuel) okm t counter room enough =
    elim (Bool-cases (ltb (length okm) out_len)) [
      | inr done ↦ (okm, rw (done, expand_loop) refl, inl (omega (arith, ltb→le _ _ done)))
      | inl more ↦
          let block = hmac_sha256 hmac prk ((t ++ info) ++ (counter ∷ [])) in
          let n = min (length block) (out_len - length okm) in
          elim (Bool-cases (length block == 0)) [
            | inl failed ↦ ([], rw (more, failed, expand_loop) refl, inr refl)
            | inr made ↦
                let nonzero = (==_false _ _).0 made in
                let less = ltb→lt _ _ more in
                let taken : length (take n block) ≡ n = length-take n block (omega arith) in
                let grown : length (okm ++ take n block) ≡ length okm + n =
                  omega (arith, taken, length-append {0} okm (take n block)) in
                rw (more, made, expand_loop)
                  (expand_loop-Derived hmac prk info out_len fuel (okm ++ take n block) block _
                    (omega arith) (ground (arith, grown, nonzero, less)))
          ]
    ]

-- Expand always returns, and what it returns has exactly the length that was asked for or is empty.
expand-Derived :
    (hmac : Hmac) (prk info : List ℕ) (out_len : ℕ) → Derived out_len (expand hmac prk info out_len)
unfolding expand
expand-Derived hmac prk info out_len = elim (Bool-cases (length prk == 0)) [
  | inl empty ↦ ([], rw (empty, expand) refl, inr refl)
  | inr full ↦ elim (Bool-cases (out_len == 0)) [
    | inl nothing ↦ ([], rw (full, nothing, expand) refl, inr refl)
    | inr more ↦
        rw (full, more, expand)
          (expand_loop-Derived hmac prk info out_len out_len [] [] 1 (omega arith) (omega arith))
  ]
]

abbrev pub IsDigit : ℕ → Type 0
IsDigit d = (b'0' ≤ d) × (d ≤ b'9')

-- The number that digits stand for, behind those that were read.
abbrev pub value : ℕ → List ℕ → ℕ
value before [] = before
value before (d ∷ ds) = value (10 * before + (d - b'0')) ds

abbrev ten_to : ℕ → ℕ
ten_to zero = 1
ten_to (suc k) = 10 * ten_to k

ten_to-pos : (k : ℕ) → 1 ≤ ten_to k
ten_to-pos zero = omega arith
ten_to-pos (suc k) = omega (arith, ten_to-pos k)

value-snoc :
    (before d : ℕ) (ds : List ℕ) → value before (ds ++ ((b'0' + d) ∷ [])) ≡ 10 * value before ds + d
value-snoc before d [] = omega arith
value-snoc before d (x ∷ ds) = value-snoc (10 * before + (x - b'0')) d ds

All-snoc : (ds : List ℕ) (d : ℕ) → All IsDigit ds → IsDigit d → All IsDigit (ds ++ (d ∷ []))
All-snoc [] d h h' = (h', tt)
All-snoc (x ∷ ds) d (hx, h) h' = (hx, All-snoc ds d h h')

-- A text of some digits that stands for a number.
record Digits (size n : ℕ) (text : List ℕ) : Type 0 where
  long : length text ≡ size
  digits : All IsDigit text
  stands_for : value 0 text ≡ n

decimal-Digits :
    (k fuel n : ℕ) → k < fuel → ten_to k ≤ n → n < 10 * ten_to k → Digits (suc k) n (decimal fuel n)
unfolding decimal
decimal-Digits k zero n enough low high = absurd (omega (arith, enough))
decimal-Digits zero (suc fuel) n enough low high =
    let small : ltb n 10 ≡ true = lt→ltb _ _ (omega (arith, high)) in
    rw small record {
      long = refl;
      digits = ((omega arith, omega (arith, high)), tt);
      stands_for = omega arith;
    }
decimal-Digits (suc k) (suc fuel) n enough low high =
    let large : ltb n 10 ≡ false = le→ltb _ _ (omega (arith, low, ten_to-pos k)) in
    let rest =
      decimal-Digits k fuel (n / 10) (omega (arith, enough)) (omega (arith, low))
        (omega (arith, high)) in
    let text = decimal fuel (n / 10) in
    rw large record {
      long = omega (arith, rest.long, length-append {0} text ((b'0' + n % 10) ∷ []));
      digits = All-snoc text (b'0' + n % 10) rest.digits (omega arith, omega arith);
      stands_for = omega (arith, rest.stands_for, value-snoc 0 (n % 10) text);
    }

-- A number of six digits is not padded.
print_pin-Digits : (n : ℕ) → 100000 ≤ n → n < 1000000 → Digits 6 n (print_pin n)
unfolding print_pin
print_pin-Digits n low high =
    let d = decimal-Digits 5 10 n (omega arith) (omega (arith, low)) (omega (arith, high)) in
    rw d.long d

zero-IsDigit : IsDigit b'0'
zero-IsDigit = (omega arith, omega arith)

no_pin-All : (length no_pin ≡ 6) × All IsDigit no_pin
no_pin-All = (
  refl,
  (
    zero-IsDigit,
    (zero-IsDigit, (zero-IsDigit, (zero-IsDigit, (zero-IsDigit, (zero-IsDigit, tt))))),
  ),
)

-- ComputeSasPin always returns six decimal digits. They are those of the number that the first four
-- bytes of the MAC give, which has six digits of its own, or six zeros where there is no key or the
-- MAC has fewer than four bytes.
pub compute_sas_pin_digits :
    (hmac : Hmac) (key : List ℕ)
    → let mac = hmac_sha256 hmac key sas_info in
      (pin : List ℕ) × (compute_sas_pin hmac key ≡ some pin)
      × (length pin ≡ 6)
      × All IsDigit pin
      × (((pin ≡ no_pin) × ((length key ≡ 0) ⊎ (length mac < 4)))
          ⊎ ((val : ℕ) × (read_u32 {E = Bool} mac 0 ≡ ok val)
              × (value 0 pin ≡ 100000 + val % 900000)))
unfolding compute_sas_pin
compute_sas_pin_digits hmac key = elim (Bool-cases (length key == 0)) [
  | inl empty ↦ (
    no_pin,
    rw (empty, compute_sas_pin) refl,
    no_pin-All.0,
    no_pin-All.1,
    inl (refl, inl (ground (arith, empty))),
  )
  | inr full ↦ elim (Bool-cases (ltb (length (hmac_sha256 hmac key sas_info)) 4)) [
    | inl short ↦ (
      no_pin,
      rw (full, short, compute_sas_pin) refl,
      no_pin-All.0,
      no_pin-All.1,
      inl (refl, inr (ltb→lt _ _ short)),
    )
    | inr enough ↦
        let (val, e) =
          read_u32_total {E = Bool} (hmac_sha256 hmac key sas_info) 0 (ltb→le _ _ enough) in
        let d = print_pin-Digits (pin_of val) (omega arith) (omega arith) in
        (
          print_pin (pin_of val),
          rw (full, enough, e, compute_sas_pin) refl,
          d.long,
          d.digits,
          inr (val, e, omega (arith, d.stands_for)),
        )
  ]
]
