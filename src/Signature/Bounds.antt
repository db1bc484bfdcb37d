-- ===== src/Signature/Bounds.antt =====
-- The reads of `CryptoEngine::ConvertDerToRawRSignature`.
use phonekey.Prelude.{
  Result, ◌>>=◌, ◌>>◌, fail_if, replicate, ◌-◌, read_bytes, fail_if-eq-ok, >>=-eq-ok, read, false,
  ltb→lt, get_elem?, none, Result-cases, ℕ, zero, suc, ◌+◌, ◌≤◌, ◌≡◌, ◌≢◌, ◌↔◌, [], ◌∷◌, refl, ap,
  ◌∙◌, arith, Bool-cases, inl, inr, List, length, ltb, leb, ◌==◌, not, ◌||◌, ok, fault, read_total,
  read_bytes_total, >>=-ne-fault, fail_if-ne-fault, ok-ne-fault, ok_injective,
}
use phonekey.Prelude.Writes.{memcpy}
use phonekey.Signature.{Refusal, refused, read_integer, strip_zeros, convert_der_to_raw}

none_behind : (xs : List ℕ) → get_elem? xs (length xs) ≡ none
none_behind [] = refl
none_behind (x ∷ xs) = ground (arith, none_behind xs)

read_behind : (xs : List ℕ) → read {E = Refusal} xs (length xs) ≡ fault
unfolding read
read_behind xs = ground (arith, none_behind xs)

module _ (der : List ℕ) where
  -- A tag in the last byte makes the read of the length leave the buffer, and nothing else does.
  read_integer-fault :
      (idx : ℕ)
      → read_integer der (length der) idx ≡ fault
      → (idx + 1 ≡ length der) × (read {E = Refusal} der idx ≡ ok 0x02)
  unfolding read_integer
  read_integer-fault idx p = elim (Bool-cases (leb (length der) idx)) [
    | inl out ↦ (let p' = rw out at p in cc)
    | inr inside ↦
        let (tag, e) = read_total {E = Refusal} der idx (ground arith) in
        elim (Bool-cases (tag == 0x02)) [
          | inr other ↦ (let p' = rw (inside, e, other) at p in cc)
          | inl same ↦
              let is_two : tag ≡ 0x02 = ground (arith, same) in
              elim (Bool-cases (ltb (idx + 1) (length der))) [
                | inr last ↦ (ground arith, e ∙ ap ok is_two)
                | inl more ↦
                    let (len, e') = read_total {E = Refusal} der (idx + 1) (ltb→lt _ _ more) in
                    absurd (ground arith)
              ]
        ]
  ]

  read_integer_last :
      (idx : ℕ)
      → idx + 1 ≡ length der
      → read {E = Refusal} der idx ≡ ok 0x02
      → read_integer der (length der) idx ≡ fault
  unfolding read_integer
  read_integer_last idx last tag =
      let inside : leb (length der) idx ≡ false = ground (arith, last) in
      rw (inside, tag, last, read_behind der) refl

  read_integer_fits :
      (idx len : ℕ) → read_integer der (length der) idx ≡ ok len → idx + 2 + len ≤ length der
  unfolding read_integer
  read_integer_fits idx len e = ground arith

strip_zeros_total :
    (der : List ℕ) (n start : ℕ)
    → start + n ≤ length der
    → (r : ℕ × ℕ) × (strip_zeros der start n ≡ ok r) × (r.0 + r.1 ≡ start + n)
unfolding strip_zeros
strip_zeros_total der zero start h = ((start, 0), refl, refl)
strip_zeros_total der (suc n) start h =
    let (b, e) = read_total {E = Refusal} der start (omega arith) in
    let (r, e', same) = strip_zeros_total der n (start + 1) (omega arith) in
    elim (Bool-cases (ltb 32 (suc n))) [
      | inr short ↦ ((start, suc n), rw (short, strip_zeros) refl, refl)
      | inl long ↦ elim (Bool-cases (b == 0)) [
        | inl nothing ↦ (r, rw (long, e, nothing, e', strip_zeros) refl, omega (arith, same))
        | inr digit ↦ ((start, suc n), rw (long, e, digit, strip_zeros) refl, refl)
      ]
    ]

first_number :
    (der : List ℕ) (len : ℕ)
    → read {E = Refusal} der 2 ≡ ok 0x02
    → read {E = Refusal} der 3 ≡ ok len
    → 3 ≤ length der
    → 4 + len ≤ length der
    → read_integer der (length der) 2 ≡ ok len
unfolding read_integer
first_number der len tag size more fits =
    let inside : leb (length der) 2 ≡ false = ground (arith, more) in
    let room : ltb (length der) (4 + len) ≡ false = ground (arith, fits) in
    rw (inside, tag, size, room) refl

number_read :
    (der : List ℕ) (idx len : ℕ)
    → read_integer der (length der) idx ≡ ok len
    → (read {E = Refusal} der idx ≡ ok 0x02) × (read {E = Refusal} der (idx + 1) ≡ ok len)
unfolding read_integer
number_read der idx len e =
    let (_, e1) = fail_if-eq-ok (leb (length der) idx) _ _ e in
    let (tag, is_tag, e2) = >>=-eq-ok (read {E = Refusal} der idx) _ e1 in
    let (is_two, e3) = fail_if-eq-ok (not (tag == 0x02)) _ _ e2 in
    let (n, is_n, e4) = >>=-eq-ok (read {E = Refusal} der (idx + 1)) _ e3 in
    let (_, e5) = fail_if-eq-ok (ltb (length der) (idx + 2 + n)) _ _ e4 in
    let two : tag ≡ 0x02 = ground (arith, is_two) in
    (is_tag ∙ ap ok two, is_n ∙ ap ok (ok_injective e5))

-- What follows when both numbers are found stays inside the signature.
after_numbers : List ℕ → ℕ → ℕ → Result Refusal (List ℕ)
after_numbers der r_len s_len = do
  r ← strip_zeros der 4 r_len
  s ← strip_zeros der (6 + r_len) s_len
  fail_if (ltb 32 r.1 || ltb 32 s.1) refused
  r_bytes ← read_bytes der r.0 r.1
  s_bytes ← read_bytes der s.0 s.1
  let raw_rs = memcpy (32 - r.1) r_bytes r.1 (replicate 64 0)
  ok (memcpy (32 + (32 - s.1)) s_bytes s.1 raw_rs)

after_numbers-ne-fault :
    (der : List ℕ) (r_len s_len : ℕ)
    → 4 + r_len ≤ length der
    → 6 + r_len + s_len ≤ length der
    → after_numbers der r_len s_len ≢ fault
unfolding after_numbers
after_numbers-ne-fault der r_len s_len fits_r fits_s =
    let (r, e, same_r) = strip_zeros_total der r_len 4 fits_r in
    let (s, e', same_s) = strip_zeros_total der s_len (6 + r_len) fits_s in
    rw (e, e')
      (fail_if-ne-fault (ltb 32 r.1 || ltb 32 s.1) refused _ (
        >>=-ne-fault _ _ (_, read_bytes_total der r.0 r.1 (omega (arith, same_r, fits_r)))
          λ r_bytes.
            >>=-ne-fault _ _ (_, read_bytes_total der s.0 s.1 (omega (arith, same_s, fits_s)))
              λ s_bytes. ok-ne-fault _))

-- Where the conversion reads behind the end: the tag of the second number is the last byte.
pub record OverRead (der : List ℕ) : Type 0 where
  pub r_len : ℕ
  pub at_least : 8 ≤ length der
  pub at_most : length der ≤ 139
  pub sequence : read {E = Refusal} der 0 ≡ ok 0x30
  pub r_tag : read {E = Refusal} der 2 ≡ ok 0x02
  pub r_size : read {E = Refusal} der 3 ≡ ok r_len
  pub s_last : 5 + r_len ≡ length der
  pub s_tag : read {E = Refusal} der (4 + r_len) ≡ ok 0x02

-- ConvertDerToRawRSignature, at the size of the buffer, leaves the buffer exactly if the signature has
-- 8 to 139 bytes, starts with 0x30, has 0x02 as the tag of the first number, and ends with 0x02 right
-- behind that number: then the length of the second number is read one byte behind the end.
pub convert_der_to_raw-fault :
    (der : List ℕ) → (convert_der_to_raw der (length der) ≡ fault) ↔ OverRead der
unfolding convert_der_to_raw after_numbers
convert_der_to_raw-fault der = (leaves, stays)
  where
    stays : OverRead der → convert_der_to_raw der (length der) ≡ fault
    stays o =
        let usual : (ltb (length der) 8 || ltb 139 (length der)) ≡ false =
          ground (arith, o.at_least, o.at_most) in
        let first : read_integer der (length der) 2 ≡ ok o.r_len =
          first_number der o.r_len o.r_tag o.r_size (omega (arith, o.at_least))
            (omega (arith, o.s_last)) in
        rw
          (
            usual,
            o.sequence,
            first,
            read_integer_last der (4 + o.r_len) (omega (arith, o.s_last)) o.s_tag,
          )
          refl

    numbers :
        8 ≤ length der
        → length der ≤ 139
        → read {E = Refusal} der 0 ≡ ok 0x30
        → (read_integer der (length der) 2 >>= λ r_len.
            read_integer der (length der) (4 + r_len) >>= λ s_len. after_numbers der r_len s_len)
          ≡ fault
        → OverRead der
    numbers low high sequence p = elim (Result-cases (read_integer der (length der) 2)) [
      | inr (inl (e, is)) ↦ (let p' = rw is at p in cc)
      | inr (inr is) ↦ absurd (omega (arith, low, (read_integer-fault der 2 is).0))
      | inl (r_len, is) ↦
          let (r_tag, r_size) = number_read der 2 r_len is in
          let fits_r = read_integer_fits der 2 r_len is in
          elim (Result-cases (read_integer der (length der) (4 + r_len))) [
            | inr (inl (e, is')) ↦ (let p' = rw (is, is') at p in cc)
            | inl (s_len, is') ↦
                let fits_s = read_integer_fits der (4 + r_len) s_len is' in
                absurd (
                  after_numbers-ne-fault der r_len s_len (omega (arith, fits_r))
                    (omega (arith, fits_s)) (rw (is, is') at p))
            | inr (inr is') ↦
                let (last, s_tag) = read_integer-fault der (4 + r_len) is' in
                record {
                  r_len = r_len;
                  at_least = low;
                  at_most = high;
                  sequence = sequence;
                  r_tag = r_tag;
                  r_size = r_size;
                  s_last = omega (arith, last);
                  s_tag = s_tag;
                }
          ]
    ]

    leaves : convert_der_to_raw der (length der) ≡ fault → OverRead der
    leaves p = elim (Bool-cases (ltb (length der) 8 || ltb 139 (length der))) [
      | inl odd ↦ (let p' = rw odd at p in cc)
      | inr usual ↦
          let low : 8 ≤ length der = ground (arith, usual) in
          let high : length der ≤ 139 = ground (arith, usual) in
          let (tag, is_tag) = read_total {E = Refusal} der 0 (omega (arith, low)) in
          let p1 = rw (usual, is_tag) at p in
          elim (Bool-cases (tag == 0x30)) [
            | inr other ↦ (let p2 = rw other at p1 in cc)
            | inl sequence ↦
                let is_sequence : tag ≡ 0x30 = ground (arith, sequence) in
                numbers low high (is_tag ∙ ap ok is_sequence) (rw sequence at p1)
          ]
    ]
