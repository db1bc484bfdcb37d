-- ===== src/Signature/RoundTrip.antt =====
-- `CryptoEngine::ConvertDerToRawRSignature` on signatures in DER.
use phonekey.Prelude.{
  ℕ, ◌+◌, ◌≡◌, refl, ap, ◌∙◌, arith, false, ◌||◌, List, [], ◌∷◌, ◌++◌, append_assoc, length,
  length-append, length-replicate, replicate, ltb, le→ltb, ok, read-append_head, read_bytes,
}
use phonekey.Signature.{Refusal, read_integer, strip_zeros, convert_der_to_raw}
use phonekey.Signature.Integers.{
  IsInteger, integer, der_signature, in_32_bytes, integer_read, stripped, value_read, aligned,
}

module _ (total r_pad s_pad : ℕ) (r s : List ℕ) (ir : IsInteger r_pad r)
    (is : IsInteger s_pad s) where
  abbrev der : List ℕ
  der = der_signature total r_pad r s_pad s

  abbrev r_len : ℕ
  r_len = r_pad + length r

  abbrev s_len : ℕ
  s_len = s_pad + length s

  abbrev to_s : List ℕ
  to_s = 0x30 ∷ total ∷ 0x02 ∷ r_len ∷ (replicate r_pad 0 ++ r)

  at_s : to_s ++ integer s_pad s [] ≡ der
  at_s =
      ap (λ l. 0x30 ∷ total ∷ 0x02 ∷ r_len ∷ l)
        (append_assoc (replicate r_pad 0) r (integer s_pad s []))

  in_s : (to_s ++ (0x02 ∷ s_len ∷ [])) ++ (replicate s_pad 0 ++ (s ++ [])) ≡ der
  in_s = append_assoc to_s (0x02 ∷ s_len ∷ []) (replicate s_pad 0 ++ (s ++ [])) ∙ at_s

  length-to_s : length to_s ≡ 4 + r_len
  length-to_s =
      omega (arith, length-append {0} (replicate r_pad 0) r, length-replicate {A = ℕ} r_pad 0)

  length-in_s : length (to_s ++ (0x02 ∷ s_len ∷ [])) ≡ 6 + r_len
  length-in_s = omega (arith, length-to_s, length-append {0} to_s (0x02 ∷ s_len ∷ []))

  length-der : length der ≡ 6 + r_len + s_len
  length-der = omega (
    arith,
    ap (length {A = ℕ}) in_s,
    length-in_s,
    length-append {0} (to_s ++ (0x02 ∷ s_len ∷ [])) (replicate s_pad 0 ++ (s ++ [])),
    length-append {0} (replicate s_pad 0) (s ++ []),
    length-append {0} s [],
    length-replicate {A = ℕ} s_pad 0,
  )

  abbrev r_front : List ℕ
  r_front = 0x30 ∷ total ∷ 0x02 ∷ r_len ∷ []

  converted :
      (size : ℕ)
      → size ≡ 6 + r_len + s_len
      → convert_der_to_raw der size ≡ ok (in_32_bytes r ++ in_32_bytes s)
  unfolding convert_der_to_raw
  converted size e =
      let usual : (ltb size 8 || ltb 139 size) ≡ false =
        ground (arith, e, ir.at_least, ir.at_most, ir.sign, is.at_least, is.at_most, is.sign) in
      let sequence =
        read-append_head {E = Refusal} [] (total ∷ integer r_pad r (integer s_pad s [])) 0 0x30
          refl in
      let r_read : read_integer der size 2 ≡ ok r_len =
        integer_read (0x30 ∷ total ∷ []) (replicate r_pad 0 ++ (r ++ integer s_pad s [])) size 2
          r_len refl (omega arith) in
      let s_read : read_integer der size (4 + r_len) ≡ ok s_len = rw at_s at (
        integer_read to_s (replicate s_pad 0 ++ (s ++ [])) size (4 + r_len) s_len length-to_s
          (omega arith)) in
      let r_strip : strip_zeros der 4 r_len ≡ ok (4 + r_pad, length r) =
        stripped r_front (integer s_pad s []) r 4 refl ir.at_most r_pad ir.sign in
      let s_strip : strip_zeros der (6 + r_len) s_len ≡ ok (6 + r_len + s_pad, length s) =
        rw in_s at (
          stripped (to_s ++ (0x02 ∷ s_len ∷ [])) [] s (6 + r_len) length-in_s is.at_most s_pad
            is.sign) in
      let r_bytes : read_bytes {E = Refusal} der (4 + r_pad) (length r) ≡ ok r =
        value_read r_front (integer s_pad s []) r 4 refl ir.at_most r_pad in
      let s_bytes : read_bytes {E = Refusal} der (6 + r_len + s_pad) (length s) ≡ ok s =
        rw in_s at (
          value_read (to_s ++ (0x02 ∷ s_len ∷ [])) [] s (6 + r_len) length-in_s is.at_most s_pad) in
      rw
        (
          usual,
          sequence,
          r_read,
          s_read,
          r_strip,
          s_strip,
          le→ltb 32 (length r) ir.at_most,
          le→ltb 32 (length s) is.at_most,
          r_bytes,
          s_bytes,
        )
        (ap ok (aligned r s ir.at_most is.at_most))

  -- ConvertDerToRawRSignature gives r and s in 32 bytes each, for a signature in DER whose numbers
  -- have at most 32 bytes and a zero in front only where DER puts one, whatever length the sequence
  -- claims.
  pub convert_der_to_raw-der_signature :
      convert_der_to_raw
        (der_signature total r_pad r s_pad s)
        (length (der_signature total r_pad r s_pad s))
      ≡ ok (in_32_bytes r ++ in_32_bytes s)
  convert_der_to_raw-der_signature = converted (length der) length-der
