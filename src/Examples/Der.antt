-- ===== src/Examples/Der.antt =====
-- Examples for DER signatures.
use phonekey.Prelude.{
  ◌≡◌, ◌↔◌, refl, arith, List, [], ◌∷◌, ℕ, fault, ok, ◌++◌, inl, inr, length, replicate,
}
use phonekey.Signature.{convert_der_to_raw}
use phonekey.Signature.Integers.{der_signature, in_32_bytes}
use phonekey.Signature.RoundTrip.{convert_der_to_raw-der_signature}
use phonekey.Signature.Bounds.{OverRead, convert_der_to_raw-fault}

-- A signature that ends behind the tag of s.
abbrev truncated : List ℕ
truncated = 0x30 ∷ 8 ∷ 0x02 ∷ 4 ∷ 1 ∷ 1 ∷ 1 ∷ 1 ∷ 0x02 ∷ []

convert_der_to_raw-fault_example :
    (convert_der_to_raw truncated (length truncated) ≡ fault) ↔ OverRead truncated
convert_der_to_raw-fault_example = convert_der_to_raw-fault truncated

-- A number with its top bit set, and a number of two bytes.
abbrev high : List ℕ
high = 0x80 ∷ replicate 31 7

abbrev low : List ℕ
low = 1 ∷ 2 ∷ []

convert_der_to_raw-der_signature_example :
    convert_der_to_raw (der_signature 39 1 high 0 low) (length (der_signature 39 1 high 0 low))
    ≡ ok (in_32_bytes high ++ in_32_bytes low)
convert_der_to_raw-der_signature_example =
    convert_der_to_raw-der_signature 39 1 0 high low
      (record { at_least = omega arith; at_most = omega arith; sign = inr (refl, refl) })
      (record { at_least = omega arith; at_most = omega arith; sign = inl refl })
