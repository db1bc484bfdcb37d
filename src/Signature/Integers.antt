-- ===== src/Signature/Integers.antt =====
-- `CryptoEngine::ConvertDerToRawRSignature` on one number of a signature in DER.
use phonekey.Prelude.{
  ℕ, zero, suc, ◌+◌, ◌-◌, ◌≤◌, ◌<◌, ◌≡◌, ◌⊎◌, inl, inr, refl, sym, ap, ◌∙◌, arith, false, List, [],
  ◌∷◌, ◌++◌, append_assoc, append-nil, length, length-append, length-replicate, replicate, leb,
  le→ltb, lt→ltb, ok, read-append_head, read_bytes, read_bytes-append,
}
use phonekey.Prelude.Writes.{memcpy, memcpy-cursor}
use phonekey.Signature.{Refusal, read_integer, strip_zeros}

-- A number of at most 32 bytes, and the zeros that DER puts in front of it: at most one, where the
-- number has all 32 bytes.
pub record IsInteger (pad : ℕ) (v : List ℕ) : Type 0 where
  pub at_least : 1 ≤ pad + length v
  pub at_most : length v ≤ 32
  pub sign : (pad ≡ 0) ⊎ ((pad ≡ 1) × (length v ≡ 32))

-- An INTEGER of DER in front of some bytes.
abbrev pub integer : ℕ → List ℕ → List ℕ → List ℕ
integer pad v back = 0x02 ∷ (pad + length v) ∷ (replicate pad 0 ++ (v ++ back))

-- A signature in DER: a sequence of r and s.
abbrev pub der_signature : ℕ → ℕ → List ℕ → ℕ → List ℕ → List ℕ
der_signature total r_pad r s_pad s = 0x30 ∷ total ∷ integer r_pad r (integer s_pad s [])

-- A number in 32 bytes.
abbrev pub in_32_bytes : List ℕ → List ℕ
in_32_bytes v = replicate (32 - length v) 0 ++ v

leb-false : (a b : ℕ) → b < a → leb a b ≡ false
leb-false a b h = ground arith

pub integer_read :
    (front tail : List ℕ) (size idx len : ℕ)
    → length front ≡ idx
    → idx + 2 + len ≤ size
    → read_integer (front ++ (0x02 ∷ len ∷ tail)) size idx ≡ ok len
unfolding read_integer
integer_read front tail size idx len h room =
    let tag = read-append_head {E = Refusal} front (len ∷ tail) idx 0x02 h in
    let behind : length (front ++ (0x02 ∷ [])) ≡ idx + 1 =
      omega (arith, h, length-append {0} front (0x02 ∷ [])) in
    let len_read =
      read-append_head {E = Refusal} (front ++ (0x02 ∷ [])) tail (idx + 1) len behind in
    let same : (front ++ (0x02 ∷ [])) ++ (len ∷ tail) ≡ front ++ (0x02 ∷ len ∷ tail) =
      append_assoc front (0x02 ∷ []) (len ∷ tail) in
    rw
      (leb-false size idx (omega arith), tag, rw same at len_read, le→ltb size (idx + 2 + len) room)
      refl

stripped_value :
    (der v : List ℕ) (start : ℕ)
    → length v ≤ 32
    → strip_zeros der start (length v) ≡ ok (start, length v)
unfolding strip_zeros
stripped_value der [] start h = refl
stripped_value der (b ∷ v) start h = rw (le→ltb 32 (suc (length v)) h) refl

module _ (front back v : List ℕ) (start : ℕ) (h : length front ≡ start) (most : length v ≤ 32) where
  stripped_none : strip_zeros (front ++ (v ++ back)) start (0 + length v) ≡ ok (start + 0, length v)
  stripped_none =
      let e : 0 + length v ≡ length v = omega arith in
      let e' : start + 0 ≡ start = omega arith in
      rw (e, e') (stripped_value (front ++ (v ++ back)) v start most)

  stripped_one :
      length v ≡ 32
      → strip_zeros (front ++ (0 ∷ (v ++ back))) start (1 + length v) ≡ ok (start + 1, length v)
  unfolding strip_zeros
  stripped_one full =
      let e : 1 + length v ≡ suc (length v) = omega arith in
      let longer = lt→ltb 32 (suc (length v)) (omega (arith, full)) in
      let sign = read-append_head {E = Refusal} front (v ++ back) start 0 h in
      rw (e, longer, sign, stripped_value (front ++ (0 ∷ (v ++ back))) v (start + 1) most) refl

  pub stripped :
      (pad : ℕ)
      → (pad ≡ 0) ⊎ ((pad ≡ 1) × (length v ≡ 32))
      → strip_zeros (front ++ (replicate pad 0 ++ (v ++ back))) start (pad + length v)
        ≡ ok (start + pad, length v)
  stripped pad (inl none_in_front) = rw none_in_front stripped_none
  stripped pad (inr (sign, full)) = rw sign (stripped_one full)

  pub value_read :
      (pad : ℕ)
      → read_bytes {E = Refusal}
          (front ++ (replicate pad 0 ++ (v ++ back)))
          (start + pad)
          (length v)
        ≡ ok v
  value_read pad =
      let e : (front ++ replicate pad 0) ++ (v ++ back)
          ≡ front ++ (replicate pad 0 ++ (v ++ back)) =
        append_assoc front (replicate pad 0) (v ++ back) in
      let size : length (front ++ replicate pad 0) ≡ start + pad =
        omega
          (arith, h, length-append {0} front (replicate pad 0), length-replicate {A = ℕ} pad 0) in
      rw e at (
        read_bytes-append {E = Refusal} (front ++ replicate pad 0) v back (start + pad) (length v)
          size refl)

replicate-append : (m n : ℕ) → replicate {A = ℕ} (m + n) 0 ≡ replicate m 0 ++ replicate n 0
replicate-append zero n = let e : 0 + n ≡ n = omega arith in rw e refl
replicate-append (suc m) n =
    let e : suc m + n ≡ suc (m + n) = omega arith in rw e (ap (λ l. 0 ∷ l) (replicate-append m n))

-- The two copies into the 64 bytes.
pub aligned :
    (r s : List ℕ)
    → length r ≤ 32
    → length s ≤ 32
    → memcpy
        (32 + (32 - length s))
        s
        (length s)
        (memcpy (32 - length r) r (length r) (replicate 64 0))
      ≡ in_32_bytes r ++ in_32_bytes s
aligned r s hr hs =
    let split : replicate {A = ℕ} 64 0
        ≡ replicate (32 - length r) 0 ++ replicate (length r + 32) 0 =
      (let e : 64 ≡ 32 - length r + (length r + 32) = omega arith in
        ap (λ n. replicate {A = ℕ} n 0) e ∙ replicate-append (32 - length r) (length r + 32)) in
    let first : memcpy (32 - length r) r (length r) (replicate 64 0)
        ≡ in_32_bytes r ++ replicate 32 0 =
      rw split (
        memcpy-cursor r (replicate (32 - length r) 0) (32 - length r) (length r) 32 (length r + 32)
          (length-replicate {A = ℕ} (32 - length r) 0) refl refl) in
    let split' : in_32_bytes r ++ replicate 32 0
        ≡ (in_32_bytes r ++ replicate (32 - length s) 0) ++ replicate (length s) 0 =
      (let e : 32 ≡ 32 - length s + length s = omega arith in
        ap (λ n. in_32_bytes r ++ replicate {A = ℕ} n 0) e
        ∙ ap (◌++◌ (in_32_bytes r)) (replicate-append (32 - length s) (length s))
        ∙ sym (
            append_assoc (in_32_bytes r) (replicate (32 - length s) 0) (replicate (length s) 0))) in
    let size : length (in_32_bytes r ++ replicate (32 - length s) 0) ≡ 32 + (32 - length s) =
      omega (
        arith,
        length-append {0} (in_32_bytes r) (replicate (32 - length s) 0),
        length-append {0} (replicate (32 - length r) 0) r,
        length-replicate {A = ℕ} (32 - length s) 0,
        length-replicate {A = ℕ} (32 - length r) 0,
      ) in
    ap (memcpy (32 + (32 - length s)) s (length s)) (first ∙ split')
    ∙ memcpy-cursor s (in_32_bytes r ++ replicate (32 - length s) 0) (32 + (32 - length s))
        (length s) 0 (length s) size refl (omega arith)
    ∙ append-nil ((in_32_bytes r ++ replicate (32 - length s) 0) ++ s)
    ∙ append_assoc (in_32_bytes r) (replicate (32 - length s) 0) s
