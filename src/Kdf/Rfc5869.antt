-- ===== src/Kdf/Rfc5869.antt =====
-- `HkdfEngine::Expand` against section 2.3 of RFC 5869.
use phonekey.Prelude.{
  ℕ, zero, suc, ◌+◌, ◌-◌, ◌*◌, ◌/◌, ◌≤◌, ◌<◌, ◌≡◌, ◌≢◌, refl, sym, ap, ◌∙◌, inl, inr, arith, false,
  List, [], ◌∷◌, ◌++◌, append_assoc, append-nil, some, Bool-cases, ltb, le→ltb, ltb→le, ltb→lt,
  ◌==◌, ==_false, length, length-append, length-take, take, take_all, take-append_left, min,
}
use phonekey.Prelude.Words.{u8}
use phonekey.Kdf.{Hmac, hmac_sha256, expand_loop, expand}

abbrev pub Mac : Type 0
Mac = List ℕ → List ℕ → List ℕ

-- HMAC-SHA256 with a key always succeeds with 32 bytes.
pub record IsHmac (hmac : Hmac) (mac : Mac) : Type 0 where
  pub gives : (key bytes : List ℕ) → hmac key bytes ≡ some (mac key bytes)
  pub mac_size : (key bytes : List ℕ) → length (mac key bytes) ≡ 32

-- T(i), T(i + 1), … of the RFC, `n` of them, where `t` is T(i - 1): each is the MAC of the one before,
-- the info and its number as one byte.
unfoldable pub blocks : Mac → List ℕ → List ℕ → ℕ → List ℕ → ℕ → List ℕ
blocks mac prk info zero t i = []
blocks mac prk info (suc n) t i =
    let block = mac prk ((t ++ info) ++ (i ∷ [])) in block ++ blocks mac prk info n block (i + 1)

take-append_more :
    (xs ys : List ℕ) (n m : ℕ) → length xs ≡ n → take (n + m) (xs ++ ys) ≡ xs ++ take m ys
take-append_more [] ys n m h = let e : n + m ≡ m = omega (arith, h) in rw e refl
take-append_more (x ∷ xs) ys zero m h = absurd (omega arith)
take-append_more (x ∷ xs) ys (suc n) m h =
    let e : suc n + m ≡ suc (n + m) = omega arith in
    rw e (ap (λ l. x ∷ l) (take-append_more xs ys n m (omega arith)))

-- A pass copies what fits of a block of 32 bytes.
copied :
    (okm block rest : List ℕ) (out_len : ℕ)
    → length block ≡ 32
    → length okm ≤ out_len
    → (okm ++ take (min 32 (out_len - length okm)) block)
        ++ take (out_len - length (okm ++ take (min 32 (out_len - length okm)) block)) rest
      ≡ okm ++ take (out_len - length okm) (block ++ rest)
copied okm block rest out_len size room = elim (Bool-cases (ltb 32 (out_len - length okm))) [
  | inl more ↦
      let lt : 32 < out_len - length okm = ltb→lt _ _ more in
      let all : min 32 (out_len - length okm) ≡ 32 = omega arith in
      let whole : take 32 block ≡ block = take_all 32 block size in
      let left : out_len - length (okm ++ block) ≡ out_len - length okm - 32 =
        omega (arith, length-append okm block, size) in
      let again : 32 + (out_len - length okm - 32) ≡ out_len - length okm = omega arith in
      rw (all, whole, left)
        (append_assoc okm block (take (out_len - length okm - 32) rest)
          ∙ ap (◌++◌ okm) (
              sym (take-append_more block rest 32 (out_len - length okm - 32) size)
              ∙ ap (λ n. take n (block ++ rest)) again))
  | inr last ↦
      let le : out_len - length okm ≤ 32 = ltb→le _ _ last in
      let all : min 32 (out_len - length okm) ≡ out_len - length okm = omega arith in
      let taken : length (take (out_len - length okm) block) ≡ out_len - length okm =
        length-take (out_len - length okm) block (omega (arith, size)) in
      let left : out_len - length (okm ++ take (out_len - length okm) block) ≡ 0 =
        omega (arith, length-append okm (take (out_len - length okm) block), taken) in
      rw (all, left)
        (append-nil (okm ++ take (out_len - length okm) block)
          ∙ ap (◌++◌ okm)
              (sym (take-append_left (out_len - length okm) block rest (omega (arith, size)))))
]

module _ (hmac : Hmac) (mac : Mac) (h : IsHmac hmac mac) (prk info : List ℕ) (out_len : ℕ)
    (keyed : (length prk == 0) ≡ false) where
  block_of : (bytes : List ℕ) → hmac_sha256 hmac prk bytes ≡ mac prk bytes
  unfolding hmac_sha256
  block_of bytes = rw (keyed, h.gives prk bytes) refl

  -- A loop that has all bytes.
  finished :
      (fuel n counter : ℕ) (okm t : List ℕ)
      → length okm ≡ out_len
      → expand_loop hmac prk info out_len fuel okm t counter
        ≡ some (okm ++ take (out_len - length okm) (blocks mac prk info n t counter))
  unfolding expand_loop
  finished fuel n counter okm t e =
      let nothing : out_len - length okm ≡ 0 = omega (arith, e) in
      let full = le→ltb (length okm) out_len (omega (arith, e)) in
      rw nothing (by_fuel fuel full ∙ ap (λ l. some l) (sym (append-nil okm)))
    where
      by_fuel :
          (fuel : ℕ)
          → ltb (length okm) out_len ≡ false
          → expand_loop hmac prk info out_len fuel okm t counter ≡ some okm
      by_fuel zero full = rw (full, expand_loop) refl
      by_fuel (suc fuel) full = rw (full, expand_loop) refl

  -- The number of a block fits into its byte wherever there is such a block.
  same_number :
      (n counter : ℕ) (t : List ℕ)
      → counter + suc n ≤ 256
      → blocks mac prk info n t (u8 (counter + 1)) ≡ blocks mac prk info n t (counter + 1)
  unfolding blocks
  same_number zero counter t room = refl
  same_number (suc n) counter t room =
      let e : u8 (counter + 1) ≡ counter + 1 = omega arith in rw e refl

  loop :
      (fuel n counter : ℕ) (okm t : List ℕ)
      → length okm ≤ out_len
      → out_len ≤ length okm + n * 32
      → out_len ≤ fuel + length okm
      → counter + n ≤ 256
      → expand_loop hmac prk info out_len fuel okm t counter
        ≡ some (okm ++ take (out_len - length okm) (blocks mac prk info n t counter))
  unfolding expand_loop blocks
  loop zero n counter okm t below enough fuelled room = finished zero n counter okm t (omega arith)
  loop (suc fuel) zero counter okm t below enough fuelled room =
      finished (suc fuel) zero counter okm t (omega arith)
  loop (suc fuel) (suc n) counter okm t below enough fuelled room =
      elim (Bool-cases (ltb (length okm) out_len)) [
        | inr full ↦
            let le = ltb→le (length okm) out_len full in
            finished (suc fuel) (suc n) counter okm t (omega (arith, le))
        | inl more ↦
            let lt : length okm < out_len = ltb→lt _ _ more in
            let block = mac prk ((t ++ info) ++ (counter ∷ [])) in
            let size : length block ≡ 32 = h.mac_size prk ((t ++ info) ++ (counter ∷ [])) in
            let part = take (min 32 (out_len - length okm)) block in
            let taken : length part ≡ min 32 (out_len - length okm) =
              length-take (min 32 (out_len - length okm)) block (omega (arith, size)) in
            let grown : length (okm ++ part) ≡ length okm + min 32 (out_len - length okm) =
              omega (arith, length-append okm part, taken) in
            let next =
              loop fuel n (u8 (counter + 1)) (okm ++ part) block (omega (arith, grown))
                (omega (arith, grown)) (omega (arith, grown)) (omega arith) in
            rw (more, block_of ((t ++ info) ++ (counter ∷ [])), size, expand_loop)
              (next
                ∙ ap (λ rest. some ((okm ++ part) ++ take (out_len - length (okm ++ part)) rest))
                    (same_number n counter block room)
                ∙ ap (λ l. some l)
                    (copied okm block (blocks mac prk info n block (counter + 1)) out_len size
                      below))
      ]

-- For a key that is not empty and at most 255 blocks of 32 bytes, Expand gives the first bytes of
-- T(1), T(2), … of RFC 5869, as many as were asked for; HMAC-SHA256 is assumed to give 32 bytes.
pub expand-blocks :
    (hmac : Hmac) (mac : Mac) (h : IsHmac hmac mac) (prk info : List ℕ) (out_len : ℕ)
    → length prk ≢ 0
    → 1 ≤ out_len
    → out_len ≤ 255 * 32
    → expand hmac prk info out_len
      ≡ some (take out_len (blocks mac prk info ((out_len + 31) / 32) [] 1))
unfolding expand
expand-blocks hmac mac h prk info out_len keyed some_bytes few =
    let full : (length prk == 0) ≡ false = (==_false (length prk) 0).1 keyed in
    let more : (out_len == 0) ≡ false =
      (==_false out_len 0).1 (λ e. absurd (omega (arith, e, some_bytes))) in
    let all : out_len - 0 ≡ out_len = omega arith in
    rw (full, more)
      (loop hmac mac h prk info out_len full out_len ((out_len + 31) / 32) 1 [] [] (omega arith)
          (omega arith) (omega arith) (omega arith)
        ∙ ap (λ n. some (take n (blocks mac prk info ((out_len + 31) / 32) [] 1))) all)
