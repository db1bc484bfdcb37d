-- ===== src/Prelude/Writes.antt =====
-- Writes at an offset of a buffer, and what a run of them at a moving offset leaves in it.
use Prim.Native.Nat.{ℕ, zero, suc, ◌+◌, ◌*◌}
use mathlib.Core.Path.{◌≡◌, refl, ap, ◌∙◌}
use mathlib.Core.List.{List, [], ◌∷◌, ◌++◌, append_assoc, append-nil}
use native.Mathlib.Omega.{arith}
use phonekey.Prelude.Lists.{length, length-append, set, take, take_all, replicate}
use phonekey.Prelude.Words.{
  byte_at, be16, be32, be_bytes, length-be16, length-be32, length-be_bytes,
}

-- `buffer[i] = b; buffer[i + 1] = c; …`
unfoldable pub write : ℕ → List ℕ → List ℕ → List ℕ
write i [] buffer = buffer
write i (b ∷ bs) buffer = write (i + 1) bs (set buffer i b)

-- `std::memcpy(&buffer[i], source, n)`
unfoldable pub memcpy : ℕ → List ℕ → ℕ → List ℕ → List ℕ
memcpy i source n buffer = write i (take n source) buffer

-- The assignments of the bytes of a word, most significant first.
unfoldable pub write_u16 : ℕ → ℕ → List ℕ → List ℕ
write_u16 i x buffer = set (set buffer i (byte_at x 8)) (i + 1) (byte_at x 0)

unfoldable pub write_u32 : ℕ → ℕ → List ℕ → List ℕ
write_u32 i x buffer =
    set (set (set (set buffer i (byte_at x 24)) (i + 1) (byte_at x 16)) (i + 2) (byte_at x 8))
      (i + 3) (byte_at x 0)

-- `for (int j = left - 1; j >= 0; --j) buffer[i++] = byte j of x`
unfoldable pub write_loop : ℕ → ℕ → ℕ → List ℕ → List ℕ
write_loop zero i x buffer = buffer
write_loop (suc j) i x buffer = write_loop j (i + 1) x (set buffer i (byte_at x (j * 8)))

set-cursor :
    (front back : List ℕ) (i c b : ℕ)
    → length front ≡ i
    → set (front ++ (c ∷ back)) i b ≡ (front ++ (b ∷ [])) ++ back
set-cursor [] back zero c b h = refl
set-cursor [] back (suc i) c b h = absurd (omega arith)
set-cursor (x ∷ front) back zero c b h = absurd (omega arith)
set-cursor (x ∷ front) back (suc i) c b h = ap (◌∷◌ x) (set-cursor front back i c b (omega arith))

-- Writing at the cursor of a buffer whose rest is still zero fills the next bytes.
pub write-cursor :
    (source front : List ℕ) (i n m : ℕ)
    → length front ≡ i
    → length source + n ≡ m
    → write i source (front ++ replicate m 0) ≡ (front ++ source) ++ replicate n 0
unfolding write
write-cursor [] front i n m h e = ground (arith, append-nil front)
write-cursor (b ∷ bs) front i n zero h e = absurd (omega arith)
write-cursor (b ∷ bs) front i n (suc m) h e = rw (set-cursor front (replicate m 0) i 0 b h) (
    write-cursor bs (front ++ (b ∷ [])) (i + 1) n m
      (omega (arith, length-append {0} front (b ∷ []))) (omega arith)
    ∙ rw (append_assoc front (b ∷ []) bs))

pub memcpy-cursor :
    (source front : List ℕ) (i k n m : ℕ)
    → length front ≡ i
    → length source ≡ k
    → k + n ≡ m
    → memcpy i source k (front ++ replicate m 0) ≡ (front ++ source) ++ replicate n 0
unfolding memcpy
memcpy-cursor source front i k n m h hk e =
    rw (take_all k source hk) (write-cursor source front i n m h (omega arith))

pub write_u16-write : (i x : ℕ) (buffer : List ℕ) → write_u16 i x buffer ≡ write i (be16 x) buffer
unfolding write_u16 write be16
write_u16-write i x buffer = refl

pub write_u32-write : (i x : ℕ) (buffer : List ℕ) → write_u32 i x buffer ≡ write i (be32 x) buffer
unfolding write_u32 write be32
write_u32-write i x buffer =
    let two : i + 1 + 1 ≡ i + 2 = omega arith in
    let three : i + 2 + 1 ≡ i + 3 = omega arith in rw (two, three)

pub write_loop-write :
    (n i x : ℕ) (buffer : List ℕ) → write_loop n i x buffer ≡ write i (be_bytes n x) buffer
unfolding write_loop write be_bytes
write_loop-write zero i x buffer = refl
write_loop-write (suc n) i x buffer =
    write_loop-write n (i + 1) x (set buffer i (byte_at x (n * 8)))

module _ (front : List ℕ) (i x n m : ℕ) (h : length front ≡ i) where
  pub write_u16-cursor :
      2 + n ≡ m → write_u16 i x (front ++ replicate m 0) ≡ (front ++ be16 x) ++ replicate n 0
  write_u16-cursor e =
      rw write_u16-write (write-cursor (be16 x) front i n m h (omega (arith, length-be16 x)))

  pub write_u32-cursor :
      4 + n ≡ m → write_u32 i x (front ++ replicate m 0) ≡ (front ++ be32 x) ++ replicate n 0
  write_u32-cursor e =
      rw write_u32-write (write-cursor (be32 x) front i n m h (omega (arith, length-be32 x)))

  pub write_loop-cursor :
      (k : ℕ)
      → k + n ≡ m
      → write_loop k i x (front ++ replicate m 0) ≡ (front ++ be_bytes k x) ++ replicate n 0
  write_loop-cursor k e =
      rw write_loop-write
        (write-cursor (be_bytes k x) front i n m h (omega (arith, length-be_bytes k x)))

pub write_u8-cursor :
    (front : List ℕ) (i b n m : ℕ)
    → length front ≡ i
    → 1 + n ≡ m
    → set (front ++ replicate m 0) i b ≡ (front ++ (b ∷ [])) ++ replicate n 0
unfolding write
write_u8-cursor front i b n m h e = write-cursor (b ∷ []) front i n m h e
