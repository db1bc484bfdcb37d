-- ===== src/Signature.antt =====
-- windows/common/CryptoEngine.h and CryptoEngine.cpp: signatures in DER or raw form and their
-- verification; windows/common/PublicKeyImporter.cpp: the import of public keys. Windows CNG
-- itself is the interface `Cng`.
pub mod Bounds
pub mod Integers
pub mod RoundTrip
use phonekey.Prelude.{
  ℕ, zero, suc, ◌+◌, ◌-◌, Bool, not, ◌&&◌, ◌||◌, List, Option, none, some, ltb, leb, ◌==◌,
  if◌then◌else◌, length, replicate, Result, ok, err, ◌>>=◌, ◌>>◌, fail_if, read, read_bytes,
}
use phonekey.Prelude.Writes.{memcpy}

-- `return false`
pub data Refusal : Type 0 where
  refused : Refusal

-- The 0x02 tag and the length of an INTEGER whose tag is expected at `idx`.
unfoldable pub read_integer : List ℕ → ℕ → ℕ → Result Refusal ℕ
read_integer der size idx = do
  fail_if (leb size idx) refused
  tag ← read der idx
  fail_if (not (tag == 0x02)) refused
  len ← read der (idx + 1)
  fail_if (ltb size (idx + 2 + len)) refused
  ok len

-- `while (len > 32 && bytes[0] == 0x00) { bytes++; len--; }`: the start and the length.
unfoldable pub strip_zeros : List ℕ → ℕ → ℕ → Result Refusal (ℕ × ℕ)
strip_zeros der start zero = ok (start, 0)
strip_zeros der start (suc n) =
    let rest = strip_zeros der (start + 1) n in
    if ltb 32 (suc n)
    then (read der start >>= λ b. if b == 0x00 then rest else ok (start, suc n))
    else ok (start, suc n)

-- `CryptoEngine::ConvertDerToRawRSignature` at a non-null pointer.
unfoldable pub convert_der_to_raw : List ℕ → ℕ → Result Refusal (List ℕ)
unfolding read_integer strip_zeros
convert_der_to_raw der size = do
  fail_if (ltb size 8 || ltb 139 size) refused
  tag ← read der 0
  fail_if (not (tag == 0x30)) refused
  r_len ← read_integer der size 2
  s_len ← read_integer der size (4 + r_len)
  r ← strip_zeros der 4 r_len
  s ← strip_zeros der (6 + r_len) s_len
  fail_if (ltb 32 r.1 || ltb 32 s.1) refused
  r_bytes ← read_bytes der r.0 r.1
  s_bytes ← read_bytes der s.0 s.1
  let raw_rs = memcpy (32 - r.1) r_bytes r.1 (replicate 64 0)
  ok (memcpy (32 + (32 - s.1)) s_bytes s.1 raw_rs)

-- The calls of Windows CNG: a SHA-256 digest (`none` when a call fails), the verification of a raw
-- signature of a digest under a key handle, and the import of the 64 bytes of a P-256 point, which
-- returns a handle or NULL. A handle is a number, and NULL is zero.
pub record Cng : Type 0 where
  pub sha256 : List ℕ → Option (List ℕ)
  pub verify_hash : ℕ → List ℕ → List ℕ → Bool
  pub import_key_pair : List ℕ → ℕ

-- `CryptoEngine::VerifySignature` on a signature buffer of exactly `signatureSize` bytes.
unfoldable pub verify_signature : Cng → ℕ → List ℕ → List ℕ → Result Refusal Bool
unfolding convert_der_to_raw
verify_signature cng key payload signature = do
  fail_if (key == 0 || length payload == 0 || length signature == 0) refused
  hash ← elim (cng.sha256 payload) [ none ↦ err refused | some hash ↦ ok hash ]
  raw_rs ←
      if length signature == 64
      then ok signature
      else convert_der_to_raw signature (length signature)
  ok (cng.verify_hash key hash raw_rs)

-- `PublicKeyImporter::ImportRawPublicKey` with an open algorithm provider.
unfoldable pub import_raw_public_key : Cng → List ℕ → ℕ → Result Refusal ℕ
import_raw_public_key cng bytes size = do
  fail_if (not (size == 64) && not (size == 65)) refused
  marker ← if size == 65 then read bytes 0 else ok 0
  xy ← read_bytes bytes (if marker == 0x04 then 1 else 0) 64
  ok (cng.import_key_pair xy)

-- The loop of `PublicKeyImporter::ImportDerPublicKey`, with `left` positions to try from `i` on. The
-- first point that CNG imports is the key.
unfoldable pub import_loop : Cng → List ℕ → ℕ → ℕ → ℕ → Result Refusal ℕ
unfolding import_raw_public_key
import_loop cng bytes size i zero = ok 0
import_loop cng bytes size i (suc left) =
    let rest = import_loop cng bytes size (i + 1) left in
    let here = (do
      xy ← read_bytes bytes i 64
      key ← import_raw_public_key cng xy 64
      if key == 0 then rest else ok key) in
    if leb 65 (size - i)
    then (do
      b ← read bytes i
      if b == 0x04
          then (do
            xy ← read_bytes bytes (i + 1) 64
            key ← import_raw_public_key cng xy 64
            if key == 0 then here else ok key)
          else here)
    else here

-- `PublicKeyImporter::ImportDerPublicKey` with an open algorithm provider.
unfoldable pub import_der_public_key : Cng → List ℕ → ℕ → Result Refusal ℕ
unfolding import_loop
import_der_public_key cng bytes size = do
  fail_if (ltb size 64) refused
  import_loop cng bytes size 0 (size - 64 + 1)
