-- ===== src/Protocol/Rejection.antt =====
-- What `AuthPayload::Deserialize` refuses, and that it reads nothing outside its buffer.
use phonekey.Prelude.{
  ok-ne-fault, err, not, same_bytes, fail_if-ne-err, >>=-ne-err, read_bytes-ne-err, >>=-ne-fault,
  fail_if-ne-fault, ℕ, ◌≤◌, ◌≡◌, ◌≢◌, List, some, none, arith, length, ok, err, fault,
  read_bytes_total, same_bytes→eq, ◌==◌, ==_iff, Bool-cases, inl, inr, false,
}
use phonekey.Prelude.Reads.{read_u16_total, read_u16-ne-err, read_u64-ne-err, read_u64_total}
use phonekey.Protocol.{
  AuthPayload, deserialize, deserialize_at, domain_prefix, invalid_request, success,
  current_protocol_version, algorithm_ecdsa_p256_sha256,
}

enough-ne-fault : (bytes : List ℕ) → 108 ≤ length bytes → deserialize_at bytes 108 ≢ fault
unfolding deserialize_at
enough-ne-fault bytes h =
    >>=-ne-fault _ _ (_, read_bytes_total bytes 0 16 (omega arith))
      λ domain. fail_if-ne-fault _ _ _ (
        >>=-ne-fault _ _ (read_u16_total bytes 16 (omega arith)) λ version. fail_if-ne-fault _ _ _ (
          >>=-ne-fault _ _ (read_u16_total bytes 18 (omega arith)) λ algorithm.
            fail_if-ne-fault _ _ _ (
              >>=-ne-fault _ _ (_, read_bytes_total bytes 20 16 (omega arith))
                λ device_id.
                  >>=-ne-fault _ _ (_, read_bytes_total bytes 36 16 (omega arith))
                    λ session_id.
                      >>=-ne-fault _ _ (_, read_bytes_total bytes 52 16 (omega arith))
                        λ pc_id.
                          >>=-ne-fault _ _ (_, read_bytes_total bytes 68 32 (omega arith))
                            λ challenge.
                              >>=-ne-fault _ _ (read_u64_total bytes 100 (omega arith))
                                λ expiration. ok-ne-fault _)))

wrong_size :
    (bytes : List ℕ) (size : ℕ)
    → (size == 108) ≡ false
    → deserialize_at bytes size ≡ err invalid_request
unfolding deserialize_at
wrong_size bytes size h = rw h

-- Deserialize never reads outside its buffer: neither at a null pointer nor at a buffer of the
-- size that it is told.
pub deserialize_safe :
    (bytes : List ℕ) (size : ℕ)
    → size ≤ length bytes
    → (deserialize none size ≢ fault) × (deserialize (some bytes) size ≢ fault)
unfolding deserialize
deserialize_safe bytes size h = (
  λ e. cc,
  elim (Bool-cases (size == 108)) [
    | inl same ↦
        let full : size ≡ 108 = (==_iff size 108).0 same in
        rw full (enough-ne-fault bytes (omega arith))
    | inr other ↦ rw (wrong_size bytes size other) (λ e. cc)
  ],
)

-- Whatever Deserialize accepts is 108 bytes, and carries the domain prefix, the current version
-- and the ECDSA algorithm.
deserialize_accepts :
    (bytes : List ℕ) (size : ℕ) (p : AuthPayload)
    → deserialize (some bytes) size ≡ ok p
    → (size ≡ 108)
      × (p.domain ≡ domain_prefix)
      × (p.protocol_version ≡ current_protocol_version)
      × (p.algorithm_id ≡ algorithm_ecdsa_p256_sha256)
unfolding deserialize
deserialize_accepts bytes size p e = ground (arith, same_bytes→eq p.domain domain_prefix)

-- An error code that `Deserialize` does not assign.
pub deserialize-ne-success :
    (bytes : List ℕ) (size : ℕ) → deserialize (some bytes) size ≢ err success
unfolding deserialize deserialize_at
deserialize-ne-success bytes size =
    fail_if-ne-err (not (size == 108)) _ success _ (λ p. cc)
      (>>=-ne-err _ _ success (read_bytes-ne-err bytes 0 16 success) λ domain.
        fail_if-ne-err (not (same_bytes domain domain_prefix)) _ success _ (λ p. cc)
          (>>=-ne-err _ _ success (read_u16-ne-err bytes 16 success) λ version.
            fail_if-ne-err (not (version == current_protocol_version)) _ success _ (λ p. cc)
              (>>=-ne-err _ _ success (read_u16-ne-err bytes 18 success) λ algorithm.
                fail_if-ne-err (not (algorithm == algorithm_ecdsa_p256_sha256)) _ success _
                  (λ p. cc)
                  (>>=-ne-err _ _ success (read_bytes-ne-err bytes 20 16 success) λ device_id.
                    >>=-ne-err _ _ success (read_bytes-ne-err bytes 36 16 success) λ session_id.
                      >>=-ne-err _ _ success (read_bytes-ne-err bytes 52 16 success) λ pc_id.
                        >>=-ne-err _ _ success (read_bytes-ne-err bytes 68 32 success) λ challenge.
                          >>=-ne-err _ _ success (read_u64-ne-err bytes 100 success)
                            λ expiration p. cc))))
