-- ===== src/Agent/Payload.antt =====
-- The bytes of an unlock request.
use phonekey.Prelude.{
  ℕ, zero, suc, ◌+◌, ◌-◌, ◌*◌, ◌≡◌, refl, ap, arith, List, [], ◌∷◌, ◌++◌, append_assoc, length,
  length-append, set, replicate,
}
use phonekey.Prelude.Words.{byte_at, be64, be_bytes}
use phonekey.Prelude.Writes.{memcpy-cursor}
use phonekey.Challenge.{ChallengeRecord}
use phonekey.Agent.{write_times, request_payload}

set-behind :
    (front xs : List ℕ) (n k b : ℕ)
    → length front ≡ n
    → set (front ++ xs) (n + k) b ≡ front ++ set xs k b
set-behind [] xs zero k b h = let e : 0 + k ≡ k = omega arith in rw e
set-behind [] xs (suc n) k b h = absurd (omega arith)
set-behind (x ∷ front) xs zero k b h = absurd (omega arith)
set-behind (x ∷ front) xs (suc n) k b h =
    let e : suc n + k ≡ suc (n + k) = omega arith in
    rw e (ap (◌∷◌ x) (set-behind front xs n k b (omega arith)))

-- The loop over the timestamps, on the part of the payload behind byte 64.
abbrev times : ℕ → ℕ → ℕ → List ℕ → List ℕ
times zero created expires tail = tail
times (suc i) created expires tail =
    times i created expires
      (set (set tail (7 - i) (byte_at created (i * 8))) (8 + (7 - i)) (byte_at expires (i * 8)))

write_times-times :
    (i created expires : ℕ) (front tail : List ℕ)
    → length front ≡ 64
    → write_times i created expires (front ++ tail) ≡ front ++ times i created expires tail
unfolding write_times
write_times-times zero created expires front tail h = refl
write_times-times (suc i) created expires front tail h =
    let second : 72 + (7 - i) ≡ 64 + (8 + (7 - i)) = omega arith in
    let created_byte = byte_at created (i * 8) in
    rw
      (
        set-behind front tail 64 (7 - i) created_byte h,
        second,
        set-behind front (set tail (7 - i) created_byte) 64 (8 + (7 - i)) (byte_at expires (i * 8))
            h,
      )
      (write_times-times i created expires front _ h)

times_written :
    (created expires : ℕ) → times 8 created expires (replicate 16 0) ≡ be64 created ++ be64 expires
unfolding be_bytes
times_written created expires = refl

-- An unlock request is the session, the PC, the nonce and the two timestamps, each most significant
-- byte first, one after the other in 80 bytes.
request_payload-layout :
    (rec : ChallengeRecord)
    → length rec.session_id ≡ 16
    → length rec.pc_id ≡ 16
    → length rec.challenge ≡ 32
    → request_payload rec
      ≡ rec.session_id
        ++ (rec.pc_id
            ++ (rec.challenge
                ++ (be64 rec.creation_timestamp_ms ++ be64 rec.expiration_timestamp_ms)))
unfolding request_payload
request_payload-layout rec hs hp hc =
    let front = (rec.session_id ++ rec.pc_id) ++ rec.challenge in
    let two : length (rec.session_id ++ rec.pc_id) ≡ 32 =
      omega (arith, length-append {0} rec.session_id rec.pc_id) in
    let three : length front ≡ 64 =
      omega (arith, length-append {0} (rec.session_id ++ rec.pc_id) rec.challenge) in
    rw
      (
        memcpy-cursor rec.session_id [] 0 16 64 80 refl hs refl,
        memcpy-cursor rec.pc_id rec.session_id 16 16 48 64 hs hp refl,
        memcpy-cursor rec.challenge (rec.session_id ++ rec.pc_id) 32 32 16 48 two hc refl,
        write_times-times 8 rec.creation_timestamp_ms rec.expiration_timestamp_ms front
            (replicate 16 0) three,
        times_written rec.creation_timestamp_ms rec.expiration_timestamp_ms,
      )
      (simp append_assoc)
