-- ===== src/Challenge/Lifetime.antt =====
-- A generated challenge, from `GenerateChallenge` through `AddChallenge` to its consumption.
use phonekey.Prelude.{ℕ, ◌+◌, ◌^◌, ◌<◌, ◌≡◌, arith, List, some, leb, if◌then◌else◌, same_bytes_refl}
use phonekey.Prelude.Map.{find, find-assign_self}
use phonekey.Protocol.{success, challenge_expired, default_challenge_ttl_ms}
use phonekey.Challenge.{
  ChallengeStore, ChallengeRecord, Request, session_key, consume_record, add_challenge,
  generate_challenge, validate_and_consume_challenge,
}
use phonekey.Challenge.Verdict.{consume_found}

-- A request that repeats what the agent sent.
abbrev pub echo : List ℕ → List ℕ → List ℕ → List ℕ → ℕ → Request
echo session nonce device_id pc_id now = record {
  session_id = session;
  device_id = device_id;
  pc_id = pc_id;
  challenge = nonce;
  current_time_ms = now;
}

module _ (session nonce device_id pc_id : List ℕ) (created now : ℕ)
    (fits : created + default_challenge_ttl_ms < 2 ^ 64) where
  abbrev generated : ChallengeRecord
  generated = generate_challenge session nonce created device_id pc_id

  abbrev answer : Request
  answer = echo session nonce device_id pc_id now

  consume_generated :
      (consume_record generated answer).0
      ≡ (if leb now (created + 30000) then success else challenge_expired)
  unfolding consume_record generate_challenge
  consume_generated =
      ground (arith, same_bytes_refl device_id, same_bytes_refl pc_id, same_bytes_refl nonce)

-- A challenge that the generator made at `created`, added to any store, is granted to the request
-- that repeats it exactly while at most 30 seconds have passed; after that the answer is that it
-- expired.
generated_lifetime :
    (store : ChallengeStore) (session nonce device_id pc_id : List ℕ) (created now : ℕ)
    → created + default_challenge_ttl_ms < 2 ^ 64
    → (validate_and_consume_challenge
        (add_challenge store (generate_challenge session nonce created device_id pc_id))
        (echo session nonce device_id pc_id now)).0
      ≡ (if leb now (created + 30000) then success else challenge_expired)
unfolding add_challenge
generated_lifetime store session nonce device_id pc_id created now fits =
    let rec = generate_challenge session nonce created device_id pc_id in
    let stored : find (session_key session) (add_challenge store rec) ≡ some rec =
      unfold generate_challenge in find-assign_self (session_key session) rec store in
    let found =
      (consume_found (add_challenge store rec) (echo session nonce device_id pc_id now) rec
        stored).1 in
    rw found (consume_generated session nonce device_id pc_id created now fits)
