-- ===== src/Engine/Random.antt =====
-- windows/agent/ChallengeGenerator.cpp with windows/common/CryptoEngine.cpp: a challenge from what the
-- random generator of Windows returns.
use phonekey.Prelude.{ℕ, ◌≡◌, refl, Bool, List, Option, none, some}
use phonekey.Protocol.{uuid_size, challenge_size}
use phonekey.Challenge.{ChallengeRecord, generate_challenge}
use phonekey.Engine.{generate_random_bytes}

abbrev left_in : List ℕ → Bool × Option (List ℕ) → List ℕ
left_in before (answer, none) = before
left_in before (answer, some bytes) = bytes

-- `GenerateChallenge`: `session` and `nonce` are what the arrays of the new record hold before they are
-- filled. The answers of the two calls are not looked at.
unfoldable generate_with :
    Option (List ℕ) → Option (List ℕ) → List ℕ → List ℕ → ℕ → List ℕ → List ℕ → ChallengeRecord
generate_with random random' session nonce now_ms device_id pc_id =
    generate_challenge (left_in session (generate_random_bytes (some session) uuid_size random))
      (left_in nonce (generate_random_bytes (some nonce) challenge_size random')) now_ms device_id
      pc_id

-- When the random generator works, the session and the challenge are its bytes; when it fails, they are
-- what the memory of the record held before, and the challenge is used all the same.
generate_with_random :
    (session nonce old old' : List ℕ) (now_ms : ℕ) (device_id pc_id : List ℕ)
    → (generate_with (some session) (some nonce) old old' now_ms device_id pc_id
        ≡ generate_challenge session nonce now_ms device_id pc_id)
      × (generate_with none none old old' now_ms device_id pc_id
          ≡ generate_challenge old old' now_ms device_id pc_id)
unfolding generate_with generate_random_bytes
generate_with_random session nonce old old' now_ms device_id pc_id = (refl, refl)
