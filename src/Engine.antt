-- ===== src/Engine.antt =====
-- windows/common/CryptoEngine.cpp: the algorithm providers and the hash object of the engine. What
-- the calls of Windows CNG return is an argument. A call that fails leaves its output as it was.
pub mod Releases
pub mod Random
use phonekey.Prelude.{
  ℕ, ◌||◌, Bool, true, false, List, [], ◌∷◌, ◌++◌, Option, none, some, ◌==◌, if◌then◌else◌, length,
}

-- The members. `none` stands for NULL.
pub record CryptoEngine : Type 0 where
  pub ecdsa_alg : Option ℕ
  pub rng_alg : Option ℕ
  pub sha256_alg : Option ℕ

-- `CryptoEngine::CryptoEngine`
abbrev pub new_engine : CryptoEngine
new_engine = record { ecdsa_alg = none; rng_alg = none; sha256_alg = none }

-- What happens to the handles of providers and of hash objects.
pub data HandleEffect : Type 0 where
  provider_opened provider_closed hash_made hash_destroyed : ℕ → HandleEffect

-- `if (handle) BCryptCloseAlgorithmProvider(handle, 0);`
unfoldable pub close_provider : Option ℕ → List HandleEffect
close_provider none = []
close_provider (some handle) = provider_closed handle ∷ []

-- `~CryptoEngine`
unfoldable pub destroy_engine : CryptoEngine → List HandleEffect
destroy_engine engine =
    close_provider engine.ecdsa_alg
    ++ (close_provider engine.rng_alg ++ close_provider engine.sha256_alg)

-- `Initialize`: what the three calls of `BCryptOpenAlgorithmProvider` return. The first that fails is
-- the last one that is made.
unfoldable pub initialize :
    Option ℕ → Option ℕ → Option ℕ → CryptoEngine → Bool × CryptoEngine × List HandleEffect
initialize none rng sha engine = (false, engine, [])
initialize (some ecdsa) none sha engine =
    (false, record engine { ecdsa_alg = some ecdsa }, provider_opened ecdsa ∷ [])
initialize (some ecdsa) (some rng) none engine = (
  false,
  record engine { ecdsa_alg = some ecdsa; rng_alg = some rng },
  provider_opened ecdsa ∷ provider_opened rng ∷ [],
)
initialize (some ecdsa) (some rng) (some sha) engine = (
  true,
  record { ecdsa_alg = some ecdsa; rng_alg = some rng; sha256_alg = some sha },
  provider_opened ecdsa ∷ provider_opened rng ∷ provider_opened sha ∷ [],
)

-- `GenerateRandomBytes` into a buffer, or at a null pointer: `random` is what `BCryptGenRandom` wrote.
unfoldable pub generate_random_bytes :
    Option (List ℕ) → ℕ → Option (List ℕ) → Bool × Option (List ℕ)
generate_random_bytes none size random = (false, none)
generate_random_bytes (some buffer) size none = (false, some buffer)
generate_random_bytes (some buffer) size (some bytes) =
    if size == 0 then (false, some buffer) else (true, some bytes)

-- The hash of `VerifySignature`: what `BCryptCreateHash`, `BCryptHashData` and `BCryptFinishHash`
-- return.
unfoldable pub hash_payload :
    Option ℕ → Bool → Option (List ℕ) → Option (List ℕ) × List HandleEffect
hash_payload none hashed digest = (none, [])
hash_payload (some hash) false digest = (none, hash_made hash ∷ hash_destroyed hash ∷ [])
hash_payload (some hash) true digest = (digest, hash_made hash ∷ hash_destroyed hash ∷ [])
