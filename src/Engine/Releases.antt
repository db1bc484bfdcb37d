-- ===== src/Engine/Releases.antt =====
-- The handles that an engine opens, holds and closes.
use phonekey.Prelude.{
  ℕ, ◌+◌, ◌≡◌, refl, ap, ◌∙◌, arith, Bool, true, false, List, [], ◌∷◌, ◌++◌, Option, none, some,
}
use phonekey.Prelude.Counting.{one, occurrences, occurrences-append}
use phonekey.Engine.{
  CryptoEngine, HandleEffect, provider_opened, provider_closed, hash_made, hash_destroyed,
  close_provider, destroy_engine, initialize, hash_payload,
}

abbrev pub opened_providers : List HandleEffect → List ℕ
opened_providers [] = []
opened_providers (provider_opened handle ∷ effects) = handle ∷ opened_providers effects
opened_providers (provider_closed handle ∷ effects) = opened_providers effects
opened_providers (hash_made handle ∷ effects) = opened_providers effects
opened_providers (hash_destroyed handle ∷ effects) = opened_providers effects

abbrev pub closed_providers : List HandleEffect → List ℕ
closed_providers [] = []
closed_providers (provider_opened handle ∷ effects) = closed_providers effects
closed_providers (provider_closed handle ∷ effects) = handle ∷ closed_providers effects
closed_providers (hash_made handle ∷ effects) = closed_providers effects
closed_providers (hash_destroyed handle ∷ effects) = closed_providers effects

abbrev pub made_hashes : List HandleEffect → List ℕ
made_hashes [] = []
made_hashes (provider_opened handle ∷ effects) = made_hashes effects
made_hashes (provider_closed handle ∷ effects) = made_hashes effects
made_hashes (hash_made handle ∷ effects) = handle ∷ made_hashes effects
made_hashes (hash_destroyed handle ∷ effects) = made_hashes effects

abbrev pub destroyed_hashes : List HandleEffect → List ℕ
destroyed_hashes [] = []
destroyed_hashes (provider_opened handle ∷ effects) = destroyed_hashes effects
destroyed_hashes (provider_closed handle ∷ effects) = destroyed_hashes effects
destroyed_hashes (hash_made handle ∷ effects) = destroyed_hashes effects
destroyed_hashes (hash_destroyed handle ∷ effects) = handle ∷ destroyed_hashes effects

-- The four lists of a sequence are those of its parts, one after the other.
pub parts-append :
    (xs ys : List HandleEffect)
    → (opened_providers (xs ++ ys) ≡ opened_providers xs ++ opened_providers ys)
      × (closed_providers (xs ++ ys) ≡ closed_providers xs ++ closed_providers ys)
      × (made_hashes (xs ++ ys) ≡ made_hashes xs ++ made_hashes ys)
      × (destroyed_hashes (xs ++ ys) ≡ destroyed_hashes xs ++ destroyed_hashes ys)
parts-append [] ys = (refl, refl, refl, refl)
parts-append (provider_opened h ∷ xs) ys =
    let (a, b, c, d) = parts-append xs ys in (ap (◌∷◌ h) a, b, c, d)
parts-append (provider_closed h ∷ xs) ys =
    let (a, b, c, d) = parts-append xs ys in (a, ap (◌∷◌ h) b, c, d)
parts-append (hash_made h ∷ xs) ys =
    let (a, b, c, d) = parts-append xs ys in (a, b, ap (◌∷◌ h) c, d)
parts-append (hash_destroyed h ∷ xs) ys =
    let (a, b, c, d) = parts-append xs ys in (a, b, c, ap (◌∷◌ h) d)

-- The providers that the members hold.
abbrev pub providers : CryptoEngine → List ℕ
providers engine = one engine.ecdsa_alg ++ (one engine.rng_alg ++ one engine.sha256_alg)

-- The members that `Initialize` overwrites without closing what they hold.
abbrev pub overwritten : Option ℕ → Option ℕ → Option ℕ → CryptoEngine → List ℕ
overwritten none rng sha engine = []
overwritten (some ecdsa) none sha engine = one engine.ecdsa_alg
overwritten (some ecdsa) (some rng) none engine = one engine.ecdsa_alg ++ one engine.rng_alg
overwritten (some ecdsa) (some rng) (some sha) engine = providers engine

pub closed_providers-destroy_engine :
    (engine : CryptoEngine) → closed_providers (destroy_engine engine) ≡ providers engine
unfolding destroy_engine close_provider
closed_providers-destroy_engine engine =
    of_members engine.ecdsa_alg engine.rng_alg engine.sha256_alg
  where
    of_members :
        (a b c : Option ℕ)
        → closed_providers (close_provider a ++ (close_provider b ++ close_provider c))
          ≡ one a ++ (one b ++ one c)
    of_members none none none = refl
    of_members none none (some z) = refl
    of_members none (some y) none = refl
    of_members none (some y) (some z) = refl
    of_members (some x) none none = refl
    of_members (some x) none (some z) = refl
    of_members (some x) (some y) none = refl
    of_members (some x) (some y) (some z) = refl

module _ (h : ℕ) where
  providers-occurrences :
      (engine : CryptoEngine)
      → occurrences h (providers engine)
        ≡ occurrences h (one engine.ecdsa_alg)
          + (occurrences h (one engine.rng_alg) + occurrences h (one engine.sha256_alg))
  providers-occurrences engine =
      occurrences-append h (one engine.ecdsa_alg) (one engine.rng_alg ++ one engine.sha256_alg)
      ∙ ap (◌+◌ (occurrences h (one engine.ecdsa_alg)))
          (occurrences-append h (one engine.rng_alg) (one engine.sha256_alg))

  -- Each provider that Initialize opens is held afterwards, and what was held before is overwritten or
  -- still held.
  pub initialize-accounts :
      (ecdsa rng sha : Option ℕ) (engine : CryptoEngine)
      → let (answer, after, effects) = initialize ecdsa rng sha engine in
        (occurrences h (providers after) + occurrences h (overwritten ecdsa rng sha engine)
          ≡ occurrences h (providers engine) + occurrences h (opened_providers effects))
        × (closed_providers effects ≡ [])
        × (made_hashes effects ≡ [])
        × (destroyed_hashes effects ≡ [])
  unfolding initialize
  initialize-accounts none rng sha engine = (omega arith, refl, refl, refl)
  initialize-accounts (some a) none sha engine = (
    omega (
      arith,
      providers-occurrences engine,
      providers-occurrences (record engine { ecdsa_alg = some a }),
    ),
    refl,
    refl,
    refl,
  )
  initialize-accounts (some a) (some b) none engine = (
    omega (
      arith,
      providers-occurrences engine,
      providers-occurrences (record engine { ecdsa_alg = some a; rng_alg = some b }),
      occurrences-append h (one engine.ecdsa_alg) (one engine.rng_alg),
    ),
    refl,
    refl,
    refl,
  )
  initialize-accounts (some a) (some b) (some c) engine = (omega arith, refl, refl, refl)

pub hash_payload-destroys :
    (created : Option ℕ) (hashed : Bool) (digest : Option (List ℕ))
    → let effects = (hash_payload created hashed digest).1 in
      (made_hashes effects ≡ destroyed_hashes effects)
      × (opened_providers effects ≡ [])
      × (closed_providers effects ≡ [])
unfolding hash_payload
hash_payload-destroys none hashed digest = (refl, refl, refl)
hash_payload-destroys (some h) false digest = (refl, refl, refl)
hash_payload-destroys (some h) true digest = (refl, refl, refl)
