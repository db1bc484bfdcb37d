-- ===== src/Ecdh.antt =====
-- windows/common/EcdhKeyExchange.cpp: the key exchange of a pairing. Windows CNG is the interface
-- `Provider`. A handle is a number, and NULL is zero; an empty vector stands for a failure.
pub mod Agreement
pub mod Handles
use phonekey.Prelude.{
  ℕ, ◌+◌, Bool, true, false, not, ◌&&◌, ◌||◌, List, [], ◌∷◌, Option, none, some, ltb, ◌==◌,
  if◌then◌else◌, length, Result, ok, err, fault, ◌>>=◌, read, read_bytes,
}

-- The calls of CNG: the size and the bytes of the exported public key, the import of a peer's 64 bytes
-- (the header of the blob is constant), the agreement, and the size and the bytes of the raw secret.
-- `none` is a status that is no success.
pub record Provider : Type 0 where
  pub export_size : ℕ → Option ℕ
  pub export_key : ℕ → Option (List ℕ)
  pub import_point : List ℕ → Option ℕ
  pub agree : ℕ → ℕ → Option ℕ
  pub secret_size : ℕ → Option ℕ
  pub derive_key : ℕ → Option (List ℕ)

-- `m_hEcdhAlg` and `m_hLocalKeyPair`
pub record EcdhKeyExchange : Type 0 where
  pub algorithm : ℕ
  pub local_key : ℕ

-- What happens to the handles of a computation.
pub data HandleEffect : Type 0 where
  key_imported key_destroyed secret_made secret_destroyed : ℕ → HandleEffect

-- No code fails but by an empty vector.
pub data NoError : Type 0 where

-- `sizeof(BCRYPT_ECCKEY_BLOB)`
abbrev pub header_size : ℕ
header_size = 8

-- `GenerateEphemeralKeyPair`: what the three calls return. A call that fails leaves its handle.
unfoldable pub generate_ephemeral_key_pair :
    Option ℕ → Option ℕ → Bool → EcdhKeyExchange → Bool × EcdhKeyExchange
generate_ephemeral_key_pair none generated finalized e = (false, e)
generate_ephemeral_key_pair (some algorithm) none finalized e =
    (false, record e { algorithm = algorithm })
generate_ephemeral_key_pair (some algorithm) (some key) finalized e =
    (finalized, record { algorithm = algorithm; local_key = key })

abbrev pub new_key_exchange : EcdhKeyExchange
new_key_exchange = record { algorithm = 0; local_key = 0 }

-- The destructor: the key that is destroyed, and the algorithm provider that is closed.
unfoldable pub destroy_key_exchange : EcdhKeyExchange → Option ℕ × Option ℕ
destroy_key_exchange e = (
  if e.local_key == 0 then none else some e.local_key,
  if e.algorithm == 0 then none else some e.algorithm,
)

-- `GetPublicPointUncompressed` behind the size that was asked for.
unfoldable pub point_of_blob : Option ℕ → Option (List ℕ) → Result NoError (List ℕ)
point_of_blob none blob = ok []
point_of_blob (some size) none = ok []
point_of_blob (some size) (some blob) =
    if ltb size (header_size + 64)
    then ok []
    else (do xy ← read_bytes blob header_size 64; ok (0x04 ∷ xy))

-- `GetPublicPointUncompressed`
unfoldable pub get_public_point_uncompressed : Provider → EcdhKeyExchange → Result NoError (List ℕ)
get_public_point_uncompressed cng e =
    if e.local_key == 0
    then ok []
    else point_of_blob (cng.export_size e.local_key) (cng.export_key e.local_key)

-- The derivation from the secret that was agreed on, which is destroyed on every path.
unfoldable pub derive_secret : Provider → ℕ → List ℕ × List HandleEffect
derive_secret cng secret = elim (cng.secret_size secret) [
  | none ↦ ([], secret_destroyed secret ∷ [])
  | some size ↦
      if size == 0 then ([], secret_destroyed secret ∷ []) else elim (cng.derive_key secret) [
        | none ↦ ([], secret_destroyed secret ∷ [])
        | some shared ↦ (shared, secret_destroyed secret ∷ [])
      ]
]

-- From the agreement on, which is over for the peer's key.
unfoldable pub agree_on : Provider → ℕ → ℕ → List ℕ × List HandleEffect
agree_on cng local peer = elim (cng.agree local peer) [
  | none ↦ ([], key_destroyed peer ∷ [])
  | some secret ↦
      let (shared, effects) = derive_secret cng secret in
      (shared, secret_made secret ∷ key_destroyed peer ∷ effects)
]

-- `ComputeSharedSecret`: the secret, and what happened to the handles. A null pointer is `none`.
unfoldable pub compute_shared_secret :
    Provider → EcdhKeyExchange → Option (List ℕ) → ℕ → Result NoError (List ℕ × List HandleEffect)
compute_shared_secret cng e none size = ok ([], [])
compute_shared_secret cng e (some peer) size =
    if (e.local_key == 0) || (not (size == 64) && not (size == 65)) then ok ([], []) else (do
      marker ← if size == 65 then read peer 0 else ok 0
      xy ← read_bytes peer (if marker == 0x04 then 1 else 0) 64
      elim (cng.import_point xy) [
        | none ↦ ok ([], [])
        | some key ↦
            (let (shared, effects) = agree_on cng e.local_key key in
              ok (shared, key_imported key ∷ effects))
      ])
