-- ===== src/Dpapi.antt =====
-- windows/agent/DpapiStorage.cpp: files that Windows DPAPI encrypts. DPAPI is the interface
-- `Protection`, and the file system is a map from paths to bytes.
pub mod Files
use phonekey.Prelude.{
  ℕ, Bool, true, false, not, List, [], ◌∷◌, Option, none, some, ◌==◌, if◌then◌else◌, length, take,
}
use phonekey.Prelude.Map.{Map, find, assign}

-- `CryptProtectData` and `CryptUnprotectData`; `none` is a call that fails.
pub record Protection : Type 0 where
  pub protect : List ℕ → Option (List ℕ)
  pub unprotect : List ℕ → Option (List ℕ)

-- `EncryptData`
unfoldable pub encrypt_data : Protection → List ℕ → Option (List ℕ)
encrypt_data p plaintext = if length plaintext == 0 then none else p.protect plaintext

-- `DecryptData`
unfoldable pub decrypt_data : Protection → List ℕ → Option (List ℕ)
decrypt_data p ciphertext = if length ciphertext == 0 then none else p.unprotect ciphertext

-- The files, by their paths.
abbrev pub Files : Type 0
Files = Map (List ℕ)

-- What the stream does: whether it opens, which empties the file, whether it is good after the write,
-- and how many bytes reach the file by the time that it is closed.
pub record Stream : Type 0 where
  pub opens : Bool
  pub good : Bool
  pub kept : ℕ

-- `SaveToFile`: what it returns, and the files.
unfoldable pub save_to_file : Protection → Stream → List ℕ → List ℕ → Files → Bool × Files
save_to_file p stream path plaintext files = elim (encrypt_data p plaintext) [
  | none ↦ (false, files)
  | some encrypted ↦
      if not stream.opens
      then (false, files)
      else (stream.good, assign path (take stream.kept encrypted) files)
]

-- `LoadFromFile`; `none` for false.
unfoldable pub load_from_file : Protection → List ℕ → Files → Option (List ℕ)
load_from_file p path files = elim (find path files) [
  | none ↦ none
  | some encrypted ↦ if length encrypted == 0 then none else decrypt_data p encrypted
]
