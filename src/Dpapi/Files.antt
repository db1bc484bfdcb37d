-- ===== src/Dpapi/Files.antt =====
-- What LoadFromFile reads behind SaveToFile.
use phonekey.Prelude.{
  ℕ, zero, suc, ◌≤◌, ◌≡◌, ◌≢◌, refl, ap, arith, Bool, true, false, not, List, [], ◌∷◌, none, some,
  ◌==◌, ==_false, length, take, same_bytes_iff, Bool-cases, Option-cases, inl, inr, ◌⊎◌,
}
use phonekey.Prelude.Map.{find, assign, find-assign, find-assign_self}
use phonekey.Dpapi.{
  Protection, encrypt_data, decrypt_data, Files, Stream, save_to_file, load_from_file,
}

-- DPAPI decrypts what it encrypted, to something, and never encrypts to nothing.
pub record Restores (p : Protection) : Type 0 where
  pub restores :
      (plaintext ciphertext : List ℕ)
      → p.protect plaintext ≡ some ciphertext
      → (p.unprotect ciphertext ≡ some plaintext) × (length ciphertext ≢ 0)

take_over : (n : ℕ) (xs : List ℕ) → length xs ≤ n → take n xs ≡ xs
take_over zero [] h = refl
take_over (suc n) [] h = refl
take_over zero (x ∷ xs) h = absurd (omega arith)
take_over (suc n) (x ∷ xs) h = ap (λ l. x ∷ l) (take_over n xs (omega arith))

find_other :
    (path other bytes : List ℕ) (files : Files)
    → path ≢ other
    → find other (assign path bytes files) ≡ find other files
find_other path other bytes files ne =
    ground (arith, find-assign path other bytes files, same_bytes_iff path other, ne)

not_shut : (b : Bool) → b ≡ false → not b ≡ false → ⊥
not_shut true e e' = cc
not_shut false e e' = cc

module _ (p : Protection) (stream : Stream) (path plaintext : List ℕ) (files : Files) where
  -- Either nothing happens, or the ciphertext goes to the file.
  save_cases :
      (save_to_file p stream path plaintext files ≡ (false, files))
      ⊎ ((c : List ℕ) × (encrypt_data p plaintext ≡ some c)
          × (not stream.opens ≡ false)
          × (save_to_file p stream path plaintext files
              ≡ (stream.good, assign path (take stream.kept c) files)))
  unfolding save_to_file
  save_cases = elim (Option-cases (encrypt_data p plaintext)) [
    | inl fails ↦ inl (rw (fails, save_to_file) refl)
    | inr (c, made) ↦ elim (Bool-cases (not stream.opens)) [
      | inl shut ↦ inl (rw (made, shut, save_to_file) refl)
      | inr opened ↦ inr (c, made, opened, rw (made, opened, save_to_file) refl)
    ]
  ]

  encrypted_by : (c : List ℕ) → encrypt_data p plaintext ≡ some c → p.protect plaintext ≡ some c
  unfolding encrypt_data
  encrypted_by c e = elim (Bool-cases (length plaintext == 0)) [
    | inl empty ↦ (let e' = rw empty at e in cc)
    | inr filled ↦ rw filled at e
  ]

  loaded :
      (c : List ℕ)
      → Restores p
      → p.protect plaintext ≡ some c
      → length c ≤ stream.kept
      → load_from_file p path (assign path (take stream.kept c) files) ≡ some plaintext
  unfolding load_from_file decrypt_data
  loaded c r made room =
      let (back, filled) = r.restores plaintext c made in
      let nonempty : (length c == 0) ≡ false = (==_false (length c) 0).1 filled in
      rw
        (
          take_over stream.kept c room,
          find-assign_self path c files,
          nonempty,
          back,
          load_from_file,
          decrypt_data,
        )
        refl

-- Where all bytes of the ciphertext reach the file and SaveToFile returns true, LoadFromFile gives
-- back the data; all other files are as before. Where SaveToFile returns false because the data cannot
-- be encrypted, as with no data at all, or because the file does not open, every file is as before.
pub load_from_file-save_to_file :
    (p : Protection) (stream : Stream) (path plaintext : List ℕ) (files : Files)
    → Restores p
    → ((ciphertext : List ℕ)
        → p.protect plaintext ≡ some ciphertext
        → length ciphertext ≤ stream.kept)
    → (((save_to_file p stream path plaintext files).0 ≡ true)
        → load_from_file p path (save_to_file p stream path plaintext files).1 ≡ some plaintext)
      × ((other : List ℕ)
          → path ≢ other
          → find other (save_to_file p stream path plaintext files).1 ≡ find other files)
      × (((encrypt_data p plaintext ≡ none) ⊎ (stream.opens ≡ false))
          → save_to_file p stream path plaintext files ≡ (false, files))
load_from_file-save_to_file p stream path plaintext files r all =
    elim (save_cases p stream path plaintext files) [
      | inl nothing ↦
          ((λ e. let e' = rw nothing at e in cc), (λ other ne. rw nothing refl), λ h. nothing)
      | inr (c, made, opened, saved) ↦
          let protected = encrypted_by p stream path plaintext files c made in
          (
            (λ e. rw saved (loaded p stream path plaintext files c r protected (all c protected))),
            (λ other ne. rw saved (find_other path other (take stream.kept c) files ne)),
            λ h. elim h [ inl fails ↦ cc | inr shut ↦ absurd (not_shut stream.opens shut opened) ],
          )
    ]
