-- ===== src/Examples/Files.antt =====
-- Examples for encrypted files, on a stand-in for DPAPI that puts a byte in front.
use phonekey.Prelude.{ℕ, ◌≡◌, ◌≢◌, ◌⊎◌, refl, arith, true, false, List, [], ◌∷◌, Option, none, some}
use phonekey.Prelude.Map.{find}
use phonekey.Dpapi.{Protection, encrypt_data, Files, Stream, save_to_file, load_from_file}
use phonekey.Dpapi.Files.{Restores, load_from_file-save_to_file}

abbrev behind_mark : List ℕ → Option (List ℕ)
behind_mark [] = none
behind_mark (x ∷ xs) = some xs

abbrev toy_protection : Protection
toy_protection = record { protect = λ xs. some (7 ∷ xs); unprotect = behind_mark }

toy_protection-Restores : Restores toy_protection
toy_protection-Restores = record {
  restores = λ plaintext ciphertext e.
      (let same : 7 ∷ plaintext ≡ ciphertext = cc in
        rw (← same) (refl, λ p. absurd (omega (arith, p))));
}

abbrev disk : Stream
disk = record { opens = true; good = true; kept = 100 }

abbrev path : List ℕ
path = b'k' ∷ []

abbrev no_files : Files
no_files = []

load_from_file-save_to_file_example :
    (((save_to_file toy_protection disk path (1 ∷ 2 ∷ []) no_files).0 ≡ true)
      → load_from_file toy_protection path
          (save_to_file toy_protection disk path (1 ∷ 2 ∷ []) no_files).1
        ≡ some (1 ∷ 2 ∷ []))
    × ((other : List ℕ)
        → path ≢ other
        → find other (save_to_file toy_protection disk path (1 ∷ 2 ∷ []) no_files).1
          ≡ find other no_files)
    × (((encrypt_data toy_protection (1 ∷ 2 ∷ []) ≡ none) ⊎ (disk.opens ≡ false))
        → save_to_file toy_protection disk path (1 ∷ 2 ∷ []) no_files ≡ (false, no_files))
load_from_file-save_to_file_example =
    load_from_file-save_to_file toy_protection disk path (1 ∷ 2 ∷ []) no_files
      toy_protection-Restores
      λ ciphertext e. (let same : 7 ∷ 1 ∷ 2 ∷ [] ≡ ciphertext = cc in rw (← same) (omega arith))
