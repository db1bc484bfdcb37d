-- ===== src/Prelude/Map.antt =====
-- `std::unordered_map<std::string, V>` as an association list: a string is the list of its
-- characters' codes.
use mathlib.Core.List.{List, [], ◌∷◌}
use mathlib.Core.Option.{Option, none, some}
use mathlib.Core.Path.{◌≡◌, refl}
use native.Mathlib.Omega.{arith}
use Prim.Native.Nat.{ℕ, ◌+◌, ◌-◌, ◌/◌, ◌%◌, ◌<◌}
use phonekey.Prelude.Tests.{same_bytes, same_bytes_iff, same_bytes_refl, if◌then◌else◌, ltb}
use phonekey.Prelude.Lists.{length, take, take_all, All}

abbrev pub Map {ℓ} : Type ℓ → Type ℓ
Map V = List (List ℕ × V)

module _ {ℓ} {V : Type ℓ} where
  -- `m.find(key)`
  unfoldable pub find : List ℕ → Map V → Option V
  find key [] = none
  find key ((k, v) ∷ m) = if same_bytes k key then some v else find key m

  -- `m[key] = value`, and an assignment through the iterator that `find` returned
  unfoldable pub assign : List ℕ → V → Map V → Map V
  assign key value [] = (key, value) ∷ []
  assign key value ((k, v) ∷ m) =
      if same_bytes k key then (key, value) ∷ m else (k, v) ∷ assign key value m

  -- `m.erase(it)` at the key of `it`
  unfoldable pub erase : List ℕ → Map V → Map V
  erase key [] = []
  erase key ((k, v) ∷ m) =
      let rest = erase key m in if same_bytes k key then rest else (k, v) ∷ rest

  pub find-assign :
      (key j : List ℕ) (value : V) (m : Map V)
      → find j (assign key value m) ≡ (if same_bytes key j then some value else find j m)
  unfolding find assign
  find-assign key j value [] = refl
  find-assign key j value ((k, v) ∷ m) = ground (
    arith,
    same_bytes_iff k key,
    same_bytes_iff k j,
    same_bytes_iff key j,
    find-assign key j value m,
  )

  pub find-erase :
      (key j : List ℕ) (m : Map V)
      → find j (erase key m) ≡ (if same_bytes key j then none else find j m)
  unfolding find erase
  find-erase key j [] = ground arith
  find-erase key j ((k, v) ∷ m) =
      ground
        (arith, same_bytes_iff k key, same_bytes_iff k j, same_bytes_iff key j, find-erase key j m)

  pub find-assign_self :
      (key : List ℕ) (value : V) (m : Map V) → find key (assign key value m) ≡ some value
  find-assign_self key value m = ground (arith, find-assign key key value m, same_bytes_refl key)

-- `std::hex` digits, and `BytesToKey`: two lower-case digits a byte.
unfoldable pub hex_digit : ℕ → ℕ
hex_digit n = if ltb n 10 then b'0' + n else b'a' + (n - 10)

unfoldable pub hex_string : List ℕ → List ℕ
unfolding hex_digit
hex_string [] = []
hex_string (b ∷ bs) = hex_digit (b / 16) ∷ hex_digit (b % 16) ∷ hex_string bs

unfoldable pub bytes_to_key : List ℕ → ℕ → List ℕ
unfolding hex_string
bytes_to_key bytes len = hex_string (take len bytes)

hex_digit_injective : (m n : ℕ) → m < 16 → n < 16 → hex_digit m ≡ hex_digit n → m ≡ n
unfolding hex_digit
hex_digit_injective m n hm hn e = ground arith

hex_string_injective :
    (xs ys : List ℕ)
    → All (λ b. b < 256) xs
    → All (λ b. b < 256) ys
    → hex_string xs ≡ hex_string ys
    → xs ≡ ys
unfolding hex_string
hex_string_injective [] [] hx hy e = refl
hex_string_injective [] (y ∷ ys) hx hy e = cc
hex_string_injective (x ∷ xs) [] hx hy e = cc
hex_string_injective (x ∷ xs) (y ∷ ys) hx hy e = ground (
  arith,
  hex_digit_injective (x / 16) (y / 16),
  hex_digit_injective (x % 16) (y % 16),
  hex_string_injective xs ys,
)

-- Two arrays of bytes have the same key only if they are the same.
pub bytes_to_key_injective :
    (xs ys : List ℕ) (n : ℕ)
    → length xs ≡ n
    → length ys ≡ n
    → All (λ b. b < 256) xs
    → All (λ b. b < 256) ys
    → bytes_to_key xs n ≡ bytes_to_key ys n
    → xs ≡ ys
unfolding bytes_to_key
bytes_to_key_injective xs ys n lx ly hx hy e =
    hex_string_injective xs ys hx hy (rw (take_all n xs lx, take_all n ys ly) at e)
