-- ===== src/Kdf.antt =====
-- windows/common/HkdfEngine.cpp and SasEngine.cpp: key derivation and the six-digit PIN. The HMAC of
-- Windows CNG is an argument, `none` when one of its calls fails.
pub mod Length
pub mod Rfc5869
use phonekey.Prelude.{
  ℕ, zero, suc, ◌+◌, ◌-◌, ◌/◌, ◌%◌, List, [], ◌∷◌, ◌++◌, Option, none, some, ltb, ◌==◌,
  if◌then◌else◌, length, take, replicate, min, Result, read, ok, err, fault, Bool,
}
use phonekey.Prelude.Words.{u8, u32}
use phonekey.Prelude.Reads.{read_u32}

abbrev pub Hmac : Type 0
Hmac = List ℕ → List ℕ → Option (List ℕ)

-- `HkdfEngine::HmacSha256`: an empty vector stands for a failure.
unfoldable pub hmac_sha256 : Hmac → List ℕ → List ℕ → List ℕ
hmac_sha256 hmac key bytes =
    if length key == 0 then [] else elim (hmac key bytes) [ none ↦ [] | some mac ↦ mac ]

-- `HkdfEngine::Extract`
unfoldable pub extract : Hmac → List ℕ → List ℕ → List ℕ
extract hmac salt ikm = hmac_sha256 hmac (if length salt == 0 then replicate 32 0 else salt) ikm

-- The loop of `HkdfEngine::Expand`; without fuel there is no result.
unfoldable pub expand_loop : Hmac → List ℕ → List ℕ → ℕ → ℕ → List ℕ → List ℕ → ℕ → Option (List ℕ)
expand_loop hmac prk info out_len zero okm t counter =
    if ltb (length okm) out_len then none else some okm
expand_loop hmac prk info out_len (suc fuel) okm t counter =
    let block = hmac_sha256 hmac prk ((t ++ info) ++ (counter ∷ [])) in
    let to_copy = min (length block) (out_len - length okm) in
    let rest =
      expand_loop hmac prk info out_len fuel (okm ++ take to_copy block) block (u8 (counter + 1)) in
    if ltb (length okm) out_len then if length block == 0 then some [] else rest else some okm

-- `HkdfEngine::Expand`: each pass adds a byte, so the length is fuel enough.
unfoldable pub expand : Hmac → List ℕ → List ℕ → ℕ → Option (List ℕ)
expand hmac prk info out_len =
    if length prk == 0
    then some []
    else if out_len == 0
    then some []
    else expand_loop hmac prk info out_len out_len [] [] 1

-- `HkdfEngine::DeriveKey`
unfoldable pub derive_key : Hmac → List ℕ → List ℕ → List ℕ → ℕ → Option (List ℕ)
derive_key hmac salt ikm info out_len =
    let prk = extract hmac salt ikm in
    if length prk == 0 then some [] else expand hmac prk info out_len

-- "PhoneKey-SAS-PIN"
abbrev pub sas_info : List ℕ
sas_info =
    b'P' ∷ b'h' ∷ b'o' ∷ b'n' ∷ b'e' ∷ b'K' ∷ b'e' ∷ b'y' ∷ b'-' ∷ b'S' ∷ b'A' ∷ b'S' ∷ b'-' ∷ b'P'
    ∷ b'I' ∷ b'N' ∷ []

-- `<<` of a number to a stream, digit by digit; a number of 32 bits has at most ten digits.
unfoldable pub decimal : ℕ → ℕ → List ℕ
decimal zero n = []
decimal (suc fuel) n =
    let rest = decimal fuel (n / 10) in
    if ltb n 10 then (b'0' + n) ∷ [] else rest ++ ((b'0' + n % 10) ∷ [])

-- `std::setw(6) << std::setfill('0') << pin`
unfoldable pub print_pin : ℕ → List ℕ
print_pin pin = let text = decimal 10 pin in replicate (6 - length text) b'0' ++ text

abbrev pub no_pin : List ℕ
no_pin = replicate 6 b'0'

-- The number behind the digits, from the first four bytes of the MAC.
abbrev pub pin_of : ℕ → ℕ
pin_of val = u32 (val % 900000 + 100000)

-- `SasEngine::ComputeSasPin`; `none` is a read outside the MAC.
unfoldable pub compute_sas_pin : Hmac → List ℕ → Option (List ℕ)
compute_sas_pin hmac key =
    let mac = hmac_sha256 hmac key sas_info in
    if length key == 0
    then some no_pin
    else if ltb (length mac) 4
    then some no_pin
    else elim (read_u32 {E = Bool} mac 0) [
      | ok val ↦ some (print_pin (pin_of val))
      | err e ↦ none
      | fault ↦ none
    ]
