-- ===== src/Examples/Pairing.antt =====
-- Examples for pairing, key derivation and security keys.
use phonekey.Prelude.Words.{be64}
use phonekey.Prelude.Reads.{read_u32}
use phonekey.Prelude.{
  ◌<◌, ◌%◌, ◌⊎◌, Bool, ℕ, ◌+◌, ◌/◌, take, ◌≡◌, refl, arith, true, List, [], ◌∷◌, ◌++◌, some, ok,
  length, replicate, All, drop,
}
use phonekey.Protocol.{domain_prefix, serialize, deserialize}
use phonekey.Kdf.{Hmac, hmac_sha256, sas_info, no_pin, expand, compute_sas_pin}
use phonekey.Kdf.Rfc5869.{Mac, IsHmac, blocks, expand-blocks}
use phonekey.Kdf.Length.{IsDigit, value, compute_sas_pin_digits}
use phonekey.Ctap.{GetAssertionRequest, translate_to_phone_key_payload}
use phonekey.Ctap.Layout.{translate-deserialize}
use phonekey.Dpapi.{Protection}
use phonekey.Paired.{PairedDeviceInfo, saves, PairedCall, pairs, revokes, makes_primary, manage_all}
use phonekey.Paired.History.{view_of, view_behind, answers_of, manage_all_refines}
use phonekey.Examples.{phone, other_phone, session, this_pc, nonce}

abbrev toy_hmac : Hmac
toy_hmac key bytes = some (replicate 32 7)

abbrev toy_mac : Mac
toy_mac key bytes = replicate 32 7

toy_hmac-IsHmac : IsHmac toy_hmac toy_mac
toy_hmac-IsHmac = record { gives = λ key bytes. refl; mac_size = λ key bytes. refl }

expand-blocks_example :
    expand toy_hmac (1 ∷ []) [] 42
    ≡ some (take 42 (blocks toy_mac (1 ∷ []) [] ((42 + 31) / 32) [] 1))
expand-blocks_example =
    expand-blocks toy_hmac toy_mac toy_hmac-IsHmac (1 ∷ []) [] 42 (λ e. absurd (omega (arith, e)))
      (omega arith) (omega arith)

compute_sas_pin_digits_example :
    let mac = hmac_sha256 toy_hmac (1 ∷ []) sas_info in
    (pin : List ℕ) × (compute_sas_pin toy_hmac (1 ∷ []) ≡ some pin)
    × (length pin ≡ 6)
    × All IsDigit pin
    × (((pin ≡ no_pin) × ((length {A = ℕ} (1 ∷ []) ≡ 0) ⊎ (length mac < 4)))
        ⊎ ((val : ℕ) × (read_u32 {E = Bool} mac 0 ≡ ok val)
            × (value 0 pin ≡ 100000 + val % 900000)))
compute_sas_pin_digits_example = compute_sas_pin_digits toy_hmac (1 ∷ [])

abbrev request : GetAssertionRequest
request = record { relying_party_id = []; client_data_hash = nonce; allow_credential_id = [] }

translate-deserialize_example :
    let p = translate_to_phone_key_payload request phone session this_pc 31000 in
    let bytes =
      domain_prefix
      ++ ((1 ∷ 0 ∷ 0 ∷ 1 ∷ []) ++ (phone ++ (session ++ (this_pc ++ (nonce ++ be64 31000))))) in
    (serialize p ≡ bytes) × (deserialize (some (bytes ++ [])) 108 ≡ ok p)
translate-deserialize_example =
    translate-deserialize request phone session this_pc 31000 refl refl refl refl (omega arith)

abbrev first : PairedDeviceInfo
first = record {
  device_id = phone;
  nickname = [];
  raw_public_key = [];
  is_primary = true;
  paired_timestamp_ms = 1;
  last_used_timestamp_ms = 1;
}

abbrev toy_protection : Protection
toy_protection = record {
  protect = λ bytes. some (1 ∷ bytes);
  unprotect = λ bytes. some (drop 1 bytes);
}

abbrev second : PairedDeviceInfo
second = record first { device_id = other_phone }

abbrev month : List PairedCall
month =
    pairs first
    ∷ pairs second
    ∷ makes_primary other_phone
    ∷ revokes phone
    ∷ revokes phone
    ∷ revokes other_phone
    ∷ []

manage_all_refines_example :
    (view_of (manage_all (saves toy_protection) month []).1 ≡ view_behind month (view_of []))
    × ((manage_all (saves toy_protection) month []).0 ≡ answers_of toy_protection month [])
manage_all_refines_example =
    manage_all_refines toy_protection month [] λ bytes ne. (1 ∷ bytes, refl)
