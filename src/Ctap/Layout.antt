-- ===== src/Ctap/Layout.antt =====
-- The authenticator data, and the payload that a request is translated to.
use phonekey.Prelude.{
  ℕ, ◌<◌, ◌^◌, ◌≡◌, refl, sym, ap, ◌∙◌, arith, Bool, List, [], ◌∷◌, ◌++◌, append_assoc, append-nil,
  Option, some, ok, length, length-append,
}
use phonekey.Prelude.Words.{be16, be32, be64, byte_at}
use phonekey.Prelude.Writes.{memcpy-cursor, write_u32-cursor, write_u8-cursor}
use phonekey.Protocol.{IsPayload, new_payload, domain_prefix, serialize, deserialize}
use phonekey.Protocol.RoundTrip.{serialize-layout, deserialize-serialize}
use phonekey.Ctap.{
  GetAssertionRequest, flags_of, build_authenticator_data, translate_to_phone_key_payload,
}

-- The authenticator data is the digest of the relying party, the flags and the counter, most
-- significant byte first, in 37 bytes.
build_authenticator_data-layout :
    (sha256 : List ℕ → Option (List ℕ)) (relying_party_id hash : List ℕ) (sign_count : ℕ)
    (user_verified : Bool)
    → sha256 relying_party_id ≡ some hash
    → length hash ≡ 32
    → build_authenticator_data sha256 relying_party_id sign_count user_verified
      ≡ hash ++ (flags_of user_verified ∷ be32 sign_count)
unfolding build_authenticator_data
build_authenticator_data-layout sha256 relying_party_id hash sign_count user_verified hashed size =
    let flags = flags_of user_verified in
    let more : length (hash ++ (flags ∷ [])) ≡ 33 =
      omega (arith, length-append {0} hash (flags ∷ [])) in
    rw
      (
        hashed,
        memcpy-cursor hash [] 0 32 5 37 refl size refl,
        write_u8-cursor hash 32 flags 4 5 size refl,
        write_u32-cursor (hash ++ (flags ∷ [])) 33 sign_count 0 4 more refl,
        build_authenticator_data,
      )
      (append-nil _ ∙ append_assoc hash (flags ∷ []) (be32 sign_count))

-- A request with identifiers and a digest of the right sizes is translated to a payload whose bytes on
-- the wire are the domain, 0x0100 as the version, 1 as the algorithm, the device, the session, the PC, the digest of
-- the request and the expiry, in that order; and Deserialize takes those bytes as that payload.
pub translate-deserialize :
    (request : GetAssertionRequest) (device_id session_id pc_id : List ℕ) (expiration_ms : ℕ)
    → length device_id ≡ 16
    → length session_id ≡ 16
    → length pc_id ≡ 16
    → length request.client_data_hash ≡ 32
    → expiration_ms < 2 ^ 64
    → let p = translate_to_phone_key_payload request device_id session_id pc_id expiration_ms in
      let bytes =
        domain_prefix
        ++ ((1 ∷ 0 ∷ 0 ∷ 1 ∷ [])
            ++ (device_id
                ++ (session_id ++ (pc_id ++ (request.client_data_hash ++ be64 expiration_ms))))) in
      (serialize p ≡ bytes) × (deserialize (some (bytes ++ [])) 108 ≡ ok p)
unfolding translate_to_phone_key_payload new_payload be16 byte_at
translate-deserialize request device_id session_id pc_id expiration_ms hd hs hp hc he =
    let p = translate_to_phone_key_payload request device_id session_id pc_id expiration_ms in
    let v : IsPayload p = record {
      domain_length = refl;
      version_fits = omega arith;
      algorithm_fits = omega arith;
      device_length = hd;
      session_length = hs;
      pc_length = hp;
      challenge_length = hc;
      expiration_fits = he;
    } in
    let laid = serialize-layout p v in
    (
      laid,
      ap (λ bytes. deserialize (some (bytes ++ [])) 108) (sym laid)
          ∙ deserialize-serialize p [] v refl refl refl,
    )
