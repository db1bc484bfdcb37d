-- ===== src/Ecdh/Agreement.antt =====
-- Two parties that exchange their public points, and the handles of a computation.
use phonekey.Prelude.{
  ℕ, ◌≡◌, ◌≢◌, refl, sym, ap, ◌∙◌, arith, false, List, [], ◌∷◌, ◌++◌, append-nil, some, ◌==◌,
  ==_false, length, ok, read, read_bytes-append,
}
use phonekey.Ecdh.{
  Provider, EcdhKeyExchange, HandleEffect, key_imported, key_destroyed, secret_made,
  secret_destroyed, NoError, point_of_blob, get_public_point_uncompressed, derive_secret, agree_on,
  compute_shared_secret,
}

-- The group: the 64 bytes of the public point of a private key, and the raw secret of a private key
-- and a peer's point.
pub record Curve : Type 0 where
  pub point : ℕ → List ℕ
  pub secret : ℕ → List ℕ → List ℕ

pub record IsCurve (curve : Curve) : Type 0 where
  pub point_size : (d : ℕ) → length (curve.point d) ≡ 64
  pub secret_size : (d : ℕ) (xy : List ℕ) → length (curve.secret d xy) ≡ 32
  pub commutes : (c d : ℕ) → curve.secret c (curve.point d) ≡ curve.secret d (curve.point c)

-- What CNG does with a key pair: `key` is the handle of the private key `d`, and every call on points
-- of the curve succeeds.
pub record Serves (curve : Curve) (cng : Provider) (key d : ℕ) : Type 0 where
  pub is_key : key ≢ 0
  pub exports_size : cng.export_size key ≡ some 72
  pub exports :
      (header : List ℕ) × (length header ≡ 8)
      × (cng.export_key key ≡ some (header ++ curve.point d))
  pub agrees :
      (c : ℕ)
      → (peer secret : ℕ) × (cng.import_point (curve.point c) ≡ some peer)
        × (cng.agree key peer ≡ some secret)
        × (cng.secret_size secret ≡ some 32)
        × (cng.derive_key secret ≡ some (curve.secret d (curve.point c)))

module _ (curve : Curve) (laws : IsCurve curve) where
  published :
      (cng : Provider) (e : EcdhKeyExchange) (d : ℕ)
      → Serves curve cng e.local_key d
      → get_public_point_uncompressed cng e ≡ ok (0x04 ∷ curve.point d)
  unfolding get_public_point_uncompressed point_of_blob
  published cng e d serves =
      let (header, size, blob) = serves.exports in
      let given : (e.local_key == 0) ≡ false = (==_false e.local_key 0).1 serves.is_key in
      let xy =
        read_bytes-append {E = NoError} header (curve.point d) [] 8 64 size (laws.point_size d) in
      let all : header ++ (curve.point d ++ []) ≡ header ++ curve.point d =
        ap (◌++◌ header) (append-nil (curve.point d)) in
      rw (given, serves.exports_size, blob, rw all at xy) refl

  agreed_on :
      (cng : Provider) (key peer secret d c : ℕ)
      → cng.agree key peer ≡ some secret
      → cng.secret_size secret ≡ some 32
      → cng.derive_key secret ≡ some (curve.secret d (curve.point c))
      → agree_on cng key peer ≡ (
        curve.secret d (curve.point c),
        secret_made secret ∷ key_destroyed peer ∷ secret_destroyed secret ∷ [],
      )
  unfolding agree_on derive_secret
  agreed_on cng key peer secret d c agreed sized derived =
      let from_secret : derive_secret cng secret
          ≡ (curve.secret d (curve.point c), secret_destroyed secret ∷ []) =
        rw (sized, derived, derive_secret) refl in
      rw (agreed, from_secret, agree_on) refl

  computed :
      (cng : Provider) (e : EcdhKeyExchange) (d c : ℕ)
      → Serves curve cng e.local_key d
      → (effects : List HandleEffect) × (compute_shared_secret cng e
            (some (0x04 ∷ curve.point c))
            65
          ≡ ok (curve.secret d (curve.point c), effects))
  unfolding compute_shared_secret read
  computed cng e d c serves =
      let (peer, secret, imported, agreed, sized, derived) = serves.agrees c in
      let given : (e.local_key == 0) ≡ false = (==_false e.local_key 0).1 serves.is_key in
      let xy =
        read_bytes-append {E = NoError} (0x04 ∷ []) (curve.point c) [] 1 64 refl
          (laws.point_size c) in
      let all : (0x04 ∷ []) ++ (curve.point c ++ []) ≡ 0x04 ∷ curve.point c =
        ap (λ l. 0x04 ∷ l) (append-nil (curve.point c)) in
      (
        key_imported peer ∷ secret_made secret ∷ key_destroyed peer ∷ secret_destroyed secret ∷ [],
        rw
            (
              given,
              rw all at xy,
              imported,
              agreed_on cng e.local_key peer secret d c agreed sized derived,
            )
            refl,
      )

  -- Two parties that exchange what GetPublicPointUncompressed returns, 65 bytes each, compute the same
  -- secret of 32 bytes from it, if CNG serves both with key pairs of one curve.
  pub same_secret :
      (here there : Provider) (mine yours : EcdhKeyExchange) (c d : ℕ)
      → Serves curve here mine.local_key c
      → Serves curve there yours.local_key d
      → (my_point your_point shared : List ℕ) × (my_effects your_effects : List HandleEffect)
        × (get_public_point_uncompressed here mine ≡ ok my_point)
        × (get_public_point_uncompressed there yours ≡ ok your_point)
        × (length my_point ≡ 65)
        × (length your_point ≡ 65)
        × (compute_shared_secret here mine (some your_point) 65 ≡ ok (shared, my_effects))
        × (compute_shared_secret there yours (some my_point) 65 ≡ ok (shared, your_effects))
        × (length shared ≡ 32)
  same_secret here there mine yours c d my_cng your_cng =
      let (my_effects, e) = computed here mine c d my_cng in
      let (your_effects, e') = computed there yours d c your_cng in
      (
        0x04 ∷ curve.point c,
        0x04 ∷ curve.point d,
        curve.secret c (curve.point d),
        my_effects,
        your_effects,
        published here mine c my_cng,
        published there yours d your_cng,
        omega (arith, laws.point_size c),
        omega (arith, laws.point_size d),
        e,
        e' ∙ ap (λ s. ok (s, your_effects)) (sym (laws.commutes c d)),
        laws.secret_size c (curve.point d),
      )
