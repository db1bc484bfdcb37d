-- ===== src/Examples/Agreement.antt =====
-- Examples for the key exchange, on a stand-in for a curve.
use phonekey.Prelude.{
  ℕ, ◌+◌, ◌≡◌, refl, ap, arith, List, [], ◌∷◌, ◌++◌, none, some, length, replicate,
  length-replicate, ok,
}
use phonekey.Ecdh.{
  Provider, EcdhKeyExchange, HandleEffect, get_public_point_uncompressed, compute_shared_secret,
}
use phonekey.Ecdh.Agreement.{Curve, IsCurve, Serves, same_secret}
use phonekey.Ecdh.Handles.{left_after, compute_shared_secret_cleans}

abbrev first_or_zero : List ℕ → ℕ
first_or_zero [] = 0
first_or_zero (x ∷ xs) = x

abbrev toy_curve : Curve
toy_curve = record {
  point = λ d. replicate 64 d;
  secret = λ d xy. replicate 32 (d + first_or_zero xy);
}

toy_curve-IsCurve : IsCurve toy_curve
toy_curve-IsCurve = record {
  point_size = λ d. length-replicate 64 d;
  secret_size = λ d xy. length-replicate 32 (d + first_or_zero xy);
  commutes = λ c d. ap (replicate 32) (let e : c + d ≡ d + c = omega arith in e);
}

abbrev toy_provider : ℕ → Provider
toy_provider d = record {
  export_size = λ key. some 72;
  export_key = λ key. some (replicate 8 0 ++ replicate 64 d);
  import_point = λ xy. some (first_or_zero xy);
  agree = λ key peer. some peer;
  secret_size = λ secret. some 32;
  derive_key = λ secret. some (replicate 32 (d + secret));
}

toy_provider-Serves : (d : ℕ) → Serves toy_curve (toy_provider d) 5 d
toy_provider-Serves d = record {
  is_key = λ p. absurd (omega (arith, p));
  exports_size = refl;
  exports = (replicate 8 0, refl, refl);
  agrees = λ c. (c, c, refl, refl, refl, refl);
}

abbrev party : EcdhKeyExchange
party = record { algorithm = 1; local_key = 5 }

same_secret_example :
    (my_point your_point shared : List ℕ) × (my_effects your_effects : List HandleEffect)
    × (get_public_point_uncompressed (toy_provider 2) party ≡ ok my_point)
    × (get_public_point_uncompressed (toy_provider 3) party ≡ ok your_point)
    × (length my_point ≡ 65)
    × (length your_point ≡ 65)
    × (compute_shared_secret (toy_provider 2) party (some your_point) 65 ≡ ok (shared, my_effects))
    × (compute_shared_secret (toy_provider 3) party (some my_point) 65 ≡ ok (shared, your_effects))
    × (length shared ≡ 32)
same_secret_example =
    same_secret toy_curve toy_curve-IsCurve (toy_provider 2) (toy_provider 3) party party 2 3
      (toy_provider-Serves 2) (toy_provider-Serves 3)

compute_shared_secret_cleans_example :
    (shared : List ℕ) × (effects : List HandleEffect) × (compute_shared_secret
        (toy_provider 2)
        party
        (some (replicate 65 9))
        65
      ≡ ok (shared, effects))
    × (left_after effects none none ≡ some (none, none))
compute_shared_secret_cleans_example =
    compute_shared_secret_cleans (toy_provider 2) party (replicate 65 9) 65 (omega arith)
