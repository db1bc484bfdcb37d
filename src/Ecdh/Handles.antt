-- ===== src/Ecdh/Handles.antt =====
-- The handles of a computation of a shared secret.
use phonekey.Prelude.{
  ℕ, ◌≤◌, ◌≡◌, refl, arith, not, ◌&&◌, ◌||◌, List, [], ◌∷◌, Option, none, some, ◌==◌, ==_refl,
  if◌then◌else◌, length, take, drop, Result, ok, read_total, read_bytes_total, Bool-cases,
  Option-cases, inl, inr,
}
use phonekey.Ecdh.{
  Provider, EcdhKeyExchange, HandleEffect, key_imported, key_destroyed, secret_made,
  secret_destroyed, NoError, derive_secret, agree_on, compute_shared_secret,
}

-- The handles of the peer's key and of the secret that are left after some effects; there are none
-- when a handle is made beside another, or when one is destroyed that is not there.
unfoldable pub left_after : List HandleEffect → Option ℕ → Option ℕ → Option (Option ℕ × Option ℕ)
left_after [] key secret = some (key, secret)
left_after (key_imported h ∷ effects) none secret = left_after effects (some h) secret
left_after (key_imported h ∷ effects) (some k) secret = none
left_after (key_destroyed h ∷ effects) none secret = none
left_after (key_destroyed h ∷ effects) (some k) secret =
    let rest = left_after effects none secret in if k == h then rest else none
left_after (secret_made h ∷ effects) key none = left_after effects key (some h)
left_after (secret_made h ∷ effects) key (some k) = none
left_after (secret_destroyed h ∷ effects) key none = none
left_after (secret_destroyed h ∷ effects) key (some k) =
    let rest = left_after effects key none in if k == h then rest else none

derive_secret_destroys :
    (cng : Provider) (secret : ℕ) → (derive_secret cng secret).1 ≡ secret_destroyed secret ∷ []
unfolding derive_secret
derive_secret_destroys cng secret = elim (Option-cases (cng.secret_size secret)) [
  | inl fails ↦ rw (fails, derive_secret) refl
  | inr (size, sized) ↦ elim (Bool-cases (size == 0)) [
    | inl empty ↦ rw (sized, empty, derive_secret) refl
    | inr filled ↦ elim (Option-cases (cng.derive_key secret)) [
      | inl fails ↦ rw (sized, filled, fails, derive_secret) refl
      | inr (shared, e) ↦ rw (sized, filled, e, derive_secret) refl
    ]
  ]
]

agree_on_destroys :
    (cng : Provider) (local peer : ℕ)
    → left_after (agree_on cng local peer).1 (some peer) none ≡ some (none, none)
unfolding agree_on left_after
agree_on_destroys cng local peer = elim (Option-cases (cng.agree local peer)) [
  | inl fails ↦ rw (fails, agree_on, ==_refl peer) refl
  | inr (secret, made) ↦
      rw (made, agree_on, ==_refl peer, derive_secret_destroys cng secret, ==_refl secret) refl
]

-- What ComputeSharedSecret returns.
abbrev Cleans : Result NoError (List ℕ × List HandleEffect) → Type 0
Cleans r =
    (shared : List ℕ) × (effects : List HandleEffect) × (r ≡ ok (shared, effects))
    × (left_after effects none none ≡ some (none, none))

from_point :
    (cng : Provider) (local : ℕ) (xy : List ℕ)
    → Cleans (elim (cng.import_point xy) [
      | none ↦ ok ([], [])
      | some key ↦
          (let (shared, effects) = agree_on cng local key in
            ok (shared, key_imported key ∷ effects))
    ])
unfolding left_after
from_point cng local xy = at_import (cng.import_point xy)
  where
    at_import :
        (imported : Option ℕ)
        → Cleans (elim imported [
          | none ↦ ok ([], [])
          | some key ↦
              (let (shared, effects) = agree_on cng local key in
                ok (shared, key_imported key ∷ effects))
        ])
    at_import none = ([], [], refl, refl)
    at_import (some key) = (
      (agree_on cng local key).0,
      key_imported key ∷ (agree_on cng local key).1,
      refl,
      agree_on_destroys cng local key,
    )

nothing_done : Cleans (ok ([], []))
unfolding left_after
nothing_done = ([], [], refl, refl)

start_le : (marker : ℕ) → (if marker == 0x04 then 1 else 0) ≤ 1
start_le marker = ground arith

-- Whatever the calls of CNG return and whatever the peer sends, in a buffer of at least the size that
-- is told: ComputeSharedSecret always returns, reads nothing outside the buffer, and leaves neither
-- the peer's key nor the secret undestroyed.
pub compute_shared_secret_cleans :
    (cng : Provider) (e : EcdhKeyExchange) (peer : List ℕ) (size : ℕ)
    → size ≤ length peer
    → (shared : List ℕ) × (effects : List HandleEffect) × (compute_shared_secret cng e
          (some peer)
          size
        ≡ ok (shared, effects))
      × (left_after effects none none ≡ some (none, none))
unfolding compute_shared_secret
compute_shared_secret_cleans cng e peer size h =
    elim (Bool-cases ((e.local_key == 0) || (not (size == 64) && not (size == 65)))) [
      | inl refuses ↦ rw refuses (nothing_done)
      | inr goes ↦ elim (Bool-cases (size == 65)) [
        | inl marked ↦
            let long : 65 ≤ length peer = ground (arith, marked, h) in
            let (marker, first) = read_total {E = NoError} peer 0 (omega arith) in
            let start = if marker == 0x04 then 1 else 0 in
            let xy =
              read_bytes_total {E = NoError} peer start 64 (omega (arith, start_le marker)) in
            rw (goes, marked, first, xy) (from_point cng e.local_key (take 64 (drop start peer)))
        | inr plain ↦
            let long : 64 ≤ length peer = ground (arith, plain, goes, h) in
            let xy = read_bytes_total {E = NoError} peer 0 64 (omega arith) in
            rw (goes, plain, xy) (from_point cng e.local_key (take 64 (drop 0 peer)))
      ]
    ]
