-- ===== src/Registry/Counting.antt =====
-- How often a key handle occurs among the devices of a registry and among the destroyed ones.
use phonekey.Prelude.{
  ℕ, ◌+◌, ◌≡◌, ◌≢◌, refl, ap, arith, subst, false, List, [], ◌∷◌, none, some, Bool-cases, inl, inr,
  ◌==◌, some_injective, same_bytes, same_bytes_iff,
}
use phonekey.Prelude.Counting.{one_if, occurrences}
use phonekey.Prelude.Map.{Map, find, assign, erase}
use phonekey.Registry.{RegisteredDevice, destroy, close_registry}

-- The handles that the devices have.
abbrev pub held : Map RegisteredDevice → List ℕ
held [] = []
held ((id, device) ∷ devices) = device.public_key ∷ held devices

abbrev Absent : List ℕ → Map RegisteredDevice → Type 0
Absent id [] = Unit {0}
Absent id ((k, device) ∷ devices) = (same_bytes k id ≡ false) × Absent id devices

-- No two devices have the same identifier.
abbrev pub Distinct : Map RegisteredDevice → Type 0
Distinct [] = Unit {0}
Distinct ((k, device) ∷ devices) = Absent k devices × Distinct devices

module _ (key : ℕ) (real : key ≢ 0) where
  pub destroy-occurrences :
      (handle : ℕ) (destroyed : List ℕ)
      → occurrences key (destroy handle destroyed)
        ≡ one_if (handle == key) + occurrences key destroyed
  unfolding destroy
  destroy-occurrences handle destroyed = ground arith

  pub assign_missing :
      (id : List ℕ) (device : RegisteredDevice) (devices : Map RegisteredDevice)
      → find id devices ≡ none
      → occurrences key (held (assign id device devices))
        ≡ occurrences key (held devices) + one_if (device.public_key == key)
  unfolding find assign
  assign_missing id device [] e = omega arith
  assign_missing id device ((k, old) ∷ devices) e = elim (Bool-cases (same_bytes k id)) [
    | inl same ↦ cc (rw same at e)
    | inr other ↦ rw other (omega (arith, assign_missing id device devices (rw other at e)))
  ]

  pub assign_found :
      (id : List ℕ) (device old : RegisteredDevice) (devices : Map RegisteredDevice)
      → find id devices ≡ some old
      → occurrences key (held (assign id device devices)) + one_if (old.public_key == key)
        ≡ occurrences key (held devices) + one_if (device.public_key == key)
  unfolding find assign
  assign_found id device old [] e = cc
  assign_found id device old ((k, first) ∷ devices) e = elim (Bool-cases (same_bytes k id)) [
    | inl same ↦
        let here : first ≡ old = some_injective (rw same at e) in rw (same, here) (omega arith)
    | inr other ↦ rw other (omega (arith, assign_found id device old devices (rw other at e)))
  ]

  erase-Absent :
      (id : List ℕ) (devices : Map RegisteredDevice)
      → Absent id devices
      → erase id devices ≡ devices
  unfolding erase
  erase-Absent id [] h = refl
  erase-Absent id ((k, device) ∷ devices) (other, h) =
      rw other (ap (◌∷◌ (k, device)) (erase-Absent id devices h))

  pub erase_found :
      (id : List ℕ) (old : RegisteredDevice) (devices : Map RegisteredDevice)
      → Distinct devices
      → find id devices ≡ some old
      → occurrences key (held (erase id devices)) + one_if (old.public_key == key)
        ≡ occurrences key (held devices)
  unfolding find erase
  erase_found id old [] h e = cc
  erase_found id old ((k, first) ∷ devices) (gone, h) e = elim (Bool-cases (same_bytes k id)) [
    | inl same ↦
        let here : first ≡ old = some_injective (rw same at e) in
        let k_id : k ≡ id = (same_bytes_iff k id).0 same in
        let rest = erase-Absent id devices (subst (λ i. Absent i devices) k_id gone) in
        rw (same, here, rest) (omega arith)
    | inr other ↦ rw other (omega (arith, erase_found id old devices h (rw other at e)))
  ]

  pub close_registry-occurrences :
      (devices : Map RegisteredDevice) (destroyed : List ℕ)
      → occurrences key (close_registry devices destroyed)
        ≡ occurrences key destroyed + occurrences key (held devices)
  unfolding close_registry
  close_registry-occurrences [] destroyed = omega arith
  close_registry-occurrences ((k, device) ∷ devices) destroyed = omega (
    arith,
    close_registry-occurrences devices (destroy device.public_key destroyed),
    destroy-occurrences device.public_key destroyed,
  )

Absent-assign :
    (i id : List ℕ) (device : RegisteredDevice) (devices : Map RegisteredDevice)
    → same_bytes id i ≡ false
    → Absent i devices
    → Absent i (assign id device devices)
unfolding assign
Absent-assign i id device [] other h = (other, tt)
Absent-assign i id device ((k, old) ∷ devices) other (first, h) =
    elim (Bool-cases (same_bytes k id)) [
      | inl same ↦ rw same (other, h)
      | inr differ ↦ rw differ (first, Absent-assign i id device devices other h)
    ]

Absent-erase :
    (i id : List ℕ) (devices : Map RegisteredDevice)
    → Absent i devices
    → Absent i (erase id devices)
unfolding erase
Absent-erase i id [] h = tt
Absent-erase i id ((k, old) ∷ devices) (first, h) = elim (Bool-cases (same_bytes k id)) [
  | inl same ↦ rw same (Absent-erase i id devices h)
  | inr differ ↦ rw differ (first, Absent-erase i id devices h)
]

differ_swapped : (xs ys : List ℕ) → same_bytes xs ys ≡ false → same_bytes ys xs ≡ false
differ_swapped xs ys e = ground (arith, same_bytes_iff xs ys, same_bytes_iff ys xs)

pub assign-Distinct :
    (id : List ℕ) (device : RegisteredDevice) (devices : Map RegisteredDevice)
    → Distinct devices
    → Distinct (assign id device devices)
unfolding assign
assign-Distinct id device [] h = (tt, tt)
assign-Distinct id device ((k, old) ∷ devices) (gone, h) = elim (Bool-cases (same_bytes k id)) [
  | inl same ↦
      let k_id : k ≡ id = (same_bytes_iff k id).0 same in
      rw same (subst (λ i. Absent i devices) k_id gone, h)
  | inr differ ↦ rw differ (
    Absent-assign k id device devices (differ_swapped k id differ) gone,
    assign-Distinct id device devices h,
  )
]

pub erase-Distinct :
    (id : List ℕ) (devices : Map RegisteredDevice) → Distinct devices → Distinct (erase id devices)
unfolding erase
erase-Distinct id [] h = tt
erase-Distinct id ((k, old) ∷ devices) (gone, h) = elim (Bool-cases (same_bytes k id)) [
  | inl same ↦ rw same (erase-Distinct id devices h)
  | inr differ ↦ rw differ (Absent-erase k id devices gone, erase-Distinct id devices h)
]
