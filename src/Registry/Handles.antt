-- ===== src/Registry/Handles.antt =====
-- The lifetime of the key handles that `DeviceRegistry` holds.
use phonekey.Prelude.{
  ℕ, ◌≡◌, ◌≢◌, ◌⊎◌, ◌∙◌, sym, subst, ok, >>=-eq-ok, ok_injective, fail_if-eq-ok, arith, List, some,
  ◌==◌, same_bytes, same_bytes_iff, Option-cases, Bool-cases, inl, inr,
}
use phonekey.Prelude.Map.{find, erase, find-assign, find-erase}
use phonekey.Signature.{Cng, import_raw_public_key, import_der_public_key}
use phonekey.Registry.{
  register_device, register_device_der, DeviceRegistry, RegisteredDevice, device_key, new_device,
  destroy, store_device, unregister_device,
}

-- Every device has a key, and no two devices have the same one.
pub record Sound (registry : DeviceRegistry) : Type 0 where
  pub present :
      (id : List ℕ) (device : RegisteredDevice)
      → find id registry.devices ≡ some device
      → device.public_key ≢ 0
  pub apart :
      (id id' : List ℕ) (device device' : RegisteredDevice)
      → find id registry.devices ≡ some device
      → find id' registry.devices ≡ some device'
      → device.public_key ≡ device'.public_key
      → id ≡ id'

-- A handle that no device has, as the import returns one. It may have been destroyed before, since
-- handle values are used again.
pub record Fresh (key : ℕ) (registry : DeviceRegistry) : Type 0 where
  pub not_null : key ≢ 0
  pub not_stored :
      (id : List ℕ) (device : RegisteredDevice)
      → find id registry.devices ≡ some device
      → device.public_key ≢ key

-- The handle that one of the two imports returns.
abbrev pub Imports : Cng → List ℕ → ℕ → ℕ → Type 0
Imports cng bytes size key =
    (import_raw_public_key cng bytes size ≡ ok key)
    ⊎ (import_der_public_key cng bytes size ≡ ok key)

module _ (registry : DeviceRegistry) (device_id name : List ℕ) (key : ℕ) where
  abbrev id_key : List ℕ
  id_key = device_key device_id

  -- What a lookup in the new registry finds is the new device or one of the old ones.
  stored_cases :
      (id : List ℕ) (device : RegisteredDevice)
      → find id (store_device registry device_id name key).devices ≡ some device
      → ((id_key ≡ id) × (device.public_key ≡ key))
        ⊎ ((id_key ≢ id) × (find id registry.devices ≡ some device))
  unfolding store_device
  stored_cases id device e = elim (Bool-cases (same_bytes id_key id)) [
    | inl same ↦ inl (
        ground (
          arith,
          same_bytes_iff id_key id,
          find-assign id_key id (new_device device_id name key) registry.devices,
        ))
    | inr other ↦ inr (
        ground (
          arith,
          same_bytes_iff id_key id,
          find-assign id_key id (new_device device_id name key) registry.devices,
        ))
  ]

-- The new device has the new key, and the others keep theirs.
store_device-Sound :
    (registry : DeviceRegistry) (device_id name : List ℕ) (key : ℕ)
    → Sound registry
    → Fresh key registry
    → Sound (store_device registry device_id name key)
store_device-Sound registry device_id name key s f =
    let cases = stored_cases registry device_id name key in
    record {
      present = λ id device e. elim (cases id device e) [
        | inl (k, same) ↦ λ z. f.not_null (sym same ∙ z)
        | inr (k, old) ↦ s.present id device old
      ];
      apart = λ id id' device device' e e' same. elim (cases id device e) [
        | inl (k, new) ↦ elim (cases id' device' e') [
          | inl (k', new') ↦ sym k ∙ k'
          | inr (k', old') ↦ absurd (f.not_stored id' device' old' (sym same ∙ new))
        ]
        | inr (k, old) ↦ elim (cases id' device' e') [
          | inl (k', new') ↦ absurd (f.not_stored id device old (same ∙ new'))
          | inr (k', old') ↦ s.apart id id' device device' old old' same
        ]
      ];
    }

module _ (registry : DeviceRegistry) (device_id : List ℕ) where
  left_over :
      (id : List ℕ) (device : RegisteredDevice)
      → find id (erase (device_key device_id) registry.devices) ≡ some device
      → (device_key device_id ≢ id) × (find id registry.devices ≡ some device)
  left_over id device e = ground (
    arith,
    same_bytes_iff (device_key device_id) id,
    find-erase (device_key device_id) id registry.devices,
  )

  erased-Sound :
      (gone : RegisteredDevice)
      → find (device_key device_id) registry.devices ≡ some gone
      → Sound registry
      → Sound (record {
        devices = erase (device_key device_id) registry.devices;
        destroyed = destroy gone.public_key registry.destroyed;
      })
  erased-Sound gone found s = record {
    present = λ id device e. s.present id device (left_over id device e).1;
    apart = λ id id' device device' e e' same.
        s.apart id id' device device' (left_over id device e).1 (left_over id' device' e').1 same;
  }

-- If the import returns a handle that no device has, a registration, raw or DER, leaves a registry in
-- which every device has a key of its own.
pub register_device-Sound :
    (cng : Cng) (registry after : DeviceRegistry) (device_id name bytes : List ℕ) (size : ℕ)
    → Sound registry
    → ((key : ℕ) → Imports cng bytes size key → key ≢ 0 → Fresh key registry)
    → (register_device cng registry device_id name bytes size ≡ ok after)
      ⊎ (register_device_der cng registry device_id name bytes size ≡ ok after)
    → Sound after
unfolding register_device register_device_der
register_device-Sound cng registry after device_id name bytes size s fresh (inl e) =
    let (key, imported, e1) = >>=-eq-ok (import_raw_public_key cng bytes size) _ e in
    let (nonzero, e2) = fail_if-eq-ok (key == 0) _ _ e1 in
    let ne : key ≢ 0 = λ z. ground arith in
    subst Sound (ok_injective e2)
      (store_device-Sound registry device_id name key s (fresh key (inl imported) ne))
register_device-Sound cng registry after device_id name bytes size s fresh (inr e) =
    let (key, imported, e1) = >>=-eq-ok (import_der_public_key cng bytes size) _ e in
    let (nonzero, e2) = fail_if-eq-ok (key == 0) _ _ e1 in
    let ne : key ≢ 0 = λ z. ground arith in
    subst Sound (ok_injective e2)
      (store_device-Sound registry device_id name key s (fresh key (inr imported) ne))

-- Every device that is left when one is unregistered has a key of its own.
pub unregister_device-Sound :
    (registry : DeviceRegistry) (device_id : List ℕ)
    → Sound registry
    → Sound (unregister_device registry device_id).1
unfolding unregister_device
unregister_device-Sound registry device_id s =
    elim (Option-cases (find (device_key device_id) registry.devices)) [
      | inl missing ↦ rw (missing, unregister_device) s
      | inr (gone, found) ↦
          rw (found, unregister_device) (erased-Sound registry device_id gone found s)
    ]
