-- ===== src/Registry/Lookup.antt =====
-- What the registry answers after a registration and after a removal.
use phonekey.Prelude.{
  ℕ, ◌≡◌, ◌≢◌, refl, sym, arith, true, false, List, ok, >>=-eq-ok, ok_injective, fail_if-eq-ok,
  ◌==◌, same_bytes_iff, same_bytes_refl, Option-cases, inl, inr,
}
use phonekey.Prelude.Map.{find, find-assign, find-erase}
use phonekey.Signature.{Cng, import_raw_public_key}
use phonekey.Registry.{
  DeviceRegistry, device_key, new_device, register_device, store_device, unregister_device,
  get_device_public_key, is_device_registered,
}

module _ (registry : DeviceRegistry) (device_id name : List ℕ) (key : ℕ) where
  stored_key : get_device_public_key (store_device registry device_id name key) device_id ≡ key
  unfolding get_device_public_key store_device
  stored_key = ground (
    arith,
    same_bytes_refl (device_key device_id),
    find-assign (device_key device_id) (device_key device_id) (new_device device_id name key)
        registry.devices,
  )

  stored_registered :
      is_device_registered (store_device registry device_id name key) device_id ≡ true
  unfolding is_device_registered store_device
  stored_registered = ground (
    arith,
    same_bytes_refl (device_key device_id),
    find-assign (device_key device_id) (device_key device_id) (new_device device_id name key)
        registry.devices,
  )

  stored_other :
      (other : List ℕ)
      → device_key device_id ≢ device_key other
      → get_device_public_key (store_device registry device_id name key) other
        ≡ get_device_public_key registry other
  unfolding get_device_public_key store_device
  stored_other other ne = ground (
    arith,
    same_bytes_iff (device_key device_id) (device_key other),
    find-assign (device_key device_id) (device_key other) (new_device device_id name key)
        registry.devices,
  )

-- After a registration succeeds the device is registered, its key is the handle that the import
-- returned, which is not NULL, and the keys of all other devices are as before.
pub register_device_lookup :
    (cng : Cng) (registry after : DeviceRegistry) (device_id name bytes : List ℕ) (size : ℕ)
    → register_device cng registry device_id name bytes size ≡ ok after
    → (is_device_registered after device_id ≡ true)
      × (get_device_public_key after device_id ≢ 0)
      × (import_raw_public_key cng bytes size ≡ ok (get_device_public_key after device_id))
      × ((other : List ℕ)
          → device_key device_id ≢ device_key other
          → get_device_public_key after other ≡ get_device_public_key registry other)
unfolding register_device
register_device_lookup cng registry after device_id name bytes size e =
    let (key, imported, e1) = >>=-eq-ok (import_raw_public_key cng bytes size) _ e in
    let (nonzero, e2) = fail_if-eq-ok (key == 0) _ _ e1 in
    let same : after ≡ store_device registry device_id name key = sym (ok_injective e2) in
    let is_key = stored_key registry device_id name key in
    rw (same, is_key)
      (
        stored_registered registry device_id name key,
        (λ z. ground arith),
        imported,
        λ other ne. stored_other registry device_id name key other ne,
      )

-- After a removal the device is not registered and has no key, the keys of all other devices are as
-- before.
unregister_device_lookup :
    (registry : DeviceRegistry) (device_id : List ℕ)
    → let after = (unregister_device registry device_id).1 in
      (is_device_registered after device_id ≡ false)
      × (get_device_public_key after device_id ≡ 0)
      × ((other : List ℕ)
          → device_key device_id ≢ device_key other
          → get_device_public_key after other ≡ get_device_public_key registry other)
unfolding unregister_device is_device_registered get_device_public_key
unregister_device_lookup registry device_id =
    elim (Option-cases (find (device_key device_id) registry.devices)) [
      | inl missing ↦
          rw (missing, unregister_device)
            (
              rw (missing, is_device_registered) refl,
              rw (missing, get_device_public_key) refl,
              λ other ne. refl,
            )
      | inr (gone, found) ↦
          rw (found, unregister_device)
            (
              ground (
                arith,
                same_bytes_refl (device_key device_id),
                find-erase (device_key device_id) (device_key device_id) registry.devices,
              ),
              ground (
                arith,
                same_bytes_refl (device_key device_id),
                find-erase (device_key device_id) (device_key device_id) registry.devices,
              ),
              λ other ne. ground (
                arith,
                same_bytes_iff (device_key device_id) (device_key other),
                find-erase (device_key device_id) (device_key other) registry.devices,
              ),
            )
    ]
