-- ===== src/Examples/Devices.antt =====
-- Examples for the device registry.
use phonekey.Prelude.{
  ◌<◌, sym, ap, ◌∙◌, some_injective, read_bytes, ℕ, ◌≡◌, ◌≢◌, refl, arith, List, [], ◌∷◌, some,
  same_bytes,
}
use phonekey.Prelude.Map.{find, assign, erase, bytes_to_key}
use phonekey.Registry.{
  DeviceRegistry, RegisteredDevice, device_key, new_device, register_device, unregister_device,
  store_device, retire, destroy, close_registry,
}
use phonekey.Registry.Handles.{Sound, Fresh}
use phonekey.Prelude.Counting.{occurrences}
use phonekey.Registry.History.{
  Change, registers, unregisters, new_registry, change, history, all_obtained, AllFresh,
}
use phonekey.Registry.Balance.{handles_balanced, keys_alive}
use phonekey.Signature.{Cng, import_raw_public_key}
use phonekey.Examples.{toy_cng, phone, other_phone, point}

-- A phone comes and goes and comes back, and gets the handle again that was destroyed.
abbrev visits : List Change
visits =
    registers toy_cng phone [] point 64
    ∷ unregisters phone
    ∷ registers toy_cng phone [] point 64
    ∷ []

abbrev with_phone : DeviceRegistry
with_phone = record { devices = (device_key phone, new_device phone [] 7) ∷ []; destroyed = [] }

abbrev without : DeviceRegistry
without = record { devices = []; destroyed = 7 ∷ [] }

abbrev back_again : DeviceRegistry
back_again = record with_phone { destroyed = 7 ∷ [] }

visited :
    (change new_registry (registers toy_cng phone [] point 64) ≡ some with_phone)
    × (change with_phone (unregisters phone) ≡ some without)
    × (history new_registry visits ≡ some back_again)
unfolding history change register_device import_raw_public_key read_bytes assign find erase destroy
    unregister_device bytes_to_key same_bytes store_device retire
visited = (refl, refl, refl)

none_stored :
    (registry : DeviceRegistry) → registry.devices ≡ [] → (key : ℕ) → key ≢ 0 → Fresh key registry
unfolding find
none_stored registry empty key ne = record {
  not_null = ne;
  not_stored = λ id device e p. let e' = rw empty at e in cc;
}

visits-AllFresh : AllFresh new_registry visits
visits-AllFresh = (
  λ key imported ne. none_stored new_registry refl key ne,
  λ after e. (
    tt,
    λ after' e'. (
      λ key imported ne.
          let first : with_phone ≡ after = some_injective (sym visited.0 ∙ e) in
          let second : without ≡ after' =
            some_injective (sym visited.1 ∙ ap (λ r. change r (unregisters phone)) first ∙ e') in
          none_stored after' (sym (ap (λ r. r.devices) second)) key ne,
      λ last e''. tt,
    ),
  ),
)

keys_alive_example :
    Sound back_again
    × ((id : List ℕ) (device : RegisteredDevice)
        → find id back_again.devices ≡ some device
        → occurrences device.public_key back_again.destroyed
          < occurrences device.public_key (all_obtained visits))
keys_alive_example = keys_alive visits back_again visits-AllFresh visited.2

-- CNG hands out one handle after the other. Two phones are registered, the first one twice, and the
-- other one is removed.
abbrev cng_with : ℕ → Cng
cng_with key = record toy_cng { import_key_pair = λ xy. key }

abbrev week : List Change
week =
    registers (cng_with 7) phone [] point 64
    ∷ registers (cng_with 8) other_phone [] point 64
    ∷ registers (cng_with 9) phone [] point 64
    ∷ unregisters other_phone
    ∷ []

abbrev at_the_end : DeviceRegistry
at_the_end = record {
  devices = (device_key phone, new_device phone [] 9) ∷ [];
  destroyed = 8 ∷ 7 ∷ [];
}

week_passed : history new_registry week ≡ some at_the_end
unfolding history change register_device import_raw_public_key read_bytes assign find erase destroy
    unregister_device bytes_to_key same_bytes store_device retire
week_passed = refl

handles_balanced_example :
    occurrences 7 (close_registry at_the_end.devices at_the_end.destroyed)
    ≡ occurrences 7 (all_obtained week)
handles_balanced_example = handles_balanced 7 week at_the_end (λ e. omega (arith, e)) week_passed
