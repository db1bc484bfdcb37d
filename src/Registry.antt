-- ===== src/Registry.antt =====
-- windows/agent/DeviceRegistry.h and DeviceRegistry.cpp: the phones that the agent knows, by the
-- hexadecimal text of their identifiers, with the CNG handles of their keys.
pub mod Handles
pub mod Lookup
pub mod Counting
pub mod History
pub mod Balance
use phonekey.Prelude.{
  ℕ, Bool, true, false, not, ◌&&◌, List, [], ◌∷◌, Option, none, some, ◌==◌, if◌then◌else◌, Result,
  ok, err, fault, ◌>>=◌, ◌>>◌, fail_if,
}
use phonekey.Prelude.Map.{Map, find, assign, erase, bytes_to_key}
use phonekey.Protocol.{uuid_size}
use phonekey.Signature.{Cng, Refusal, refused, import_raw_public_key, import_der_public_key}

pub record RegisteredDevice : Type 0 where
  pub device_id : List ℕ
  pub device_name : List ℕ
  pub public_key : ℕ
  pub is_enabled : Bool

-- The entry that a registration makes.
abbrev pub new_device : List ℕ → List ℕ → ℕ → RegisteredDevice
new_device device_id device_name key = record {
  device_id = device_id;
  device_name = device_name;
  public_key = key;
  is_enabled = true;
}

-- `m_devices`, and the handles that `BCryptDestroyKey` was called on, the last call first.
pub record DeviceRegistry : Type 0 where
  pub devices : Map RegisteredDevice
  pub destroyed : List ℕ

abbrev pub device_key : List ℕ → List ℕ
device_key device_id = bytes_to_key device_id uuid_size

-- `if (hPublicKey) BCryptDestroyKey(hPublicKey)`
unfoldable pub destroy : ℕ → List ℕ → List ℕ
destroy key destroyed = if key == 0 then destroyed else key ∷ destroyed

-- `if (it != end && it->second.hPublicKey) BCryptDestroyKey(it->second.hPublicKey);`
unfoldable pub retire : DeviceRegistry → List ℕ → List ℕ
unfolding destroy
retire registry device_id = elim (find (device_key device_id) registry.devices) [
  | none ↦ registry.destroyed
  | some device ↦ destroy device.public_key registry.destroyed
]

-- The part of the two registrations behind the import: the previous key of the device is destroyed,
-- and the new one takes its place.
unfoldable pub store_device : DeviceRegistry → List ℕ → List ℕ → ℕ → DeviceRegistry
unfolding retire
store_device registry device_id device_name key = record {
  devices = assign (device_key device_id) (new_device device_id device_name key) registry.devices;
  destroyed = retire registry device_id;
}

-- `RegisterDevice`; `err` is `return false`, which leaves the registry as it is.
unfoldable pub register_device :
    Cng → DeviceRegistry → List ℕ → List ℕ → List ℕ → ℕ → Result Refusal DeviceRegistry
unfolding store_device
register_device cng registry device_id device_name bytes size = do
  key ← import_raw_public_key cng bytes size
  fail_if (key == 0) refused
  ok (store_device registry device_id device_name key)

-- `RegisterDeviceDer`
unfoldable pub register_device_der :
    Cng → DeviceRegistry → List ℕ → List ℕ → List ℕ → ℕ → Result Refusal DeviceRegistry
unfolding store_device
register_device_der cng registry device_id device_name bytes size = do
  key ← import_der_public_key cng bytes size
  fail_if (key == 0) refused
  ok (store_device registry device_id device_name key)

-- `GetDevicePublicKey`
unfoldable pub get_device_public_key : DeviceRegistry → List ℕ → ℕ
get_device_public_key registry device_id = elim (find (device_key device_id) registry.devices) [
  | none ↦ 0
  | some device ↦ if device.is_enabled then device.public_key else 0
]

unfoldable pub is_device_registered : DeviceRegistry → List ℕ → Bool
is_device_registered registry device_id = elim (find (device_key device_id) registry.devices) [
  | none ↦ false
  | some device ↦ device.is_enabled
]

unfoldable pub unregister_device : DeviceRegistry → List ℕ → Bool × DeviceRegistry
unfolding destroy
unregister_device registry device_id = elim (find (device_key device_id) registry.devices) [
  | none ↦ (false, registry)
  | some device ↦ (
    true,
    record {
      devices = erase (device_key device_id) registry.devices;
      destroyed = destroy device.public_key registry.destroyed;
    },
  )
]

-- `~DeviceRegistry`: every key that is left is destroyed.
unfoldable pub close_registry : Map RegisteredDevice → List ℕ → List ℕ
unfolding destroy
close_registry [] destroyed = destroyed
close_registry ((k, device) ∷ devices) destroyed =
    close_registry devices (destroy device.public_key destroyed)
