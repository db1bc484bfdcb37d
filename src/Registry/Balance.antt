-- ===== src/Registry/Balance.antt =====
-- Where the key handles of a registry are, over its whole life.
use phonekey.Prelude.{
  ℕ, ◌+◌, ◌≤◌, ◌<◌, ◌≡◌, ◌≢◌, refl, sym, ap, ◌∙◌, arith, subst, List, [], ◌∷◌, ◌>>=◌, ◌>>◌, fail_if,
  none, some, Option-cases, Bool-cases, inl, inr, ◌==◌, ==_refl, same_bytes, ok, err, fault, Result,
  some_injective,
}
use phonekey.Prelude.Map.{find}
use phonekey.Signature.{Refusal, refused, import_raw_public_key, import_der_public_key}
use phonekey.Prelude.Counting.{one_if, occurrences, occurrences-append}
use phonekey.Registry.Counting.{
  held, Distinct, destroy-occurrences, assign_missing, assign_found, erase_found,
  close_registry-occurrences, assign-Distinct, erase-Distinct,
}
use phonekey.Registry.Handles.{Sound}
use phonekey.Registry.History.{
  new_registry, Change, registers, registers_der, unregisters, registered, change, history,
  imported, obtained, all_obtained, AllFresh, history-Sound,
}
use phonekey.Registry.{
  DeviceRegistry, RegisteredDevice, device_key, new_device, destroy, retire, store_device,
  register_device, register_device_der, unregister_device, close_registry,
}

-- How often a handle was destroyed or is held.
abbrev accounted : ℕ → DeviceRegistry → ℕ
accounted key registry =
    occurrences key registry.destroyed + occurrences key (held registry.devices)

-- What a change keeps: it accounts for one handle more if it obtained one.
record Keeps (key : ℕ) (before after : DeviceRegistry) (more : List ℕ) : Type 0 where
  distinct : Distinct after.devices
  balance : accounted key after ≡ accounted key before + occurrences key more

module _ (key : ℕ) (real : key ≢ 0) (registry : DeviceRegistry)
    (distinct : Distinct registry.devices) where
  retired-Keeps :
      (id name : List ℕ) (handle : ℕ)
      → Keeps key registry (store_device registry id name handle) (handle ∷ [])
  unfolding store_device retire
  retired-Keeps id name handle =
      let fresh = new_device id name handle in
      elim (Option-cases (find (device_key id) registry.devices)) [
        | inl missing ↦ record {
          distinct = assign-Distinct (device_key id) fresh registry.devices distinct;
          balance =
              let nothing : retire registry id ≡ registry.destroyed = rw (missing, retire) refl in
              omega (
                arith,
                ap (occurrences key) nothing,
                assign_missing key real (device_key id) fresh registry.devices missing,
              );
        }
        | inr (old, found) ↦ record {
          distinct = assign-Distinct (device_key id) fresh registry.devices distinct;
          balance =
              let gone : retire registry id ≡ destroy old.public_key registry.destroyed =
                rw (found, retire) refl in
              omega (
                arith,
                ap (occurrences key) gone,
                destroy-occurrences key real old.public_key registry.destroyed,
                assign_found key real (device_key id) fresh old registry.devices found,
              );
        }
      ]

  same-Keeps : Keeps key registry registry []
  same-Keeps = record { distinct = distinct; balance = omega arith }

  unregister_device-Keeps : (id : List ℕ) → Keeps key registry (unregister_device registry id).1 []
  unfolding unregister_device
  unregister_device-Keeps id = elim (Option-cases (find (device_key id) registry.devices)) [
    | inl missing ↦ rw (missing, unregister_device) same-Keeps
    | inr (old, found) ↦
        rw (found, unregister_device)
          (record {
            distinct = erase-Distinct (device_key id) registry.devices distinct;
            balance = omega (
              arith,
              destroy-occurrences key real old.public_key registry.destroyed,
              erase_found key real (device_key id) old registry.devices distinct found,
            );
          })
  ]

  -- Both registrations, by what the import returns.
  import-Keeps :
      (id name : List ℕ) (import : Result Refusal ℕ) (after : DeviceRegistry)
      → registered registry (
          import >>= λ handle. do
            fail_if (handle == 0) refused
            ok (store_device registry id name handle))
        ≡ some after
      → Keeps key registry after (imported import)
  import-Keeps id name (ok handle) after e = elim (Bool-cases (handle == 0)) [
    | inl null ↦
        let same : registry ≡ after = some_injective (rw null at e) in
        rw null (subst (λ r. Keeps key registry r []) same same-Keeps)
    | inr fine ↦
        let same : store_device registry id name handle ≡ after = some_injective (rw fine at e) in
        rw fine
          (subst (λ r. Keeps key registry r (handle ∷ [])) same (retired-Keeps id name handle))
  ]
  import-Keeps id name (err r) after e =
      subst (λ r. Keeps key registry r []) (some_injective e) same-Keeps
  import-Keeps id name fault after e = cc

  change-Keeps :
      (c : Change) (after : DeviceRegistry)
      → change registry c ≡ some after
      → Keeps key registry after (obtained c)
  unfolding change register_device register_device_der
  change-Keeps (registers cng id name bytes size) after e =
      import-Keeps id name (import_raw_public_key cng bytes size) after e
  change-Keeps (registers_der cng id name bytes size) after e =
      import-Keeps id name (import_der_public_key cng bytes size) after e
  change-Keeps (unregisters id) after e =
      subst (λ r. Keeps key registry r []) (some_injective e) (unregister_device-Keeps id)

history-Keeps :
    (key : ℕ) (real : key ≢ 0) (registry end : DeviceRegistry) (changes : List Change)
    → Distinct registry.devices
    → history registry changes ≡ some end
    → Keeps key registry end (all_obtained changes)
unfolding history
history-Keeps key real registry end [] distinct e =
    subst (λ r. Keeps key registry r []) (some_injective e) (same-Keeps key real registry distinct)
history-Keeps key real registry end (c ∷ cs) distinct e = elim (Option-cases (change registry c)) [
  | inl broken ↦ let stuck : history registry (c ∷ cs) ≡ none = rw (broken, history) refl in cc
  | inr (after, changed) ↦
      let goes : history registry (c ∷ cs) ≡ history after cs = rw (changed, history) refl in
      let first = change-Keeps key real registry distinct c after changed in
      let rest = history-Keeps key real after end cs first.distinct (sym goes ∙ e) in
      record {
        distinct = rest.distinct;
        balance = omega (
          arith,
          first.balance,
          rest.balance,
          occurrences-append key (obtained c) (all_obtained cs),
        );
      }
]

-- Over the whole life of a registry, from the empty one through any registrations and removals to the
-- destructor: every key handle is destroyed exactly as often as an import gave it to a registration
-- that took it. So no handle leaks, and none is destroyed twice unless CNG hands it out twice.
pub handles_balanced :
    (key : ℕ) (changes : List Change) (end : DeviceRegistry)
    → key ≢ 0
    → history new_registry changes ≡ some end
    → occurrences key (close_registry end.devices end.destroyed)
      ≡ occurrences key (all_obtained changes)
handles_balanced key changes end real e = omega (
  arith,
  close_registry-occurrences key real end.devices end.destroyed,
  (history-Keeps key real new_registry end changes tt e).balance,
)

found_held :
    (id : List ℕ) (device : RegisteredDevice) (devices : List (List ℕ × RegisteredDevice))
    → find id devices ≡ some device
    → 1 ≤ occurrences device.public_key (held devices)
unfolding find
found_held id device [] e = cc
found_held id device ((id', first) ∷ devices) e = elim (Bool-cases (same_bytes id' id)) [
  | inl same ↦
      let here : first ≡ device = some_injective (rw same at e) in
      rw here (omega (arith, ap one_if (==_refl device.public_key)))
  | inr other ↦ omega (arith, found_held id device devices (rw other at e))
]

no_devices-Sound : Sound new_registry
unfolding find
no_devices-Sound = record {
  present = λ id device e. cc;
  apart = λ id id' device device' e e' same. cc;
}

-- Over the whole life of a registry up to any moment, from the empty one through any registrations and
-- removals, where no import returns a handle that a device has at that moment, though it may return one
-- again that was destroyed: every device has a key handle of its own, and that handle has been destroyed
-- fewer times than imports gave it to a registration that took it, so the last of these is still alive.
pub keys_alive :
    (changes : List Change) (end : DeviceRegistry)
    → AllFresh new_registry changes
    → history new_registry changes ≡ some end
    → Sound end
      × ((id : List ℕ) (device : RegisteredDevice)
          → find id end.devices ≡ some device
          → occurrences device.public_key end.destroyed
            < occurrences device.public_key (all_obtained changes))
keys_alive changes end fresh e =
    let sound = history-Sound new_registry end changes no_devices-Sound fresh e in
    (
      sound,
      λ id device found.
          let kept =
            history-Keeps device.public_key (sound.present id device found) new_registry end changes
              tt e in
          omega (arith, kept.balance, found_held id device end.devices found),
    )
