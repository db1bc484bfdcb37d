-- ===== src/Registry/History.antt =====
-- A device registry over its whole life, from the constructor to the destructor.
use phonekey.Prelude.{
  ℕ, ◌≡◌, ◌≢◌, refl, sym, ◌∙◌, subst, List, [], ◌∷◌, ◌++◌, Option, none, some, Option-cases, inl,
  inr, ◌==◌, ok, err, fault, Result, some_injective, if◌then◌else◌,
}
use phonekey.Signature.{Cng, Refusal, import_raw_public_key, import_der_public_key}
use phonekey.Registry.Handles.{
  Sound, Fresh, Imports, register_device-Sound, unregister_device-Sound,
}
use phonekey.Registry.{DeviceRegistry, register_device, register_device_der, unregister_device}

-- `DeviceRegistry::DeviceRegistry`
abbrev pub new_registry : DeviceRegistry
new_registry = record { devices = []; destroyed = [] }

-- A call that changes the registry, with what CNG does during it.
pub data Change : Type 0 where
  registers registers_der : Cng → List ℕ → List ℕ → List ℕ → ℕ → Change
  unregisters : List ℕ → Change

-- A refused registration leaves the registry as it is; `none` is a read outside the buffer.
abbrev pub registered : DeviceRegistry → Result Refusal DeviceRegistry → Option DeviceRegistry
registered registry (ok after) = some after
registered registry (err e) = some registry
registered registry fault = none

unfoldable pub change : DeviceRegistry → Change → Option DeviceRegistry
change registry (registers cng id name bytes size) =
    registered registry (register_device cng registry id name bytes size)
change registry (registers_der cng id name bytes size) =
    registered registry (register_device_der cng registry id name bytes size)
change registry (unregisters id) = some (unregister_device registry id).1

unfoldable pub history : DeviceRegistry → List Change → Option DeviceRegistry
history registry [] = some registry
history registry (c ∷ cs) = elim (change registry c) [ none ↦ none | some after ↦ history after cs ]

-- The handle that an import brings into the registry.
abbrev pub imported : Result Refusal ℕ → List ℕ
imported (ok key) = if key == 0 then [] else key ∷ []
imported (err e) = []
imported fault = []

abbrev pub obtained : Change → List ℕ
obtained (registers cng id name bytes size) = imported (import_raw_public_key cng bytes size)
obtained (registers_der cng id name bytes size) = imported (import_der_public_key cng bytes size)
obtained (unregisters id) = []

abbrev pub all_obtained : List Change → List ℕ
all_obtained [] = []
all_obtained (c ∷ cs) = obtained c ++ all_obtained cs

-- What CNG returns during a change is not a handle that a device has.
abbrev Gets : DeviceRegistry → Change → Type 0
Gets registry (registers cng id name bytes size) =
    (key : ℕ) → Imports cng bytes size key → key ≢ 0 → Fresh key registry
Gets registry (registers_der cng id name bytes size) =
    (key : ℕ) → Imports cng bytes size key → key ≢ 0 → Fresh key registry
Gets registry (unregisters id) = Unit {0}

abbrev pub AllFresh : DeviceRegistry → List Change → Type 0
AllFresh registry [] = Unit {0}
AllFresh registry (c ∷ cs) =
    Gets registry c
    × ((after : DeviceRegistry) → change registry c ≡ some after → AllFresh after cs)

registered-Sound :
    (registry after : DeviceRegistry) (result : Result Refusal DeviceRegistry)
    → Sound registry
    → ((next : DeviceRegistry) → result ≡ ok next → Sound next)
    → registered registry result ≡ some after
    → Sound after
registered-Sound registry after (ok next) s h e = subst Sound (some_injective e) (h next refl)
registered-Sound registry after (err r) s h e = subst Sound (some_injective e) s
registered-Sound registry after fault s h e = cc

change-Sound :
    (registry after : DeviceRegistry) (c : Change)
    → Sound registry
    → Gets registry c
    → change registry c ≡ some after
    → Sound after
unfolding change
change-Sound registry after (registers cng id name bytes size) s fresh e =
    registered-Sound registry after _ s
      (λ next r. register_device-Sound cng registry next id name bytes size s fresh (inl r)) e
change-Sound registry after (registers_der cng id name bytes size) s fresh e =
    registered-Sound registry after _ s
      (λ next r. register_device-Sound cng registry next id name bytes size s fresh (inr r)) e
change-Sound registry after (unregisters id) s fresh e =
    subst Sound (some_injective e) (unregister_device-Sound registry id s)

-- Through any registrations and removals, if no device has the handle that an import returns, every
-- device has a key handle of its own.
pub history-Sound :
    (registry end : DeviceRegistry) (changes : List Change)
    → Sound registry
    → AllFresh registry changes
    → history registry changes ≡ some end
    → Sound end
unfolding history
history-Sound registry end [] s fresh e = subst Sound (some_injective e) s
history-Sound registry end (c ∷ cs) s (now, next) e = elim (Option-cases (change registry c)) [
  | inl broken ↦ let stuck : history registry (c ∷ cs) ≡ none = rw (broken, history) refl in cc
  | inr (after, changed) ↦
      let goes : history registry (c ∷ cs) ≡ history after cs = rw (changed, history) refl in
      history-Sound after end cs (change-Sound registry after c s now changed) (next after changed)
        (sym goes ∙ e)
]
