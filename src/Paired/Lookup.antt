-- ===== src/Paired/Lookup.antt =====
-- What the manager answers after its list was changed.
use phonekey.Prelude.{
  ℕ, ◌≡◌, refl, sym, arith, Bool, List, [], ◌∷◌, some, if◌then◌else◌, same_bytes, same_bytes_iff,
  All, Bool-cases, inl, inr,
}
use phonekey.Paired.{
  PairedDeviceInfo, Devices, put_device, mark_primary, get_device, register_paired,
  set_primary_device,
}

get-put :
    (info : PairedDeviceInfo) (j : List ℕ) (ds : Devices)
    → get_device j (put_device info ds)
      ≡ (if same_bytes info.device_id j then some info else get_device j ds)
unfolding put_device get_device
get-put info j [] = refl
get-put info j (d ∷ ds) = ground (
  arith,
  same_bytes_iff d.device_id info.device_id,
  same_bytes_iff d.device_id j,
  same_bytes_iff info.device_id j,
  get-put info j ds,
)

-- After RegisterDevice the entry of the device is the new one, and the entry of every other device is
-- as before.
pub get-register_paired :
    (encrypt : List ℕ → Bool) (info : PairedDeviceInfo) (j : List ℕ) (ds : Devices)
    → get_device j (register_paired encrypt info ds).1
      ≡ (if same_bytes info.device_id j then some info else get_device j ds)
unfolding register_paired
get-register_paired encrypt info j ds = get-put info j ds

-- The device is primary exactly if it has the identifier.
abbrev MarkedFor : List ℕ → PairedDeviceInfo → Type 0
MarkedFor device_id d = d.is_primary ≡ same_bytes d.device_id device_id

mark_primary-All :
    (device_id : List ℕ) (ds : Devices) → All (MarkedFor device_id) (mark_primary device_id ds).1
unfolding mark_primary
mark_primary-All device_id [] = tt
mark_primary-All device_id (d ∷ ds) =
    let rest = mark_primary-All device_id ds in
    elim (Bool-cases (same_bytes d.device_id device_id)) [
      | inl same ↦ rw (same, mark_primary) (sym same, rest)
      | inr other ↦ rw (other, mark_primary) (sym other, rest)
    ]

-- After SetPrimaryDevice a device is primary exactly if it has the identifier, whatever was primary
-- before, and with an unknown identifier none is.
set_primary_device-All :
    (encrypt : List ℕ → Bool) (device_id : List ℕ) (ds : Devices)
    → All (MarkedFor device_id) (set_primary_device encrypt device_id ds).1
unfolding set_primary_device
set_primary_device-All encrypt device_id ds = mark_primary-All device_id ds
