-- ===== src/Paired.antt =====
-- windows/agent/MultiDeviceManager.h and MultiDeviceManager.cpp: the list of paired phones. The
-- encryption by Windows DPAPI is an argument that says whether it succeeds on a buffer; the manager
-- throws the ciphertext away.
pub mod Lookup
pub mod History
use phonekey.Prelude.{
  ℕ, Bool, true, false, List, [], ◌∷◌, ◌++◌, Option, none, some, if◌then◌else◌, same_bytes, ◌==◌,
  length, Result, ok,
}
use phonekey.Signature.{Cng, Refusal, import_raw_public_key}
use phonekey.Dpapi.{Protection, encrypt_data}

pub record PairedDeviceInfo : Type 0 where
  pub device_id : List ℕ
  pub nickname : List ℕ
  pub raw_public_key : List ℕ
  pub is_primary : Bool
  pub paired_timestamp_ms : ℕ
  pub last_used_timestamp_ms : ℕ

abbrev pub Devices : Type 0
Devices = List PairedDeviceInfo

-- The buffer that `SaveStore` encrypts.
unfoldable pub store_bytes : Devices → List ℕ
store_bytes [] = []
store_bytes (d ∷ ds) =
    d.device_id ++ ((if d.is_primary then 1 else 0) ∷ (d.raw_public_key ++ store_bytes ds))

-- The change that `RegisterDevice` makes: the first entry of the identifier is replaced, or a new one
-- is appended.
unfoldable pub put_device : PairedDeviceInfo → Devices → Devices
put_device info [] = info ∷ []
put_device info (d ∷ ds) =
    let rest = put_device info ds in
    if same_bytes d.device_id info.device_id then info ∷ ds else d ∷ rest

-- `RegisterDevice`: the result of `SaveStore`, and the list.
unfoldable pub register_paired : (List ℕ → Bool) → PairedDeviceInfo → Devices → Bool × Devices
register_paired encrypt info ds =
    let after = put_device info ds in (encrypt (store_bytes after), after)

-- `std::remove_if` on the identifier, with `erase`.
unfoldable pub remove_device : List ℕ → Devices → Devices
remove_device device_id [] = []
remove_device device_id (d ∷ ds) =
    let rest = remove_device device_id ds in
    if same_bytes d.device_id device_id then rest else d ∷ rest

-- `RevokeDevice`; `it == m_devices.end()` if nothing was removed.
unfoldable pub revoke_device : (List ℕ → Bool) → List ℕ → Devices → Bool × Devices
revoke_device encrypt device_id ds =
    let after = remove_device device_id ds in
    if length after == length ds then (false, ds) else (encrypt (store_bytes after), after)

-- The loop of `SetPrimaryDevice`, with `found`.
unfoldable pub mark_primary : List ℕ → Devices → Bool × Devices
mark_primary device_id [] = (false, [])
mark_primary device_id (d ∷ ds) =
    let (found, rest) = mark_primary device_id ds in
    if same_bytes d.device_id device_id
    then (true, record d { is_primary = true } ∷ rest)
    else (found, record d { is_primary = false } ∷ rest)

unfoldable pub set_primary_device : (List ℕ → Bool) → List ℕ → Devices → Bool × Devices
set_primary_device encrypt device_id ds =
    let (found, after) = mark_primary device_id ds in
    (if found then encrypt (store_bytes after) else false, after)

-- `GetDevice`
unfoldable pub get_device : List ℕ → Devices → Option PairedDeviceInfo
get_device device_id [] = none
get_device device_id (d ∷ ds) =
    if same_bytes d.device_id device_id then some d else get_device device_id ds

-- `GetPublicKeyHandle`: NULL for an unknown device or an empty key.
unfoldable pub get_public_key_handle : Cng → List ℕ → Devices → Result Refusal ℕ
get_public_key_handle cng device_id ds = elim (get_device device_id ds) [
  | none ↦ ok 0
  | some info ↦
      if length info.raw_public_key == 0
      then ok 0
      else import_raw_public_key cng info.raw_public_key (length info.raw_public_key)
]

-- `SaveStore` with `DpapiStorage::EncryptData`.
abbrev pub saves : Protection → List ℕ → Bool
saves p bytes = elim (encrypt_data p bytes) [ none ↦ false | some encrypted ↦ true ]

-- A call that changes the list.
pub data PairedCall : Type 0 where
  pairs : PairedDeviceInfo → PairedCall
  revokes makes_primary : List ℕ → PairedCall

unfoldable pub manage : (List ℕ → Bool) → PairedCall → Devices → Bool × Devices
manage encrypt (pairs info) ds = register_paired encrypt info ds
manage encrypt (revokes device_id) ds = revoke_device encrypt device_id ds
manage encrypt (makes_primary device_id) ds = set_primary_device encrypt device_id ds

-- A history of calls: the answers, and the list.
unfoldable pub manage_all : (List ℕ → Bool) → List PairedCall → Devices → List Bool × Devices
manage_all encrypt [] ds = ([], ds)
manage_all encrypt (c ∷ cs) ds =
    let (answer, after) = manage encrypt c ds in
    let (answers, end) = manage_all encrypt cs after in (answer ∷ answers, end)
