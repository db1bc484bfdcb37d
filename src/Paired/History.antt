-- ===== src/Paired/History.antt =====
-- The list of paired devices over a history of calls, against a function from identifiers to devices.
use std.Path.{fun_ext}
use phonekey.Prelude.{
  ℕ, ◌≤◌, ◌≡◌, ◌≢◌, refl, sym, ap, ap₂, ◌∙◌, arith, Bool, true, false, not, ◌&&◌, List, [], ◌∷◌,
  ◌++◌, Option, none, some, Bool-cases, inl, inr, ◌==◌, ==_iff, ==_false, same_bytes,
  same_bytes_iff, if◌then◌else◌, length, length-append,
}
use phonekey.Dpapi.{Protection, encrypt_data}
use phonekey.Paired.{
  PairedDeviceInfo, Devices, store_bytes, put_device, register_paired, remove_device, revoke_device,
  mark_primary, set_primary_device, get_device, saves, PairedCall, pairs, revokes, makes_primary,
  manage, manage_all,
}
use phonekey.Paired.Lookup.{get-register_paired}

-- What the manager promises to remember.
abbrev View : Type 0
View = List ℕ → Option PairedDeviceInfo

abbrev pub view_of : Devices → View
view_of ds j = get_device j ds

abbrev primary_if : Bool → Option PairedDeviceInfo → Option PairedDeviceInfo
primary_if is none = none
primary_if is (some d) = some (record d { is_primary = is })

abbrev view_after : PairedCall → View → View
view_after (pairs info) view j = if same_bytes info.device_id j then some info else view j
view_after (revokes device_id) view j = if same_bytes device_id j then none else view j
view_after (makes_primary device_id) view j = primary_if (same_bytes j device_id) (view j)

abbrev pub view_behind : List PairedCall → View → View
view_behind [] view = view
view_behind (c ∷ cs) view = view_behind cs (view_after c view)

get-remove :
    (device_id j : List ℕ) (ds : Devices)
    → get_device j (remove_device device_id ds)
      ≡ (if same_bytes device_id j then none else get_device j ds)
unfolding get_device remove_device
get-remove device_id j [] = ground arith
get-remove device_id j (d ∷ ds) = ground (
  arith,
  same_bytes_iff d.device_id device_id,
  same_bytes_iff d.device_id j,
  same_bytes_iff device_id j,
  get-remove device_id j ds,
)

remove_le : (device_id : List ℕ) (ds : Devices) → length (remove_device device_id ds) ≤ length ds
unfolding remove_device
remove_le device_id [] = omega arith
remove_le device_id (d ∷ ds) = ground (arith, remove_le device_id ds)

-- What keeps its length keeps its devices.
remove_none :
    (device_id : List ℕ) (ds : Devices)
    → length (remove_device device_id ds) ≡ length ds
    → remove_device device_id ds ≡ ds
unfolding remove_device
remove_none device_id [] e = refl
remove_none device_id (d ∷ ds) e = elim (Bool-cases (same_bytes d.device_id device_id)) [
  | inl same ↦ absurd (omega (arith, rw same at e, remove_le device_id ds))
  | inr other ↦ rw other (ap (◌∷◌ d) (remove_none device_id ds (omega (arith, rw other at e))))
]

get-revoke_device :
    (encrypt : List ℕ → Bool) (device_id j : List ℕ) (ds : Devices)
    → get_device j (revoke_device encrypt device_id ds).1
      ≡ (if same_bytes device_id j then none else get_device j ds)
unfolding revoke_device
get-revoke_device encrypt device_id j ds =
    elim (Bool-cases (length (remove_device device_id ds) == length ds)) [
      | inl same ↦
          let kept = remove_none device_id ds ((==_iff _ _).0 same) in
          rw same (sym (ap (get_device j) kept) ∙ get-remove device_id j ds)
      | inr fewer ↦ rw fewer (get-remove device_id j ds)
    ]

get-mark :
    (device_id j : List ℕ) (ds : Devices)
    → get_device j (mark_primary device_id ds).1
      ≡ primary_if (same_bytes j device_id) (get_device j ds)
unfolding get_device mark_primary
get-mark device_id j [] = refl
get-mark device_id j (d ∷ ds) = ground (
  arith,
  same_bytes_iff d.device_id device_id,
  same_bytes_iff d.device_id j,
  same_bytes_iff j device_id,
  get-mark device_id j ds,
)

manage-view :
    (encrypt : List ℕ → Bool) (c : PairedCall) (ds : Devices)
    → view_of (manage encrypt c ds).1 ≡ view_after c (view_of ds)
unfolding manage set_primary_device
manage-view encrypt (pairs info) ds = fun_ext λ j. get-register_paired encrypt info j ds
manage-view encrypt (revokes device_id) ds = fun_ext λ j. get-revoke_device encrypt device_id j ds
manage-view encrypt (makes_primary device_id) ds = fun_ext λ j. get-mark device_id j ds

-- What DPAPI promises: it encrypts every buffer that is not empty.
abbrev pub Protects : Protection → Type 0
Protects p = (bytes : List ℕ) → length bytes ≢ 0 → (c : List ℕ) × (p.protect bytes ≡ some c)

abbrev is_some : Option PairedDeviceInfo → Bool
is_some none = false
is_some (some d) = true

abbrev known : List ℕ → Devices → Bool
known device_id ds = is_some (get_device device_id ds)

removed-known :
    (device_id : List ℕ) (ds : Devices)
    → (length (remove_device device_id ds) == length ds) ≡ not (known device_id ds)
unfolding remove_device get_device
removed-known device_id [] = refl
removed-known device_id (d ∷ ds) =
    ground (arith, remove_le device_id ds, removed-known device_id ds)

marked-known :
    (device_id : List ℕ) (ds : Devices) → (mark_primary device_id ds).0 ≡ known device_id ds
unfolding mark_primary get_device
marked-known device_id [] = refl
marked-known device_id (d ∷ ds) = ground (arith, marked-known device_id ds)

length-mark : (device_id : List ℕ) (ds : Devices) → length (mark_primary device_id ds).1 ≡ length ds
unfolding mark_primary
length-mark device_id [] = refl
length-mark device_id (d ∷ ds) = ground (arith, length-mark device_id ds)

length-put_device : (info : PairedDeviceInfo) (ds : Devices) → length (put_device info ds) ≢ 0
unfolding put_device
length-put_device info [] e = omega (arith, e)
length-put_device info (d ∷ ds) e = ground arith

known_some : (device_id : List ℕ) (ds : Devices) → known device_id ds ≡ true → length ds ≢ 0
unfolding get_device
known_some device_id [] k e = cc
known_some device_id (d ∷ ds) k e = omega (arith, e)

-- What a call answers: a registration is saved, a device is revoked if it is known and not the last one,
-- and made primary if it is known.
abbrev pub answer_of : PairedCall → Devices → Bool
answer_of (pairs info) ds = true
answer_of (revokes device_id) ds =
    known device_id ds && not (length (remove_device device_id ds) == 0)
answer_of (makes_primary device_id) ds = known device_id ds

abbrev pub answers_of : Protection → List PairedCall → Devices → List Bool
answers_of p [] ds = []
answers_of p (c ∷ cs) ds = answer_of c ds ∷ answers_of p cs (manage (saves p) c ds).1

module _ (p : Protection) (protects : Protects p) where
  saves-some : (ds : Devices) → length ds ≢ 0 → saves p (store_bytes ds) ≡ true
  unfolding encrypt_data store_bytes
  saves-some [] ne = absurd (ne refl)
  saves-some (d ∷ ds) ne =
      let tail = (if d.is_primary then 1 else 0) ∷ (d.raw_public_key ++ store_bytes ds) in
      let size : length (store_bytes (d ∷ ds)) ≢ 0 =
        λ e. omega (arith, e, length-append {0} d.device_id tail) in
      let (c, e) = protects (store_bytes (d ∷ ds)) size in
      let done : encrypt_data p (store_bytes (d ∷ ds)) ≡ some c =
        rw ((==_false _ _).1 size, encrypt_data) e in
      ap (λ o. elim o [ none ↦ false | some encrypted ↦ true ]) done

  saves-none : (ds : Devices) → length ds ≡ 0 → saves p (store_bytes ds) ≡ false
  unfolding encrypt_data store_bytes
  saves-none [] e = refl
  saves-none (d ∷ ds) e = absurd (omega (arith, e))

  manage-answer : (c : PairedCall) (ds : Devices) → (manage (saves p) c ds).0 ≡ answer_of c ds
  unfolding manage register_paired revoke_device set_primary_device
  manage-answer (pairs info) ds = saves-some (put_device info ds) (length-put_device info ds)
  manage-answer (revokes device_id) ds =
      let test = removed-known device_id ds in
      elim (Bool-cases (known device_id ds)) [
        | inl is ↦
            let fewer : (length (remove_device device_id ds) == length ds) ≡ false =
              test ∙ ap not is in
            rw (fewer, is) (left_over (remove_device device_id ds))
        | inr isnt ↦
            let same : (length (remove_device device_id ds) == length ds) ≡ true =
              test ∙ ap not isnt in
            rw (same, isnt) refl
      ]
    where
      left_over : (after : Devices) → saves p (store_bytes after) ≡ not (length after == 0)
      left_over [] = saves-none [] refl
      left_over (d ∷ after) = saves-some (d ∷ after) (λ e. omega (arith, e)) ∙ ground arith
  manage-answer (makes_primary device_id) ds =
      let marked = marked-known device_id ds in
      elim (Bool-cases (known device_id ds)) [
        | inl is ↦
            let found : (mark_primary device_id ds).0 ≡ true = marked ∙ is in
            rw (found, is)
              (saves-some (mark_primary device_id ds).1
                λ e. known_some device_id ds is (sym (length-mark device_id ds) ∙ e))
        | inr isnt ↦
            let missing : (mark_primary device_id ds).0 ≡ false = marked ∙ isnt in
            rw (missing, isnt) refl
      ]

-- In every history of RegisterDevice, RevokeDevice and SetPrimaryDevice, if DPAPI encrypts every buffer
-- that is not empty: for every identifier the manager finds what it would find if it were a function
-- from identifiers to devices in which a registration sets one, a revocation clears one, and
-- SetPrimaryDevice leaves exactly the named device primary; and it answers true exactly for each
-- registration, for the revocation of a known device that is not the last one, and for SetPrimaryDevice
-- of a known device.
pub manage_all_refines :
    (p : Protection) (calls : List PairedCall) (ds : Devices)
    → Protects p
    → (view_of (manage_all (saves p) calls ds).1 ≡ view_behind calls (view_of ds))
      × ((manage_all (saves p) calls ds).0 ≡ answers_of p calls ds)
unfolding manage_all
manage_all_refines p [] ds protects = (refl, refl)
manage_all_refines p (c ∷ cs) ds protects =
    let (views, answers) = manage_all_refines p cs (manage (saves p) c ds).1 protects in
    (
      views ∙ ap (view_behind cs) (manage-view (saves p) c ds),
      ap₂ (λ x xs. x ∷ xs) (manage-answer p protects c ds) answers,
    )
