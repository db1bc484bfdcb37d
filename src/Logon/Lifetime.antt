-- ===== src/Logon/Lifetime.antt =====
-- The references to the objects that the logon screen is given.
use phonekey.Prelude.{
  ℕ, ◌≡◌, refl, Bool, true, false, not, ◌||◌, ◌⊎◌, inl, inr, Option, none, some, ◌==◌,
  if◌then◌else◌, Bool-cases,
}
use phonekey.Logon.{
  Hresult, succeeded, Object, new_object, add_ref, release, query_interface, get_credential_at,
  create_instance, dll_get_class_object, e_out_of_memory,
}

-- Success comes with an object that has one reference, which is the caller's, and failure leaves no
-- object alive.
abbrev pub HandedOut : Hresult × Option Object → Type 0
HandedOut (hr, made) =
    ((succeeded hr ≡ true) × (made ≡ some (record { ref_count = 1; deleted = false })))
    ⊎ ((succeeded hr ≡ false)
        × ((made ≡ none) ⊎ (made ≡ some (record { ref_count = 0; deleted = true }))))

made : (hr : Hresult) → HandedOut (hr, some (release (query_interface hr new_object)))
unfolding release query_interface add_ref
made hr = elim (Bool-cases (succeeded hr)) [
  | inl found ↦ inl (found, rw found refl)
  | inr fails ↦ inr (fails, inr (rw fails refl))
]

HandedOut-if :
    (b : Bool) (x y : Hresult × Option Object)
    → HandedOut x
    → HandedOut y
    → HandedOut (if b then x else y)
HandedOut-if true x y hx hy = hx
HandedOut-if false x y hx hy = hy

-- GetCredentialAt, CreateInstance and DllGetClassObject, whatever the allocation and QISearch answer:
-- where the result is a success there is one object, it is alive, and its one reference is the
-- caller's; where it is a failure no object was made, or it was deleted.
pub handed_out :
    (index : ℕ) (given outer known allocated : Bool) (hr : Hresult)
    → HandedOut (get_credential_at index given allocated hr)
      × HandedOut (create_instance outer allocated hr)
      × HandedOut (dll_get_class_object known allocated hr)
unfolding get_credential_at create_instance dll_get_class_object
handed_out index given outer known allocated hr =
    let object : HandedOut (
        if not allocated
        then (e_out_of_memory, none)
        else (hr, some (release (query_interface hr new_object)))) =
      HandedOut-if (not allocated) _ _ (inr (refl, inl refl)) (made hr) in
    (
      HandedOut-if (not (index == 0) || not given) _ _ (inr (refl, inl refl)) object,
      HandedOut-if outer _ _ (inr (refl, inl refl)) object,
      HandedOut-if known _ _ object (inr (refl, inl refl)),
    )
