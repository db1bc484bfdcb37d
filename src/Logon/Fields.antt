-- ===== src/Logon/Fields.antt =====
-- windows/credential-provider/PhoneKeyCredential.cpp: the methods about the fields of the tile, and
-- what they write through the pointers of their caller.
use Prim.Native.String.{String}
use phonekey.Prelude.{
  ℕ, ◌≡◌, refl, Bool, true, false, not, List, [], ◌∷◌, ◌++◌, if◌then◌else◌, ◌&&◌, Bool-cases, inl,
  inr,
}
use phonekey.Logon.{Hresult, s_ok, e_pointer, e_not_impl, StatusIcon, icon_success, succeeded}

-- What is written.
pub data Value : Type 0 where
  flag : Bool → Value
  number : ℕ → Value
  text : String → Value
  icon : StatusIcon → Value
  display_in_both interactive_none null : Value

-- A write through a pointer, named by its place among the outputs of the method.
abbrev pub Write : Type 0
Write = ℕ × Value

-- `if (pointer) *pointer = value;`
abbrev pub write_if : Bool → ℕ → Value → List Write
write_if given place value = if given then (place, value) ∷ [] else []

unfoldable pub set_selected : Bool → Hresult × List Write
set_selected given = (s_ok, write_if given 0 (flag false))

unfoldable pub get_field_state : Bool → Bool → Hresult × List Write
get_field_state wants_state wants_interactive =
    (s_ok, write_if wants_state 0 display_in_both ++ write_if wants_interactive 1 interactive_none)

-- `SHStrDupW` writes the copy where it succeeds.
unfoldable pub get_string_value : Bool → Hresult → Hresult × List Write
get_string_value given copied =
    if not given
    then (e_pointer, [])
    else (copied, if succeeded copied then (0, text "PhoneKey Biometric Unlock") ∷ [] else [])

unfoldable pub get_bitmap_value : Bool → Hresult × List Write
get_bitmap_value given = (e_not_impl, write_if given 0 null)

unfoldable pub get_checkbox_value : Bool → Bool → Hresult × List Write
get_checkbox_value wants_checked wants_label =
    (e_not_impl, write_if wants_checked 0 (flag false) ++ write_if wants_label 1 null)

unfoldable pub get_submit_button_value : Bool → Hresult × List Write
get_submit_button_value given = (e_not_impl, write_if given 0 (number 0))

unfoldable pub get_combo_box_value_count : Bool → Bool → Hresult × List Write
get_combo_box_value_count wants_items wants_default =
    (e_not_impl, write_if wants_items 0 (number 0) ++ write_if wants_default 1 (number 0))

unfoldable pub get_combo_box_value_at : Bool → Hresult × List Write
get_combo_box_value_at given = (e_not_impl, write_if given 0 null)

unfoldable pub get_user_sid : Bool → Hresult × List Write
get_user_sid given = if not given then (e_pointer, []) else (e_not_impl, (0, null) ∷ [])

unfoldable pub report_result : Bool → Bool → Hresult × List Write
report_result wants_text wants_icon =
    (s_ok, write_if wants_text 0 null ++ write_if wants_icon 1 (icon icon_success))

-- A method with the pointers that are given, and for `GetStringValue` what `SHStrDupW` returns. The
-- last five have no outputs and do nothing.
pub data Method : Type 0 where
  sets_selected asks_bitmap asks_submit_button asks_combo_box_item asks_user_sid : Bool → Method
  asks_field_state asks_checkbox asks_combo_box_count reports_result : Bool → Bool → Method
  asks_string : Bool → Hresult → Method
  sets_deselected sets_string sets_checkbox sets_combo_box clicks_link : Method

unfoldable pub call_method : Method → Hresult × List Write
call_method (sets_selected given) = set_selected given
call_method (asks_bitmap given) = get_bitmap_value given
call_method (asks_submit_button given) = get_submit_button_value given
call_method (asks_combo_box_item given) = get_combo_box_value_at given
call_method (asks_user_sid given) = get_user_sid given
call_method (asks_field_state first second) = get_field_state first second
call_method (asks_checkbox first second) = get_checkbox_value first second
call_method (asks_combo_box_count first second) = get_combo_box_value_count first second
call_method (reports_result first second) = report_result first second
call_method (asks_string given copied) = get_string_value given copied
call_method sets_deselected = (s_ok, [])
call_method sets_string = (s_ok, [])
call_method sets_checkbox = (s_ok, [])
call_method sets_combo_box = (s_ok, [])
call_method clicks_link = (s_ok, [])

abbrev two_places : Bool → Bool → List ℕ
two_places first second = (if first then 0 ∷ [] else []) ++ (if second then 1 ∷ [] else [])

-- The places of the pointers that are given.
abbrev pub given_places : Method → List ℕ
given_places (sets_selected given) = if given then 0 ∷ [] else []
given_places (asks_bitmap given) = if given then 0 ∷ [] else []
given_places (asks_submit_button given) = if given then 0 ∷ [] else []
given_places (asks_combo_box_item given) = if given then 0 ∷ [] else []
given_places (asks_user_sid given) = if given then 0 ∷ [] else []
given_places (asks_field_state first second) = two_places first second
given_places (asks_checkbox first second) = two_places first second
given_places (asks_combo_box_count first second) = two_places first second
given_places (reports_result first second) = two_places first second
given_places (asks_string given copied) = if given then 0 ∷ [] else []
given_places sets_deselected = []
given_places sets_string = []
given_places sets_checkbox = []
given_places sets_combo_box = []
given_places clicks_link = []

abbrev pub places : List Write → List ℕ
places [] = []
places ((place, value) ∷ writes) = place ∷ places writes

-- The one method whose value must be copied, and the copy is refused.
abbrev pub copy_fails : Method → Bool
copy_fails (asks_string given copied) = given && not (succeeded copied)
copy_fails _ = false

one_written :
    (given : Bool) (value : Value)
    → places (write_if given 0 value) ≡ (if given then 0 ∷ [] else [])
one_written true value = refl
one_written false value = refl

two_written :
    (first second : Bool) (value value' : Value)
    → places (write_if first 0 value ++ write_if second 1 value') ≡ two_places first second
two_written true true value value' = refl
two_written true false value value' = refl
two_written false true value value' = refl
two_written false false value value' = refl

-- Each of the fifteen methods about the fields writes through exactly the pointers that its caller
-- gave, each once and in their order, and through no null pointer; GetStringValue alone writes nothing
-- when the text cannot be copied.
pub call_method-places :
    (method : Method)
    → places (call_method method).1 ≡ (if copy_fails method then [] else given_places method)
unfolding call_method set_selected get_bitmap_value get_submit_button_value get_combo_box_value_at
    get_user_sid get_field_state get_checkbox_value get_combo_box_value_count report_result
    get_string_value
call_method-places (sets_selected given) = one_written given _
call_method-places (asks_bitmap given) = one_written given _
call_method-places (asks_submit_button given) = one_written given _
call_method-places (asks_combo_box_item given) = one_written given _
call_method-places (asks_user_sid true) = refl
call_method-places (asks_user_sid false) = refl
call_method-places (asks_field_state first second) = two_written first second _ _
call_method-places (asks_checkbox first second) = two_written first second _ _
call_method-places (asks_combo_box_count first second) = two_written first second _ _
call_method-places (reports_result first second) = two_written first second _ _
call_method-places (asks_string true copied) = elim (Bool-cases (succeeded copied)) [
  | inl copies ↦ rw copies refl
  | inr fails ↦ rw fails refl
]
call_method-places (asks_string false copied) = refl
call_method-places sets_deselected = refl
call_method-places sets_string = refl
call_method-places sets_checkbox = refl
call_method-places sets_combo_box = refl
call_method-places clicks_link = refl
