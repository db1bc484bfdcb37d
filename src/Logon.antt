-- ===== src/Logon.antt =====
-- windows/credential-provider: the COM objects of the logon screen. Null pointers, allocations and
-- what `QISearch` and the pipe answer are arguments; an output that a call leaves alone is `none`.
pub mod Credentials
pub mod Events
pub mod Lifetime
pub mod Tile
pub mod Fields
pub mod Installed
use Prim.Native.String.{String}
use phonekey.Prelude.{
  ℕ, ◌+◌, ◌-◌, ◌^◌, Bool, true, false, not, ◌&&◌, ◌||◌, List, [], ◌∷◌, Option, none, some, ◌==◌,
  if◌then◌else◌, length,
}
use phonekey.Prelude.Words.{u32}
use phonekey.Pipe.{IpcPacket, req_unlock}

pub data Hresult : Type 0 where
  s_ok s_false e_pointer e_not_impl e_invalid_arg e_out_of_memory : Hresult
  e_fail e_no_interface class_e_no_aggregation class_e_class_not_available : Hresult

abbrev pub succeeded : Hresult → Bool
succeeded s_ok = true
succeeded s_false = true
succeeded _ = false

-- An object with `m_cRef`, and whether `delete this` has run.
pub record Object : Type 0 where
  pub ref_count : ℕ
  pub deleted : Bool

-- The constructors of PhoneKeyCredential, PhoneKeyCredentialProvider and PhoneKeyClassFactory.
abbrev pub new_object : Object
new_object = record { ref_count = 1; deleted = false }

-- `AddRef` and `Release` count in a LONG of 32 bits.
unfoldable pub add_ref : Object → Object
add_ref object = record object { ref_count = u32 (object.ref_count + 1) }

unfoldable pub release : Object → Object
release object =
    let c_ref = u32 (object.ref_count + (2 ^ 32 - 1)) in
    record object { ref_count = c_ref; deleted = (c_ref == 0) || object.deleted }

-- `QueryInterface`: QISearch adds a reference where it finds the interface.
unfoldable pub query_interface : Hresult → Object → Object
query_interface hr object = if succeeded hr then add_ref object else object

-- `PhoneKeyCredentialProvider::GetCredentialAt`: the result, and the object if one was made.
unfoldable pub get_credential_at : ℕ → Bool → Bool → Hresult → Hresult × Option Object
get_credential_at index given allocated hr =
    if not (index == 0) || not given
    then (e_invalid_arg, none)
    else if not allocated
    then (e_out_of_memory, none)
    else (hr, some (release (query_interface hr new_object)))

-- `PhoneKeyClassFactory::CreateInstance`
unfoldable pub create_instance : Bool → Bool → Hresult → Hresult × Option Object
create_instance outer allocated hr =
    if outer
    then (class_e_no_aggregation, none)
    else if not allocated
    then (e_out_of_memory, none)
    else (hr, some (release (query_interface hr new_object)))

-- `DllGetClassObject`: whether the class is the provider's.
unfoldable pub dll_get_class_object : Bool → Bool → Hresult → Hresult × Option Object
dll_get_class_object known allocated hr =
    if known
    then if not allocated
      then (e_out_of_memory, none)
      else (hr, some (release (query_interface hr new_object)))
    else (class_e_class_not_available, none)

pub data SerializationResponse : Type 0 where
  no_credential_finished return_credential_finished : SerializationResponse

pub data StatusIcon : Type 0 where
  icon_error icon_success : StatusIcon

-- `cbSerialization` and `rgbSerialization`
pub record Serialization : Type 0 where
  pub size : ℕ
  pub bytes : List ℕ

-- What `GetSerialization` writes through its four pointers.
pub record Outputs : Type 0 where
  pub response : Option SerializationResponse
  pub serialization : Option Serialization
  pub status_text : Option String
  pub status_icon : Option StatusIcon

abbrev pub no_outputs : Outputs
no_outputs = record {
  response = none;
  serialization = none;
  status_text = none;
  status_icon = none;
}

-- The request that is sent to the agent.
abbrev pub unlock_request : IpcPacket
unlock_request = record { kind = req_unlock; status_code = 0; payload = [] }

-- `if (pointer) *pointer = value;`
abbrev pub when_given {ℓ} : {A : Type ℓ} → Bool → A → Option A
when_given given value = if given then some value else none

abbrev pub refused_outputs : Bool → Bool → Outputs
refused_outputs wants_text wants_icon = record no_outputs {
  response = some no_credential_finished;
  status_text = when_given wants_text "PhoneKey Biometric Authentication Failed or Timed Out";
  status_icon = when_given wants_icon icon_error;
}

abbrev pub granted_outputs : Bool → Bool → List ℕ → Outputs
granted_outputs wants_text wants_icon credential = record {
  response = some return_credential_finished;
  serialization = some (record { size = u32 (length credential); bytes = credential });
  status_text = when_given wants_text "PhoneKey Biometric Unlock Authorized";
  status_icon = when_given wants_icon icon_success;
}

-- `GetSerialization`: which pointers are given, what SendIpcRequest returned and left in `resp`, and
-- whether the buffer could be allocated.
unfoldable pub get_serialization :
    Bool → Bool → Bool → Bool → Bool × IpcPacket → Bool → Hresult × Outputs
get_serialization has_response has_serialization wants_text wants_icon (ipc_ok, resp) allocated =
    if not has_response || not has_serialization
    then (e_pointer, no_outputs)
    else if not ipc_ok || (not (resp.status_code == 0) || (length resp.payload == 0))
    then (s_ok, refused_outputs wants_text wants_icon)
    else if not allocated
    then (e_out_of_memory, no_outputs)
    else (s_ok, granted_outputs wants_text wants_icon resp.payload)
