-- ===== src/Logon/Installed.antt =====
-- windows/credential-provider/dllmain.cpp: `DllMain`, and the registry key under which Windows finds
-- the provider. What the calls of the registry return is an argument.
use Prim.Native.String.{String}
use phonekey.Prelude.{
  ℕ, ◌≡◌, refl, Bool, true, false, List, [], ◌∷◌, ◌++◌, Option, none, some, if◌then◌else◌,
}
use phonekey.Logon.{Hresult, s_ok, e_fail}

-- `ul_reason_for_call`
pub data Reason : Type 0 where
  process_attach process_detach thread_attach thread_detach : Reason

-- `DllMain`: what it returns, and `g_hInst`.
unfoldable pub dll_main : Reason → ℕ → Option ℕ → Bool × Option ℕ
dll_main process_attach module_handle instance_handle = (true, some module_handle)
dll_main process_detach module_handle instance_handle = (true, instance_handle)
dll_main thread_attach module_handle instance_handle = (true, instance_handle)
dll_main thread_detach module_handle instance_handle = (true, instance_handle)

-- The subkey of the provider: there is none, or it has a default value or none.
abbrev pub Subkey : Type 0
Subkey = Option (Option String)

abbrev value_of : Subkey → Option String
value_of none = none
value_of (some value) = value

-- What happens to handles of registry keys.
pub data KeyEffect : Type 0 where
  key_opened key_closed : ℕ → KeyEffect

-- `DllRegisterServer`: the handle that `RegCreateKeyExW` gives, and whether `RegSetValueExW` succeeds.
unfoldable pub dll_register_server : Option ℕ → Bool → Subkey → Hresult × Subkey × List KeyEffect
dll_register_server none set subkey = (e_fail, subkey, [])
dll_register_server (some key) set subkey = (
  s_ok,
  some (if set then some "PhoneKeyCredentialProvider" else value_of subkey),
  key_opened key ∷ key_closed key ∷ [],
)

-- `DllUnregisterServer`: whether `RegDeleteKeyW` succeeds.
unfoldable pub dll_unregister_server : Bool → Subkey → Hresult × Subkey
dll_unregister_server deleted subkey = (s_ok, if deleted then none else subkey)

-- A call of the installer, and the subkey behind some of them, with what happened to handles.
pub data Installation : Type 0 where
  registers : Option ℕ → Bool → Installation
  unregisters : Bool → Installation

unfoldable pub install : Installation → Subkey → Subkey × List KeyEffect
install (registers key set) subkey =
    let (answer, after, effects) = dll_register_server key set subkey in (after, effects)
install (unregisters deleted) subkey = ((dll_unregister_server deleted subkey).1, [])

unfoldable pub install_all : List Installation → Subkey → Subkey × List KeyEffect
install_all [] subkey = (subkey, [])
install_all (i ∷ is) subkey =
    let (after, effects) = install i subkey in
    let (end, more) = install_all is after in (end, effects ++ more)

abbrev is_there : Subkey → Bool
is_there none = false
is_there (some value) = true

-- Whether the provider is registered behind some calls: the last call that took effect decides.
abbrev there_behind : List Installation → Bool → Bool
there_behind [] there = there
there_behind (registers none set ∷ is) there = there_behind is there
there_behind (registers (some key) set ∷ is) there = there_behind is true
there_behind (unregisters true ∷ is) there = there_behind is false
there_behind (unregisters false ∷ is) there = there_behind is there

-- Every handle is closed at once.
abbrev ClosedAtOnce : List KeyEffect → Type 0
ClosedAtOnce [] = Unit {0}
ClosedAtOnce (key_opened key ∷ []) = ⊥
ClosedAtOnce (key_opened key ∷ key_opened other ∷ effects) = ⊥
ClosedAtOnce (key_opened key ∷ key_closed other ∷ effects) = (key ≡ other) × ClosedAtOnce effects
ClosedAtOnce (key_closed key ∷ effects) = ⊥

-- Through any calls of DllRegisterServer and DllUnregisterServer the subkey of the provider is there
-- exactly if, of the calls whose system call took effect, the last one was DllRegisterServer; and each
-- handle that is opened is closed at once.
install_all-there :
    (installations : List Installation) (subkey : Subkey)
    → (is_there (install_all installations subkey).0 ≡ there_behind installations (is_there subkey))
      × ClosedAtOnce (install_all installations subkey).1
unfolding install_all install dll_register_server dll_unregister_server
install_all-there [] subkey = (refl, tt)
install_all-there (registers none set ∷ is) subkey = install_all-there is subkey
install_all-there (registers (some key) set ∷ is) subkey =
    let (there, closed) = install_all-there is (dll_register_server (some key) set subkey).1 in
    (there, (refl, closed))
install_all-there (unregisters true ∷ is) subkey = install_all-there is none
install_all-there (unregisters false ∷ is) subkey = install_all-there is subkey
