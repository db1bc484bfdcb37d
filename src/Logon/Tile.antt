-- ===== src/Logon/Tile.antt =====
-- windows/credential-provider: what the provider and its credential keep between the calls of the
-- logon screen, and the constants that they answer. A pointer that is not given is `false`.
use phonekey.Prelude.{
  ℕ, ◌+◌, ◌-◌, ◌^◌, Bool, false, not, ◌||◌, List, [], ◌∷◌, Option, none, some, ◌==◌, if◌then◌else◌,
}
use phonekey.Prelude.Words.{u32}
use phonekey.Logon.{Hresult, s_ok, s_false, e_pointer, e_not_impl, e_invalid_arg, e_out_of_memory}

-- What happens to the reference counts of the objects that the logon screen passes in.
pub data EventEffect : Type 0 where
  reference_added reference_released : ℕ → EventEffect

pub data UsageScenario : Type 0 where
  logon unlock_workstation change_password cred_ui other_scenario : UsageScenario

-- PhoneKeyCredentialProvider's `m_cpus`, `m_pcpe` and `m_upRef`. PhoneKeyCredential has `m_pcpce` in
-- place of `m_pcpe` and neither of the others.
pub record Provider : Type 0 where
  pub scenario : UsageScenario
  pub events : Option ℕ
  pub up_ref : ℕ

abbrev pub new_provider : Provider
new_provider = record { scenario = logon; events = none; up_ref = 0 }

unfoldable pub set_usage_scenario : UsageScenario → Provider → Hresult × Provider
set_usage_scenario logon p = (s_ok, record p { scenario = logon })
set_usage_scenario unlock_workstation p = (s_ok, record p { scenario = unlock_workstation })
set_usage_scenario scenario p = (e_not_impl, record p { scenario = scenario })

-- `if (m_pcpe) m_pcpe->AddRef();`
unfoldable pub add_reference : Option ℕ → List EventEffect
add_reference none = []
add_reference (some object) = reference_added object ∷ []

unfoldable pub release_reference : Option ℕ → List EventEffect
release_reference none = []
release_reference (some object) = reference_released object ∷ []

-- `PhoneKeyCredentialProvider::Advise`
unfoldable pub advise : Option ℕ → ℕ → Provider → Provider × List EventEffect
advise events up_ref p = (record p { events = events; up_ref = up_ref }, add_reference events)

-- `PhoneKeyCredentialProvider::UnAdvise`
unfoldable pub un_advise : Provider → Provider × List EventEffect
un_advise p = (record p { events = none }, release_reference p.events)

-- `PhoneKeyCredential::Advise` and `UnAdvise`, on `m_pcpce`.
unfoldable pub credential_advise : Option ℕ → Option ℕ → Option ℕ × List EventEffect
credential_advise events before = (events, add_reference events)

unfoldable pub credential_un_advise : Option ℕ → Option ℕ × List EventEffect
credential_un_advise before = (none, release_reference before)

-- `GetCredentialCount`: the count, the default and whether to log on without a click.
unfoldable pub get_credential_count : Bool → Bool → Bool → Hresult × Option (ℕ × ℕ × Bool)
get_credential_count has_count has_default has_auto_logon =
    if not has_count || (not has_default || not has_auto_logon)
    then (e_pointer, none)
    else (s_ok, some (1, 0, false))

unfoldable pub get_field_descriptor_count : Bool → Hresult × Option ℕ
get_field_descriptor_count has_count = if not has_count then (e_pointer, none) else (s_ok, some 1)

-- `GetFieldDescriptorAt`: the number of the field that is described.
unfoldable pub get_field_descriptor_at : ℕ → Bool → Bool → Hresult × Option ℕ
get_field_descriptor_at index given allocated =
    if not (index == 0) || not given
    then (e_invalid_arg, none)
    else if not allocated
    then (e_out_of_memory, none)
    else (s_ok, some 0)

-- `LockServer` on the LONG `g_cRefModule`, and `DllCanUnloadNow`.
unfoldable pub lock_server : Bool → ℕ → ℕ
lock_server lock count = if lock then u32 (count + 1) else u32 (count + (2 ^ 32 - 1))

unfoldable pub dll_can_unload_now : ℕ → Hresult
dll_can_unload_now count = if count == 0 then s_ok else s_false
