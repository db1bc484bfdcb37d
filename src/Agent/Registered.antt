-- ===== src/Agent/Registered.antt =====
-- `AgentService::RegisterDevice`, and which signatures the agent takes afterwards.
use phonekey.Prelude.{ℕ, ◌≡◌, ◌≢◌, refl, subst, List, ok, >>=-eq-ok, ok_injective}
use phonekey.Signature.{Cng, import_raw_public_key}
use phonekey.Registry.{device_key, register_device, get_device_public_key}
use phonekey.Registry.Lookup.{register_device_lookup}
use phonekey.Agent.{AgentService, register_phone}

-- After RegisterDevice answers true the agent verifies the signatures of the device under the handle
-- that CNG imported from the given bytes, which is not NULL; the keys of the other devices and the
-- challenges are as before.
pub register_phone_key :
    (cng : Cng) (agent after : AgentService) (device_id name bytes : List ℕ) (size : ℕ)
    → register_phone cng agent device_id name bytes size ≡ ok after
    → (get_device_public_key after.device_registry device_id ≢ 0)
      × (import_raw_public_key cng bytes size
          ≡ ok (get_device_public_key after.device_registry device_id))
      × ((other : List ℕ)
          → device_key device_id ≢ device_key other
          → get_device_public_key after.device_registry other
            ≡ get_device_public_key agent.device_registry other)
      × (after.challenge_store ≡ agent.challenge_store)
unfolding register_phone
register_phone_key cng agent after device_id name bytes size e =
    let (registry, registered, rest) =
      >>=-eq-ok (register_device cng agent.device_registry device_id name bytes size) _ e in
    let (known, real, imported, others) =
      register_device_lookup cng agent.device_registry registry device_id name bytes size
        registered in
    let same : record agent { device_registry = registry } ≡ after = ok_injective rest in
    subst
      (λ a.
        (get_device_public_key a.device_registry device_id ≢ 0)
        × (import_raw_public_key cng bytes size
            ≡ ok (get_device_public_key a.device_registry device_id))
        × ((other : List ℕ)
            → device_key device_id ≢ device_key other
            → get_device_public_key a.device_registry other
              ≡ get_device_public_key agent.device_registry other)
        × (a.challenge_store ≡ agent.challenge_store))
      same (real, imported, others, refl)
