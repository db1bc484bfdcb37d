-- ===== src/Examples/Lifecycle.antt =====
-- Examples for the life of the agent.
use phonekey.Prelude.{
  ℕ, ◌+◌, ◌≤◌, ◌≡◌, refl, true, List, [], ◌∷◌, ◌++◌, some, none, ok, replicate, arith, false,
}
use phonekey.Prelude.Counting.{occurrences}
use phonekey.Tcp.{
  Effect, none_accepted, accepted_late, shut, close_at, take_client, new_transport, accept_returns,
  perform, start_listener, listen_on, listener_worker, close, close_socket, tell,
  on_connection_state_changed,
}
use phonekey.Tcp.Accounting.{opens, closes, lost_by_close}
use phonekey.Tcp.Calm.{race_count}
use phonekey.Engine.{
  HandleEffect, provider_opened, hash_made, hash_destroyed, initialize, hash_payload,
}
use phonekey.Engine.Releases.{opened_providers, closed_providers, made_hashes, destroyed_hashes}
use phonekey.Frame.{error_msg}
use phonekey.Bluetooth.{
  Bluetooth, new_bluetooth, LinkCall, sets_listener, starts_listening, closes as closes_link, sends,
  pass,
}
use phonekey.Bluetooth.History.{pass_history}
use phonekey.Service.{
  Service, Happening, starts, stops, transport_acts, hashes, new_service, start, stop, happen, live,
  destroy_service, main_program,
}
use phonekey.Service.Program.{AllReleased, dropped_by_program, main_program-AllReleased}
use phonekey.Service.Accounts.{lost, dropped}
use phonekey.Service.Releases.{start_count, race_total, service_releases}

-- The agent starts, a phone connects and a signature is verified, the agent stops and starts again.
abbrev evening : List Happening
evening =
    starts none_accepted (some 21) (some 22) (some 23) (some 5) true true
    ∷ transport_acts (accept_returns (some 6) "phone")
    ∷ hashes (some 31) true (some (replicate 32 0))
    ∷ stops none_accepted
    ∷ starts none_accepted (some 24) none none (some 7) true true
    ∷ []

abbrev at_end : Service
at_end = record {
  engine = record { ecdsa_alg = some 24; rng_alg = some 22; sha256_alg = some 23 };
  transport = record new_transport { has_listener = true };
}

abbrev on_sockets : List Effect
on_sockets =
    Effect.opened 5
    ∷ Effect.opened 6
    ∷ on_connection_state_changed true "phone"
    ∷ Effect.closed 5
    ∷ Effect.closed 6
    ∷ []

abbrev on_handles : List HandleEffect
on_handles =
    provider_opened 21
    ∷ provider_opened 22
    ∷ provider_opened 23
    ∷ hash_made 31
    ∷ hash_destroyed 31
    ∷ provider_opened 24
    ∷ []

passed : live evening new_service ≡ (at_end, on_sockets, on_handles)
unfolding live happen start stop initialize hash_payload perform start_listener listen_on
    listener_worker close close_at shut take_client close_socket tell
passed = refl

service_releases_example :
    let (last_sockets, last) = destroy_service none_accepted at_end in
    let gone = dropped evening new_service ++ lost_by_close none_accepted at_end.transport in
    ((h : ℕ)
      → occurrences h (opened_providers (on_handles ++ last))
        ≡ occurrences h (closed_providers (on_handles ++ last))
          + occurrences h (lost evening new_service))
    × (start_count evening ≤ 1 → lost evening new_service ≡ [])
    × (made_hashes (on_handles ++ last) ≡ destroyed_hashes (on_handles ++ last))
    × ((s : ℕ)
        → opens s (on_sockets ++ last_sockets)
          ≡ closes s (on_sockets ++ last_sockets) + occurrences s gone)
    × (race_total evening + race_count none_accepted ≡ 0 → gone ≡ [])
service_releases_example =
    service_releases evening at_end on_sockets on_handles none_accepted passed

-- A Bluetooth link that is opened, used and closed, and used again.
abbrev calls : List LinkCall
calls =
    sets_listener true
    ∷ starts_listening
    ∷ sends error_msg (0 ∷ 7 ∷ [])
    ∷ closes_link
    ∷ sends error_msg (0 ∷ 8 ∷ [])
    ∷ []

pass_history_example :
    (end : Bluetooth) × (pass calls new_bluetooth
      ≡ ok (
        end,
        on_connection_state_changed true "BLE:Listening"
            ∷ on_connection_state_changed false "BLE:Disconnected"
            ∷ [],
      ))
    × (end.sender.is_connected ≡ false)
    × (end.is_running ≡ false)
    × (end.sender.sequence_counter ≡ 2)
pass_history_example = pass_history calls new_bluetooth (omega arith)

-- A phone is accepted while the program stops.
abbrev waits : List Happening
waits = hashes (some 31) true (some (replicate 32 0)) ∷ []

main_program-AllReleased_example :
    let (code, sockets, handles) =
      main_program
        (some 21)
        (some 22)
        (some 23)
        (some 5)
        true
        true
        waits
        (accepted_late 6 "phone") in
    let gone =
      dropped_by_program
        (some 21)
        (some 22)
        (some 23)
        (some 5)
        true
        true
        waits
        (accepted_late 6 "phone") in
    AllReleased gone sockets handles
    × (race_total waits + race_count (accepted_late 6 "phone") ≡ 0 → gone ≡ [])
main_program-AllReleased_example =
    main_program-AllReleased (some 21) (some 22) (some 23) (some 5) true true waits
      (accepted_late 6 "phone") refl
