-- ===== src/Examples/Sockets.antt =====
-- Examples for the life of a transport.
use phonekey.Prelude.{ℕ, ◌+◌, ◌≡◌, refl, true, false, List, [], ◌∷◌, ◌++◌, some}
use phonekey.Tcp.{
  Effect, opened, closed, on_connection_state_changed, receiving, Transport, new_transport, Action,
  set_listener, do_start, do_connect, accept_returns, receiving_stops, peer_gone, close,
  close_socket, live_through, perform, none_accepted, accepted_late, shut, close_accepting,
  close_at, take_client, start_listener, listen_on, connect, connect_to, listener_worker,
  stop_receiving, tell,
}
use phonekey.Tcp.Accounting.{opens, closes, holds}
use phonekey.Tcp.Losses.{lost}
use phonekey.Tcp.Calm.{races}
use phonekey.Prelude.Counting.{occurrences}
use phonekey.Tcp.Sockets.{sockets_accounted}

-- A phone comes and goes; the agent listens again, and while it connects to another phone a third one
-- is accepted, whose socket is lost.
abbrev history : List Action
history =
    set_listener true
    ∷ do_start none_accepted (some 5) true true
    ∷ accept_returns (some 6) "phone"
    ∷ receiving_stops peer_gone
    ∷ do_start none_accepted (some 8) true true
    ∷ do_connect (accepted_late 9 "late") (some 7) true "other"
    ∷ []

abbrev at_end : Transport
at_end = record new_transport {
  has_listener = true;
  client_socket = some 7;
  is_connected = true;
  is_running = true;
  worker = receiving;
}

abbrev happened : List Effect
happened =
    opened 5
    ∷ opened 6
    ∷ on_connection_state_changed true "phone"
    ∷ on_connection_state_changed false "Disconnected"
    ∷ closed 5
    ∷ closed 6
    ∷ opened 8
    ∷ closed 8
    ∷ opened 9
    ∷ opened 7
    ∷ on_connection_state_changed true "other"
    ∷ []

lived : live_through history new_transport ≡ (at_end, happened)
unfolding live_through perform start_listener listen_on connect connect_to listener_worker
    stop_receiving tell close close_at close_accepting shut take_client close_socket
lived = refl

sockets_accounted_example :
    ((s : ℕ)
      → (opens s happened
          ≡ closes s happened + holds s at_end + occurrences s (lost history new_transport))
        × (opens s (happened ++ (close none_accepted at_end).1)
            ≡ closes s (happened ++ (close none_accepted at_end).1)
              + occurrences s (lost history new_transport)))
    × (races history ≡ 0
        → (lost history new_transport ≡ [])
          × (at_end.is_connected ≡ true → (s : ℕ) × (at_end.client_socket ≡ some s)))
sockets_accounted_example = sockets_accounted history at_end happened lived
