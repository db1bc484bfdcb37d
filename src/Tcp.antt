-- ===== src/Tcp.antt =====
-- windows/common/TcpTransport.cpp: the life of the two sockets and of the worker thread. What the
-- system calls return is an argument. A call of the interface, and what the worker thread does
-- between two of its system calls, is one step.
pub mod Accounting
pub mod Losses
pub mod Calm
pub mod Sockets
use Prim.Native.String.{String}
use phonekey.Prelude.{
  ℕ, Bool, true, false, not, ◌&&◌, List, [], ◌∷◌, ◌++◌, Option, none, some, ◌==◌, if◌then◌else◌,
}

-- What the listener is told, and what happens to sockets, in the order of the calls.
pub data Effect : Type 0 where
  on_error : String → Effect
  on_connection_state_changed : Bool → String → Effect
  opened closed : ℕ → Effect

-- Where the worker thread is: there is none that could be joined, it stands at `accept`, it runs the
-- receiving loop, or it has ended.
pub data Worker : Type 0 where
  absent accepting receiving ended : Worker

-- The members. `none` stands for `INVALID_SOCKET`.
pub record Transport : Type 0 where
  pub listen_socket : Option ℕ
  pub client_socket : Option ℕ
  pub has_listener : Bool
  pub is_connected : Bool
  pub is_running : Bool
  pub worker : Worker

abbrev pub new_transport : Transport
new_transport = record {
  listen_socket = none;
  client_socket = none;
  has_listener = false;
  is_connected = false;
  is_running = false;
  worker = absent;
}

-- `if (m_listener) m_listener->...`
unfoldable pub tell : Transport → Effect → List Effect
tell t effect = if t.has_listener then effect ∷ [] else []

unfoldable pub close_socket : Option ℕ → List Effect
close_socket none = []
close_socket (some socket) = closed socket ∷ []

-- `ListenerWorker` behind its check: the accepted peer takes the place of the client.
unfoldable pub take_client : ℕ → String → Transport → Transport × List Effect
take_client socket peer t = (
  record t { client_socket = some socket; is_connected = true; worker = receiving },
  tell t (on_connection_state_changed true peer),
)

-- `ListenerWorker` when `accept` returns: it goes on with the receiving loop, or it ends.
unfoldable pub listener_worker : Option ℕ → String → Transport → Transport × List Effect
listener_worker none peer t = (record t { worker = ended }, [])
listener_worker (some socket) peer t =
    let (after, effects) = take_client socket peer t in
    if not t.is_running
    then (record t { worker = ended }, opened socket ∷ [])
    else (after, opened socket ∷ effects)

-- What a thread that stands at `accept` does while `Close` runs: nothing, since closing the listening
-- socket ends `accept`; or a peer is accepted, after `Close` cleared `m_isRunning`; or the check in
-- line 69 was passed before, and the socket is stored after `Close` looked at it; or the socket was
-- stored before, and `m_isConnected` is set after `Close` cleared it.
pub data Race : Type 0 where
  none_accepted : Race
  accepted_late taken_late flagged_late : ℕ → String → Race

-- `Close` by itself.
unfoldable pub shut : Transport → Transport × List Effect
shut t = (
  record t {
    listen_socket = none;
    client_socket = none;
    is_connected = false;
    is_running = false;
    worker = absent;
  },
  close_socket t.listen_socket ++ close_socket t.client_socket,
)

-- `Close` beside a thread at `accept`, which is joined: its receiving loop ends at once, since
-- `m_isRunning` is false.
unfoldable pub close_accepting : Race → Transport → Transport × List Effect
close_accepting none_accepted t = shut t
close_accepting (accepted_late socket peer) t =
    let (cut, effects) = shut t in
    let (after, more) = listener_worker (some socket) peer cut in
    (record after { worker = absent }, effects ++ more)
close_accepting (taken_late socket peer) t =
    let (cut, effects) = shut t in
    let (after, more) = take_client socket peer cut in
    (record after { worker = absent }, opened socket ∷ effects ++ more)
close_accepting (flagged_late socket peer) t =
    let (cut, effects) = shut (record t { client_socket = some socket }) in
    (
      record cut { is_connected = true },
      opened socket ∷ effects ++ tell t (on_connection_state_changed true peer),
    )

-- `Close`, by where the worker thread is: closing the sockets ends its system call, and it is joined.
unfoldable pub close_at : Race → Worker → Transport → Transport × List Effect
close_at race accepting t = close_accepting race t
close_at race absent t = shut t
close_at race receiving t = shut t
close_at race ended t = shut t

unfoldable pub close : Race → Transport → Transport × List Effect
close race t = close_at race t.worker t

-- `StartListener` behind `Close`: what `socket`, `bind` and `listen` answer.
unfoldable pub listen_on : Option ℕ → Bool → Bool → Transport → Bool × Transport × List Effect
listen_on none bound listens t = (false, t, tell t (on_error "Failed to create listen socket"))
listen_on (some socket) false listens t =
    (false, t, opened socket ∷ closed socket ∷ tell t (on_error "Failed to bind listen socket"))
listen_on (some socket) true false t =
    (false, t, opened socket ∷ closed socket ∷ tell t (on_error "Failed to listen on socket"))
listen_on (some socket) true true t = (
  true,
  record t { listen_socket = some socket; is_running = true; worker = accepting },
  opened socket ∷ [],
)

unfoldable pub start_listener :
    Race → Option ℕ → Bool → Bool → Transport → Bool × Transport × List Effect
start_listener race socket bound listens t =
    let (closed_t, before) = close race t in
    let (answer, after, effects) = listen_on socket bound listens closed_t in
    (answer, after, before ++ effects)

-- `Connect` behind `Close`: what `socket` and `connect` answer, and the text for the peer.
unfoldable pub connect_to : Option ℕ → Bool → String → Transport → Bool × Transport × List Effect
connect_to none connected peer t =
    (false, record t { client_socket = none }, tell t (on_error "Failed to create client socket"))
connect_to (some socket) false peer t = (
  false,
  record t { client_socket = none },
  opened socket ∷ closed socket ∷ tell t (on_error "Failed to connect to target host"),
)
connect_to (some socket) true peer t = (
  true,
  record t {
    client_socket = some socket;
    is_connected = true;
    is_running = true;
    worker = receiving;
  },
  opened socket ∷ tell t (on_connection_state_changed true peer),
)

unfoldable pub connect :
    Race → Option ℕ → Bool → String → Transport → Bool × Transport × List Effect
connect race socket connected peer t =
    let (closed_t, before) = close race t in
    let (answer, after, effects) = connect_to socket connected peer closed_t in
    (answer, after, before ++ effects)

-- How `ReceiverWorker` ends: `recv` returns nothing, a frame claims too much, or the condition of the
-- outer loop no longer holds.
pub data Stop : Type 0 where
  peer_gone frame_too_large not_connected : Stop

unfoldable pub stop_receiving : Stop → Transport → Transport × List Effect
stop_receiving peer_gone t = (
  record t { is_connected = false; worker = ended },
  tell t (on_connection_state_changed false "Disconnected"),
)
stop_receiving frame_too_large t = (
  record t { is_connected = false; worker = ended },
  tell t (
      on_error
        "Stream security alert: frame payload size exceeds 64KB ceiling. Dropping connection."),
)
stop_receiving not_connected t =
    if t.is_running && t.is_connected then (t, []) else (record t { worker = ended }, [])

-- What can happen to a transport: a call, or a system call of its thread that returns.
pub data Action : Type 0 where
  set_listener : Bool → Action
  do_start : Race → Option ℕ → Bool → Bool → Action
  do_connect : Race → Option ℕ → Bool → String → Action
  accept_returns : Option ℕ → String → Action
  receiving_stops : Stop → Action
  send_fails : Action
  do_close : Race → Action

-- The thread's system call returns only where the thread stands at it.
unfoldable pub perform : Action → Transport → Transport × List Effect
perform (set_listener given) t = (record t { has_listener = given }, [])
perform (do_start race socket bound listens) t =
    let (answer, after, effects) = start_listener race socket bound listens t in (after, effects)
perform (do_connect race socket connected peer) t =
    let (answer, after, effects) = connect race socket connected peer t in (after, effects)
perform (accept_returns socket peer) t = elim t.worker [
  | accepting ↦ listener_worker socket peer t
  | absent ↦ (t, [])
  | receiving ↦ (t, [])
  | ended ↦ (t, [])
]
perform (receiving_stops stop) t = elim t.worker [
  | receiving ↦ stop_receiving stop t
  | absent ↦ (t, [])
  | accepting ↦ (t, [])
  | ended ↦ (t, [])
]
perform send_fails t = (record t { is_connected = false }, [])
perform (do_close race) t = close race t

-- A history of the transport.
unfoldable pub live_through : List Action → Transport → Transport × List Effect
live_through [] t = (t, [])
live_through (action ∷ actions) t =
    let (after, effects) = perform action t in
    let (end, later) = live_through actions after in (end, effects ++ later)
