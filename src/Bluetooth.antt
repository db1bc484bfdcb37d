-- ===== src/Bluetooth.antt =====
-- windows/common/BluetoothTransport.cpp: a transport that keeps its flags and its counter, tells its
-- listener, and serializes frames without sending them.
pub mod History
use Prim.Native.String.{String}
use phonekey.Prelude.{
  ℕ, ◌+◌, Bool, true, false, not, List, [], ◌∷◌, ◌++◌, if◌then◌else◌, Result, ok, err, fault, ◌>>=◌,
  ◌>>◌,
}
use phonekey.Prelude.Words.{u32}
use phonekey.Frame.{TransportMessageType, FrameError, serialize_frame}
use phonekey.Sender.{Sender, next_frame}
use phonekey.Tcp.{Effect, on_connection_state_changed}

-- The members: `m_isConnected` and `m_sequenceCounter` are those of the sender.
pub record Bluetooth : Type 0 where
  pub has_listener : Bool
  pub is_running : Bool
  pub sender : Sender

-- `BluetoothTransport::BluetoothTransport`
abbrev pub new_bluetooth : Bluetooth
new_bluetooth = record {
  has_listener = false;
  is_running = false;
  sender = record { is_connected = false; sequence_counter = 1 };
}

-- `if (m_listener) m_listener->OnConnectionStateChanged(up, peer);`
unfoldable pub tell_state : Bluetooth → Bool → String → List Effect
tell_state b up peer = if b.has_listener then on_connection_state_changed up peer ∷ [] else []

-- The two flags, set together.
abbrev pub switch : Bool → Bluetooth → Bluetooth
switch up b = record b { is_running = up; sender = record b.sender { is_connected = up } }

-- `StartListener`, which ignores the port. It returns true.
unfoldable pub start_listening : Bluetooth → Bluetooth × List Effect
start_listening b = (switch true b, tell_state b true "BLE:Listening")

-- `Connect`, which ignores the port. It returns true.
unfoldable pub connect_peer : String → Bluetooth → Bluetooth × List Effect
connect_peer address b = (switch true b, tell_state b true address)

-- `SendFrame`: what it returns, and the members afterwards. The serialized frame is dropped.
unfoldable pub send_nothing :
    Bluetooth → TransportMessageType → List ℕ → Result FrameError (Bool × Bluetooth)
send_nothing b kind bytes = if not b.sender.is_connected then ok (false, b) else (do
  serialized ← serialize_frame (next_frame b.sender kind bytes)
  ok (
    true,
    record b {
      sender = record b.sender { sequence_counter = u32 (b.sender.sequence_counter + 1) };
    },
  ))

-- `Close`, which the destructor calls as well.
unfoldable pub close_link : Bluetooth → Bluetooth × List Effect
close_link b = (switch false b, tell_state b false "BLE:Disconnected")

-- A call of the interface.
pub data LinkCall : Type 0 where
  sets_listener : Bool → LinkCall
  starts_listening closes : LinkCall
  connects : String → LinkCall
  sends : TransportMessageType → List ℕ → LinkCall

unfoldable pub perform_call : LinkCall → Bluetooth → Result FrameError (Bluetooth × List Effect)
perform_call (sets_listener given) b = ok (record b { has_listener = given }, [])
perform_call starts_listening b = ok (start_listening b)
perform_call closes b = ok (close_link b)
perform_call (connects address) b = ok (connect_peer address b)
perform_call (sends kind bytes) b = do answered ← send_nothing b kind bytes; ok (answered.1, [])

-- A history of calls.
unfoldable pub pass : List LinkCall → Bluetooth → Result FrameError (Bluetooth × List Effect)
pass [] b = ok (b, [])
pass (c ∷ cs) b = do
  here ← perform_call c b
  there ← pass cs here.0
  ok (there.0, here.1 ++ there.1)
