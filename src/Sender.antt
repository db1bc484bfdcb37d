-- ===== src/Sender.antt =====
-- windows/common/TcpTransport.cpp: `SendFrame`. What the calls of `send` return is an argument, and
-- a list of results that ends stands for a call that fails. The mutex makes a call of `SendFrame`
-- whole. A payload of at most 64 KB makes every frame shorter than 2^31, so that the conversion of its
-- size to `int` keeps it.
pub mod Delivery
use phonekey.Prelude.{
  ℕ, zero, suc, ◌+◌, Bool, true, false, not, List, [], ◌∷◌, ◌++◌, ◌==◌, if◌then◌else◌, length, drop,
  take, Result, ok, err, fault, ◌>>=◌,
}
use phonekey.Prelude.Words.{u32}
use phonekey.Frame.{TransportFrame, TransportMessageType, FrameError, serialize_frame, new_frame}

-- `m_isConnected` together with a valid socket, and `m_sequenceCounter`.
pub record Sender : Type 0 where
  pub is_connected : Bool
  pub sequence_counter : ℕ

-- The frame that is sent.
abbrev pub next_frame : Sender → TransportMessageType → List ℕ → TransportFrame
next_frame sender kind bytes = record new_frame {
  message_type = kind;
  sequence_number = sender.sequence_counter;
  payload = bytes;
}

-- `while (totalSent < toSend)`: whether all was sent, and the bytes that the socket took.
unfoldable pub send_loop : List ℕ → List ℕ → Bool × List ℕ
send_loop [] counts = (true, [])
send_loop (b ∷ bs) [] = (false, [])
send_loop (b ∷ bs) (zero ∷ counts) = (false, [])
send_loop (b ∷ bs) (suc n ∷ counts) =
    let (done, sent) = send_loop (drop n bs) counts in (done, (b ∷ take n bs) ++ sent)

-- `SendFrame`: what it returns, the members afterwards, and the bytes on the wire.
unfoldable pub send_frame :
    Sender → TransportMessageType → List ℕ → List ℕ → Result FrameError (Bool × Sender × List ℕ)
send_frame sender kind bytes counts =
    if not sender.is_connected then ok (false, sender, []) else (do
      serialized ← serialize_frame (next_frame sender kind bytes)
      let after = record sender { sequence_counter = u32 (sender.sequence_counter + 1) }
      let (done, sent) = send_loop serialized counts
      if length serialized == 0
          then ok (false, after, [])
          else ok (done, record after { is_connected = done }, sent))
