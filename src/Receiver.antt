-- ===== src/Receiver.antt =====
-- windows/common/TcpTransport.cpp: the receiving thread, which cuts the byte stream into frames, and
-- `SendFrame`. What the system calls return is an argument: a chunk of bytes per `recv`, a count per
-- `send`. A payload of at most 64 KB makes every frame shorter than 2^31, so that the conversion of
-- its size to `int` keeps it.
pub mod Chunks
pub mod Rounds
pub mod Stability
pub mod Stream
use Prim.Native.String.{String}
use phonekey.Prelude.{
  ℕ, zero, suc, ◌+◌, ◌-◌, Bool, true, false, not, List, [], ◌∷◌, ◌++◌, Option, none, some, ltb, leb,
  ◌==◌, if◌then◌else◌, length, drop, take, Result, ok, err, fault, ◌>>=◌, fail_if, ◌>>◌,
}
use phonekey.Prelude.Words.{u32}
use phonekey.Prelude.Reads.{read_u32}
use phonekey.Frame.{
  TransportFrame, TransportMessageType, FrameError, frame_magic, max_payload_size,
  deserialize_frame, serialize_frame, new_frame,
}

-- What the listener is told.
pub data Event : Type 0 where
  frame_received : TransportFrame → Event
  resynchronized oversized disconnected : Event
  frame_rejected : FrameError → Event

-- One pass of the inner loop over `rxBuffer`: it waits for more bytes, or it drops the connection, or
-- it tells the listener something and keeps the rest of the buffer. `broken` is a read outside the buffer.
pub data Round : Type 0 where
  wait : Round
  drop_connection : Round
  emit : Event → List ℕ → Round
  broken : Round

-- The part of a pass behind the check of the magic bytes.
unfoldable pub take_frame : List ℕ → ℕ → Round
take_frame rx payload_len =
    let total = 14 + payload_len + 4 in
    if ltb max_payload_size payload_len
    then drop_connection
    else if ltb (length rx) total
    then wait
    else elim (deserialize_frame (some rx) total) [
      | ok frame ↦ emit (frame_received frame) (drop total rx)
      | err e ↦ emit (frame_rejected e) (drop total rx)
      | fault ↦ broken
    ]

unfoldable pub receive_round : List ℕ → Round
receive_round rx = if ltb (length rx) 18 then wait else elim (read_u32 {E = FrameError} rx 0) [
  | ok magic ↦
      if magic == frame_magic
      then elim (read_u32 {E = FrameError} rx 4) [
        | ok payload_len ↦ take_frame rx payload_len
        | err e ↦ broken
        | fault ↦ broken
      ]
      else emit resynchronized (drop 1 rx)
  | err e ↦ broken
  | fault ↦ broken
]

-- The inner loop: the events, and the bytes that are left, or `none` when the connection is dropped.
-- Without fuel, or after a read outside the buffer, there is no result.
unfoldable pub drain : ℕ → List ℕ → Option (List Event × Option (List ℕ))
drain zero rx = none
drain (suc fuel) rx = elim (receive_round rx) [
  | wait ↦ some ([], some rx)
  | drop_connection ↦ some (oversized ∷ [], none)
  | emit event rest ↦ elim (drain fuel rest) [
    | none ↦ none
    | some (events, left) ↦ some (event ∷ events, left)
  ]
  | broken ↦ none
]

-- `ReceiverWorker` from a given `rxBuffer` on the chunks that `recv` returns. The empty chunk is the
-- end of the stream. Each pass drops a byte, so the length of the buffer is fuel enough.
unfoldable pub receiver_worker : List ℕ → List (List ℕ) → Option (List Event × Option (List ℕ))
receiver_worker rx [] = some ([], some rx)
receiver_worker rx ([] ∷ chunks) = some (disconnected ∷ [], none)
receiver_worker rx ((b ∷ bs) ∷ chunks) =
    let buffer = rx ++ (b ∷ bs) in
    elim (drain (suc (length buffer)) buffer) [
      | none ↦ none
      | some (events, none) ↦ some (events, none)
      | some (events, some left) ↦ elim (receiver_worker left chunks) [
        | none ↦ none
        | some (later, end) ↦ some (events ++ later, end)
      ]
    ]
