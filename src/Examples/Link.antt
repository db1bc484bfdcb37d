-- ===== src/Examples/Link.antt =====
-- Examples for the transport.
use phonekey.Prelude.{
  read, ℕ, ◌+◌, ◌≤◌, ◌≡◌, ◌%◌, ◌^◌, refl, arith, true, List, [], ◌∷◌, ◌++◌, Option, some, ok, map,
  All, take, drop,
}
use phonekey.Prelude.Words.{be32}
use phonekey.Prelude.Writes.{memcpy, write, write_u32}
use phonekey.Frame.{
  serialize_frame, write_body, message_value, new_frame, TransportFrame, error_msg,
  max_payload_size,
}
use phonekey.Frame.Layout.{wire, header}
use phonekey.Frame.Crc.{calculate_crc32, crc32, crc_byte}
use phonekey.Frame.RoundTrip.{received}
use phonekey.Receiver.{Event, frame_received, emit, drain, receive_round, receiver_worker}
use phonekey.Receiver.Rounds.{receiver_worker_total}
use phonekey.Receiver.Stream.{Sendable}
use phonekey.Receiver.Chunks.{concat, drained, receiver_worker-drained, receiver_worker-stream}
use phonekey.Sender.{Sender, next_frame, send_loop, send_frame}
use phonekey.Sender.Delivery.{send_frame-received}

abbrev first : TransportFrame
first = record new_frame { message_type = error_msg; sequence_number = 1; payload = 0 ∷ 7 ∷ [] }

abbrev second : TransportFrame
second = record new_frame { message_type = error_msg; sequence_number = 2; payload = 0 ∷ 8 ∷ [] }

two-Sendable : All Sendable (first ∷ second ∷ [])
two-Sendable = (
  (record { flags_byte = omega arith; sequence_fits = omega arith }, omega arith),
  ((record { flags_byte = omega arith; sequence_fits = omega arith }, omega arith), tt),
)

two_left : drain 1 (80 ∷ 75 ∷ []) ≡ some ([], some (80 ∷ 75 ∷ []))
unfolding drain receive_round
two_left = refl

receiver_worker_total_example :
    (r : List Event × Option (List ℕ)) × (receiver_worker []
        ((80 ∷ 75 ∷ []) ∷ (1 ∷ 2 ∷ []) ∷ [] ∷ [])
      ≡ some r)
receiver_worker_total_example = receiver_worker_total [] ((80 ∷ 75 ∷ []) ∷ (1 ∷ 2 ∷ []) ∷ [] ∷ [])

abbrev sender : Sender
sender = record { is_connected = true; sequence_counter = 1 }

abbrev sender_after : Sender
sender_after = record { is_connected = true; sequence_counter = 2 }

-- Twenty bytes in three pieces.
sent :
    send_frame sender error_msg (0 ∷ 7 ∷ []) (5 ∷ 1 ∷ 14 ∷ []) ≡ ok (true, sender_after, wire first)
unfolding send_frame serialize_frame calculate_crc32 read write_body memcpy write write_u32
    send_loop wire header be32 message_value crc32 crc_byte
sent = refl

send_frame-received_example :
    (receive_round (wire first ++ (80 ∷ []))
      ≡ emit (frame_received (received (next_frame sender error_msg (0 ∷ 7 ∷ [])))) (80 ∷ []))
    × (2 ≤ max_payload_size)
    × (sender_after.is_connected ≡ true)
    × (sender_after.sequence_counter ≡ (sender.sequence_counter + 1) % 2 ^ 32)
send_frame-received_example =
    send_frame-received sender sender_after error_msg (0 ∷ 7 ∷ []) (5 ∷ 1 ∷ 14 ∷ []) (wire first)
      (80 ∷ []) (omega arith) sent

abbrev pieces : List (List ℕ)
pieces =
    take 1 (wire first)
    ∷ take 20 (drop 1 (wire first ++ wire second))
    ∷ drop 21 (wire first ++ wire second)
    ∷ []

receiver_worker-stream_example :
    receiver_worker [] pieces
    ≡ some (map (λ f. frame_received (received f)) (first ∷ second ∷ []), some [])
unfolding wire header be32 message_value crc32 crc_byte
receiver_worker-stream_example =
    receiver_worker-stream (first ∷ second ∷ []) pieces two-Sendable
      ((λ p. cc), ((λ p. cc), ((λ p. cc), tt))) refl

receiver_worker-drained_example : receiver_worker [] pieces ≡ drained (concat pieces)
unfolding wire header be32 message_value crc32 crc_byte
receiver_worker-drained_example =
    receiver_worker-drained pieces ((λ p. cc), ((λ p. cc), ((λ p. cc), tt)))
