-- ===== src/Examples/Connection.antt =====
-- Examples for the agent with its transport: one unlock over the wire, and a phone that repeats itself.
use phonekey.Prelude.{
  ℕ, ◌≤◌, ◌≡◌, refl, arith, true, List, [], ◌∷◌, ◌++◌, some, take, drop, length, length-append,
  take-append-drop, ap, sym, ◌∙◌, append-nil, some_injective, ok, ok_injective, read_bytes,
}
use phonekey.Protocol.RoundTrip.{length-serialize}
use phonekey.Frame.{TransportFrame, error_msg, message_value, new_frame, unlock_req, unlock_resp}
use phonekey.Frame.Layout.{wire, header}
use phonekey.Prelude.Words.{be32}
use phonekey.Frame.RoundTrip.{received}
use phonekey.Challenge.{counts, expires, session_key, generate_challenge}
use phonekey.Receiver.{emit, frame_received, receive_round, receiver_worker}
use phonekey.Receiver.Stream.{Sendable}
use phonekey.Sender.{Sender, next_frame}
use phonekey.Sender.Delivery.{send_frame_whole}
use phonekey.Prelude.Writes.{memcpy, write}
use phonekey.Agent.{request_payload, write_times, on_frame_received, AgentService, register_phone}
use phonekey.Protocol.{serialize}
use phonekey.Session.{Session, Moment, request_unlock, serve, hear, hear_frame, transmit}
use phonekey.Frame.Crc.{crc32, crc_byte}
use phonekey.Receiver.Chunks.{receiver_worker-stream}
use phonekey.Session.Uses.{Quiet, unlocked_once}
use phonekey.Session.Once.{unlocks}
use phonekey.Session.Registered.{unlock_of_registered}
use phonekey.Prelude.Map.{assign, find}
use phonekey.Signature.{import_raw_public_key, verify_signature}
use phonekey.Registry.{get_device_public_key, register_device}
use phonekey.Examples.{
  no_devices, point, toy_cng, toy_signature, agent, phone, session, nonce, payload, issued,
  answer_frame,
}
use phonekey.Examples.Unlock.{key_of_phone, payload-Answers, signed_payload}
use phonekey.Examples.Wire.{payload-IsPayload}

abbrev connection : Session
connection = record { agent = agent; sender = record { is_connected = true; sequence_counter = 1 } }

abbrev twenty_seconds : ℕ → Moment
twenty_seconds n = record { before = []; between = []; now = 21000; counts = (100 ∷ []) ∷ [] }

abbrev asked : Sender
asked = record { is_connected = true; sequence_counter = 2 }

abbrev told : Sender
told = record { is_connected = true; sequence_counter = 3 }

size : length answer_frame.payload ≡ 172
size = omega (
  arith,
  length-append {0} (serialize payload) toy_signature,
  length-serialize payload payload-IsPayload,
)

answer-Sendable : Sendable answer_frame
answer-Sendable =
    (record { flags_byte = omega arith; sequence_fits = omega arith }, omega (arith, size))

request_size : length (request_payload issued) ≡ 80
unfolding request_payload write_times memcpy write generate_challenge
request_size = refl

abbrev two_chunks : List (List ℕ)
two_chunks = take 5 (wire answer_frame) ∷ drop 5 (wire answer_frame) ∷ []

same_stream :
    take 5 (wire answer_frame) ++ (drop 5 (wire answer_frame) ++ []) ≡ wire answer_frame ++ []
same_stream =
    ap (◌++◌ (take 5 (wire answer_frame))) (append-nil (drop 5 (wire answer_frame)))
    ∙ take-append-drop 5 (wire answer_frame)
    ∙ sym (append-nil (wire answer_frame))

-- The agent before the phone is registered.
abbrev new_agent : AgentService
new_agent = record agent { device_registry = no_devices }

registers : register_phone toy_cng new_agent phone [] point 64 ≡ ok connection.agent
unfolding register_phone register_device import_raw_public_key read_bytes assign find
registers = refl

imports_seven : import_raw_public_key toy_cng point 64 ≡ ok 7
unfolding import_raw_public_key read_bytes
imports_seven = refl

verifies :
    (key : ℕ)
    → import_raw_public_key toy_cng point 64 ≡ ok key
    → verify_signature toy_cng key (serialize payload) toy_signature ≡ ok true
verifies key imported =
    let is_key : key ≡ get_device_public_key agent.device_registry phone =
      sym (ok_injective (sym imports_seven ∙ imported)) ∙ sym key_of_phone in
    ap (λ k. verify_signature toy_cng k (serialize payload) toy_signature) is_key ∙ signed_payload

unlock_of_registered_example :
    (waiting : Session) × (after : Session) × (request_unlock connection session nonce 1000 phone
        ((100 ∷ []) ∷ [])
      ≡ some (
        issued,
        waiting,
        wire (next_frame connection.sender unlock_req (request_payload issued)),
      ))
    × (receive_round (wire (next_frame connection.sender unlock_req (request_payload issued)))
        ≡ emit
            (frame_received
              (received (next_frame connection.sender unlock_req (request_payload issued))))
            [])
    × (serve toy_cng twenty_seconds waiting [] two_chunks ≡ (
      (received answer_frame, (unlock_resp, 0 ∷ 0 ∷ []) ∷ []) ∷ [],
      wire (next_frame asked unlock_resp (0 ∷ 0 ∷ [])),
      some after,
    ))
    × (receive_round (wire (next_frame asked unlock_resp (0 ∷ 0 ∷ [])))
        ≡ emit (frame_received (received (next_frame asked unlock_resp (0 ∷ 0 ∷ [])))) [])
unfolding wire header be32
unlock_of_registered_example =
    unlock_of_registered toy_cng twenty_seconds connection session nonce phone toy_signature 1000
      payload answer_frame two_chunks ((100 ∷ []) ∷ []) asked told _ _ new_agent [] point 64
      registers verifies payload-Answers refl (omega arith) refl refl (omega arith) refl
      (omega arith) answer-Sendable refl refl (omega arith)
      (send_frame_whole connection.sender unlock_req (request_payload issued) 100 refl
        (omega (arith, request_size)) (omega (arith, request_size)))
      (send_frame_whole asked unlock_resp (0 ∷ 0 ∷ []) 100 refl (omega arith) (omega arith))
      ((λ p. cc), ((λ p. cc), tt)) same_stream

abbrev waiting : Session
waiting = record connection {
  agent = record agent { challenge_store = (session_key session, issued) ∷ [] };
}

-- Another thread counts and expires challenges while the connection lasts.
abbrev busy : ℕ → Moment
busy n = record { before = counts ∷ []; between = expires 21000 ∷ []; now = 21000; counts = [] }

busy-Quiet : Quiet (session_key session) busy
busy-Quiet n = ((tt, tt), (tt, tt))

unlocked_once_example :
    unlocks
      (session_key session)
      (serve toy_cng busy waiting [] ((wire answer_frame ++ wire answer_frame) ∷ [])).0
    ≤ 1
unlocked_once_example =
    unlocked_once (session_key session) toy_cng busy waiting []
      ((wire answer_frame ++ wire answer_frame) ∷ []) busy-Quiet

-- A frame that the agent ignores, in two chunks.
abbrev other_frame : TransportFrame
other_frame = record new_frame {
  message_type = error_msg;
  sequence_number = 1;
  payload = 0 ∷ 7 ∷ [];
}

abbrev other_chunks : List (List ℕ)
other_chunks = take 5 (wire other_frame) ∷ drop 5 (wire other_frame) ∷ []

other_told :
    receiver_worker [] other_chunks ≡ some (frame_received (received other_frame) ∷ [], some [])
unfolding wire header be32 message_value crc32 crc_byte
other_told =
    receiver_worker-stream (other_frame ∷ []) other_chunks
      ((record { flags_byte = omega arith; sequence_fits = omega arith }, omega arith), tt)
      ((λ p. cc), ((λ p. cc), tt)) refl

other_ignored :
    (next : Session)
    → (hear toy_cng (busy 0) waiting (frame_received (received other_frame))).2 ≡ some next
    → next.sender.is_connected ≡ true
unfolding hear hear_frame on_frame_received transmit
other_ignored next e = ap (λ s. s.sender.is_connected) (some_injective (sym e))
