-- ===== src/Session/Registered.antt =====
-- One unlock by a phone that was registered with the agent, from wire to wire.
use phonekey.Prelude.{ℕ, ◌+◌, ◌≤◌, ◌<◌, ◌^◌, ◌≡◌, true, List, [], ◌∷◌, ◌++◌, some, length, All, ok}
use phonekey.Protocol.{AuthPayload, serialize, default_challenge_ttl_ms}
use phonekey.Frame.{TransportFrame, unlock_req, unlock_resp}
use phonekey.Frame.RoundTrip.{received}
use phonekey.Challenge.{generate_challenge}
use phonekey.Signature.{Cng, verify_signature, import_raw_public_key}
use phonekey.Receiver.{frame_received, emit, receive_round}
use phonekey.Receiver.Chunks.{Piece, concat}
use phonekey.Receiver.Stream.{Sendable, stream}
use phonekey.Sender.{Sender, next_frame, send_frame}
use phonekey.Agent.{AgentService, request_payload, register_phone}
use phonekey.Agent.Grant.{Answers}
use phonekey.Agent.Registered.{register_phone_key}
use phonekey.Session.{Session, Moment, counts_of_first, request_unlock, serve}
use phonekey.Session.Unlock.{unlock_over_wire}

-- From the registration to the unlock: the phone is registered with the bytes of its public key; the
-- agent asks for an unlock and SendFrame takes the whole request; the phone sends back one UNLOCK_RESP
-- frame with the session, the nonce, the device and the PC of the request, followed by at least 8 bytes
-- that verify as its signature under the key that CNG imports from the registered bytes; its bytes arrive in
-- any chunks, no other thread calls the store, at most 30 seconds pass, and SendFrame takes the whole
-- answer. Then what the agent sent is one frame with the 80 bytes of the request, the receiving thread
-- answers the phone's frame once, by the verdict 0, and what it sent is one UNLOCK_RESP frame with
-- that verdict.
pub unlock_of_registered :
    (cng : Cng) (moments : ℕ → Moment) (session : Session) (id nonce device_id signature : List ℕ)
    (created : ℕ) (p : AuthPayload) (frame : TransportFrame) (chunks : List (List ℕ))
    (counts : List (List ℕ)) (asked told : Sender) (request reply : List ℕ) (fresh : AgentService)
    (name point : List ℕ) (size : ℕ)
    → register_phone cng fresh device_id name point size ≡ ok session.agent
    → ((key : ℕ)
        → import_raw_public_key cng point size ≡ ok key
        → verify_signature cng key (serialize p) signature ≡ ok true)
    → Answers p id nonce device_id
    → p.pc_id ≡ session.agent.pc_id
    → created + default_challenge_ttl_ms < 2 ^ 64
    → (moments 0).before ≡ []
    → (moments 0).between ≡ []
    → (moments 0).now ≤ created + 30000
    → session.sender.is_connected ≡ true
    → session.sender.sequence_counter < 2 ^ 32
    → Sendable frame
    → frame.message_type ≡ unlock_resp
    → frame.payload ≡ serialize p ++ signature
    → 8 ≤ length signature
    → send_frame session.sender unlock_req
        (request_payload (generate_challenge id nonce created device_id session.agent.pc_id))
        (counts_of_first counts)
      ≡ ok (true, asked, request)
    → send_frame asked unlock_resp (0 ∷ 0 ∷ []) (counts_of_first (moments 0).counts)
      ≡ ok (true, told, reply)
    → All Piece chunks
    → concat chunks ≡ stream (frame ∷ []) []
    → let rec = generate_challenge id nonce created device_id session.agent.pc_id in
      (waiting : Session) × (after : Session) × (request_unlock session id nonce created device_id
          counts
        ≡ some (rec, waiting, request))
      × (receive_round request
          ≡ emit
              (frame_received
                (received (next_frame session.sender unlock_req (request_payload rec))))
              [])
      × (serve cng moments waiting [] chunks
          ≡ ((received frame, (unlock_resp, 0 ∷ 0 ∷ []) ∷ []) ∷ [], reply, some after))
      × (receive_round reply
          ≡ emit (frame_received (received (next_frame asked unlock_resp (0 ∷ 0 ∷ [])))) [])
unlock_of_registered cng moments session id nonce device_id signature created p frame chunks counts
      asked told request reply fresh name point size registers verifies answers this_pc fits
      no_before no_between in_time up small sendable resp carries long asks tells pieces bytes =
    let (known, imported, others, same) =
      register_phone_key cng fresh session.agent device_id name point size registers in
    unlock_over_wire cng moments session id nonce device_id signature created p frame chunks counts
      asked told request reply answers fits no_before no_between in_time up small sendable resp
      carries long known (verifies _ imported) asks tells pieces bytes
