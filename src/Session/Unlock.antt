-- ===== src/Session/Unlock.antt =====
-- One unlock, from the request on the wire to the answer on the wire.
use phonekey.Prelude.{
  ℕ, ◌+◌, ◌≤◌, ◌<◌, ◌^◌, ◌≡◌, ◌≢◌, refl, sym, ap, ◌∙◌, arith, Bool, true, List, [], ◌∷◌, ◌++◌,
  append-nil, Option, none, some, some_injective, length, All, ok, if◌then◌else◌,
}
use phonekey.Protocol.{AuthPayload, serialize, default_challenge_ttl_ms}
use phonekey.Frame.{TransportFrame, TransportMessageType, unlock_req, unlock_resp}
use phonekey.Frame.RoundTrip.{received}
use phonekey.Challenge.{ChallengeRecord, run, generate_challenge}
use phonekey.Signature.{Cng, verify_signature}
use phonekey.Registry.{get_device_public_key}
use phonekey.Receiver.{frame_received, emit, receive_round}
use phonekey.Receiver.Chunks.{Piece, concat, receiver_worker-stream}
use phonekey.Receiver.Stream.{Sendable, stream}
use phonekey.Sender.{Sender, next_frame, send_frame}
use phonekey.Sender.Delivery.{send_frame-received}
use phonekey.Agent.{AgentService, request_payload, on_frame_received, initiate_unlock_request}
use phonekey.Agent.Grant.{Answers, unlock_granted}
use phonekey.Session.{
  Session, Moment, Served, counts_of_first, connected_agent, transmit, request_unlock, hear_frame,
  hear, go_on, hear_all, serve,
}
use phonekey.Session.Listening.{StaysUp, serve-receiver_worker}

transmit_one :
    (sender after : Sender) (counts : List (List ℕ)) (kind : TransportMessageType)
    (bytes sent : List ℕ) (done : Bool)
    → send_frame sender kind bytes (counts_of_first counts) ≡ ok (done, after, sent)
    → transmit sender counts ((kind, bytes) ∷ []) ≡ some (after, sent)
unfolding transmit
transmit_one sender after counts kind bytes sent done e =
    rw (e, transmit) (ap (λ w. some (after, w)) (append-nil sent))

-- A frame that the agent answers by one message, which the socket takes.
module _ (cng : Cng) (moment : Moment) (session : Session) (frame : TransportFrame)
    (after : AgentService) (kind : TransportMessageType) (bytes reply : List ℕ) (told : Sender)
    (sends : send_frame session.sender kind bytes (counts_of_first moment.counts)
      ≡ ok (true, told, reply)) where
  abbrev answered : Served
  answered =
      ((frame, (kind, bytes) ∷ []) ∷ [], reply, some (record { agent = after; sender = told }))

  hear_frame_sends :
      on_frame_received cng session.agent moment.between moment.now frame
        ≡ some (after, (kind, bytes) ∷ [])
      → hear_frame cng moment session frame ≡ answered
  unfolding hear_frame
  hear_frame_sends heard =
      rw
        (
          heard,
          transmit_one session.sender told moment.counts kind bytes reply true sends,
          hear_frame,
        )
        refl

  hear_quiet :
      moment.before ≡ []
      → moment.between ≡ []
      → on_frame_received cng session.agent [] moment.now frame ≡ some (after, (kind, bytes) ∷ [])
      → hear cng moment session (frame_received frame) ≡ answered
  unfolding hear run
  hear_quiet no_before no_between heard =
      ap
        (λ calls.
          hear_frame cng moment
            (record session {
              agent = record session.agent {
                challenge_store = run session.agent.challenge_store calls;
              };
            })
            frame)
        no_before
      ∙ hear_frame_sends (
          ap (λ calls. on_frame_received cng session.agent calls moment.now frame) no_between
          ∙ heard)

  hear_all_quiet :
      (moments : ℕ → Moment)
      → hear cng (moments 0) session (frame_received frame) ≡ answered
      → hear_all cng moments session (frame_received frame ∷ []) ≡ answered
  unfolding hear_all
  hear_all_quiet moments heard =
      ap (λ served. go_on served λ next. ([], [], some next)) heard
      ∙ ap
          (λ w.
            ((frame, (kind, bytes) ∷ []) ∷ [], w, some (record { agent = after; sender = told })))
          (append-nil reply)

requested :
    (session : Session) (id nonce device_id : List ℕ) (created : ℕ) (counts : List (List ℕ))
    (asked : Sender) (request : List ℕ)
    → session.sender.is_connected ≡ true
    → send_frame session.sender unlock_req
        (request_payload (generate_challenge id nonce created device_id session.agent.pc_id))
        (counts_of_first counts)
      ≡ ok (true, asked, request)
    → request_unlock session id nonce created device_id counts
      ≡ some (
        generate_challenge id nonce created device_id session.agent.pc_id,
        record {
          agent = (initiate_unlock_request (connected_agent session) id nonce created device_id).1;
          sender = asked;
        },
        request,
      )
unfolding request_unlock initiate_unlock_request
requested session id nonce device_id created counts asked request up sends =
    let rec = generate_challenge id nonce created device_id session.agent.pc_id in
    let finish : Option (Sender × List ℕ) → Option (ChallengeRecord × Session × List ℕ) = λ o.
      elim o [
        | none ↦ none
        | some (sender, sent) ↦ some (
          rec,
          record {
            agent =
                (initiate_unlock_request (connected_agent session) id nonce created device_id).1;
            sender = sender;
          },
          sent,
        )
      ] in
    ap
      (λ b.
        finish (
          transmit session.sender counts
            (if b then (unlock_req, request_payload rec) ∷ [] else [])))
      up
    ∙ ap finish (transmit_one session.sender asked counts unlock_req _ request true sends)

-- From wire to wire: the agent asks for an unlock and SendFrame takes the whole request; the phone
-- sends back one UNLOCK_RESP frame with the session, the nonce and the device of the request, followed
-- by at least 8 bytes that verify as its signature under the registered key; its bytes arrive in any
-- chunks, no other thread calls the store, at most 30 seconds pass, and SendFrame takes the whole
-- answer. Then what the agent sent is one frame with the 80 bytes of the request, the receiving thread
-- answers the phone's frame once, by the verdict 0, and what it sent is one UNLOCK_RESP frame with
-- that verdict.
pub unlock_over_wire :
    (cng : Cng) (moments : ℕ → Moment) (session : Session) (id nonce device_id signature : List ℕ)
    (created : ℕ) (p : AuthPayload) (frame : TransportFrame) (chunks : List (List ℕ))
    (counts : List (List ℕ)) (asked told : Sender) (request reply : List ℕ)
    → Answers p id nonce device_id
    → created + default_challenge_ttl_ms < 2 ^ 64
    → (moments 0).before ≡ []
    → (moments 0).between ≡ []
    → (moments 0).now ≤ created + 30000
    → session.sender.is_connected ≡ true
    → session.sender.sequence_counter < 2 ^ 32
    → Sendable frame
    → frame.message_type ≡ unlock_resp
    → frame.payload ≡ serialize p ++ signature
    → 8 ≤ length signature
    → get_device_public_key session.agent.device_registry device_id ≢ 0
    → verify_signature cng
        (get_device_public_key session.agent.device_registry device_id)
        (serialize p)
        signature
      ≡ ok true
    → send_frame session.sender unlock_req
        (request_payload (generate_challenge id nonce created device_id session.agent.pc_id))
        (counts_of_first counts)
      ≡ ok (true, asked, request)
    → send_frame asked unlock_resp (0 ∷ 0 ∷ []) (counts_of_first (moments 0).counts)
      ≡ ok (true, told, reply)
    → All Piece chunks
    → concat chunks ≡ stream (frame ∷ []) []
    → let rec = generate_challenge id nonce created device_id session.agent.pc_id in
      (waiting : Session) × (after : Session) × (request_unlock session id nonce created device_id
          counts
        ≡ some (rec, waiting, request))
      × (receive_round request
          ≡ emit
              (frame_received
                (received (next_frame session.sender unlock_req (request_payload rec))))
              [])
      × (serve cng moments waiting [] chunks
          ≡ ((received frame, (unlock_resp, 0 ∷ 0 ∷ []) ∷ []) ∷ [], reply, some after))
      × (receive_round reply
          ≡ emit (frame_received (received (next_frame asked unlock_resp (0 ∷ 0 ∷ [])))) [])
unlock_over_wire cng moments session id nonce device_id signature created p frame chunks counts
      asked told request reply answers fits no_before no_between in_time up small sendable resp
      carries long known signed asks tells pieces bytes =
    let (first, s1, asked_up, asked_seq) =
      send_frame-received session.sender asked unlock_req _ _ request [] small asks in
    let asked_small : asked.sequence_counter < 2 ^ 32 = omega (arith, asked_seq) in
    let (second, s2, told_up, told_seq) =
      send_frame-received asked told unlock_resp _ _ reply [] asked_small tells in
    let agent = (initiate_unlock_request (connected_agent session) id nonce created device_id).1 in
    let waiting : Session = record { agent = agent; sender = asked } in
    let (after, granted) =
      unlock_granted cng (connected_agent session) id nonce device_id signature created
        (moments 0).now p (received frame) answers fits in_time resp carries long known signed in
    let heard =
      hear_quiet cng (moments 0) waiting (received frame) after unlock_resp (0 ∷ 0 ∷ []) reply told
        tells no_before no_between granted in
    let stays : StaysUp cng moments waiting (frame_received (received frame) ∷ []) = (
      asked_up,
      λ next e.
          ap (λ s. s.sender.is_connected) (some_injective (sym e ∙ ap (λ served. served.2) heard))
          ∙ told_up,
    ) in
    (
      waiting,
      record { agent = after; sender = told },
      requested session id nonce device_id created counts asked request up asks,
      rw (append-nil request) at first,
      serve-receiver_worker cng moments waiting [] chunks _ []
            (receiver_worker-stream (frame ∷ []) chunks (sendable, tt) pieces bytes) stays
          ∙ hear_all_quiet cng (moments 0) waiting (received frame) after unlock_resp (0 ∷ 0 ∷ [])
              reply told tells moments heard,
      rw (append-nil reply) at second,
    )
