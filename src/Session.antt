-- ===== src/Session.antt =====
-- windows/agent/AgentService.cpp and windows/common/TcpTransport.cpp together: the receiving thread
-- calls the agent as its listener, and the agent calls `SendFrame` before the thread goes on. Between
-- the calls of the store, other threads may call it.
pub mod Once
pub mod Uses
pub mod Listening
pub mod Unlock
pub mod Registered
use phonekey.Prelude.{
  ℕ, zero, suc, ◌+◌, Bool, true, false, not, List, [], ◌∷◌, ◌++◌, Option, none, some, length, drop,
  ok, err, fault, if◌then◌else◌,
}
use phonekey.Frame.{TransportFrame}
use phonekey.Challenge.{ChallengeRecord, Call, run}
use phonekey.Signature.{Cng}
use phonekey.Agent.{AgentService, Sent, on_frame_received, initiate_unlock_request}
use phonekey.Receiver.{
  Event, frame_received, resynchronized, oversized, disconnected, frame_rejected, drain,
}
use phonekey.Sender.{Sender, send_frame}

-- The agent with its transport.
pub record Session : Type 0 where
  pub agent : AgentService
  pub sender : Sender

-- What happens around one event: the calls of other threads before the agent reads the store and
-- between its checks and step 5, the clock, and the results of `send` for each message.
pub record Moment : Type 0 where
  pub before : List Call
  pub between : List Call
  pub now : ℕ
  pub counts : List (List ℕ)

abbrev pub following : (ℕ → Moment) → ℕ → Moment
following moments k = moments (suc k)

abbrev pub later : ℕ → (ℕ → Moment) → ℕ → Moment
later zero moments = moments
later (suc n) moments = later n (following moments)

-- A frame that the agent was given, with what it passed to `SendFrame`.
abbrev pub Exchange : Type 0
Exchange = TransportFrame × List Sent

-- The exchanges, the bytes on the wire, and the session afterwards, or `none` behind a read outside a
-- buffer.
abbrev pub Served : Type 0
Served = List Exchange × List ℕ × Option Session

abbrev pub counts_of_first : List (List ℕ) → List ℕ
counts_of_first [] = []
counts_of_first (counts ∷ more) = counts

-- `SendFrame` on each message. What it returns is not looked at.
unfoldable pub transmit : Sender → List (List ℕ) → List Sent → Option (Sender × List ℕ)
transmit sender counts [] = some (sender, [])
transmit sender counts ((kind, bytes) ∷ more) =
    elim (send_frame sender kind bytes (counts_of_first counts)) [
      | ok (done, after, sent) ↦ elim (transmit after (drop 1 counts) more) [
        | none ↦ none
        | some (last, more_sent) ↦ some (last, sent ++ more_sent)
      ]
      | err e ↦ none
      | fault ↦ none
    ]

-- `m_isConnected` is what `IsConnected` answers.
abbrev pub connected_agent : Session → AgentService
connected_agent session = record session.agent { is_connected = session.sender.is_connected }

-- `InitiateUnlockRequest` with its call of `SendFrame`.
unfoldable pub request_unlock :
    Session
    → List ℕ
    → List ℕ
    → ℕ
    → List ℕ
    → List (List ℕ)
    → Option (ChallengeRecord × Session × List ℕ)
request_unlock session session_id nonce now device_id counts =
    let (rec, agent, sents) =
      initiate_unlock_request (connected_agent session) session_id nonce now device_id in
    elim (transmit session.sender counts sents) [
      | none ↦ none
      | some (sender, sent) ↦ some (rec, record { agent = agent; sender = sender }, sent)
    ]

-- The store when the event arrives.
abbrev pub meanwhile : Moment → Session → Session
meanwhile moment session = record session {
  agent = record session.agent {
    challenge_store = run session.agent.challenge_store moment.before;
  };
}

abbrev pub hang_up : Session → Session
hang_up session = record session { sender = record session.sender { is_connected = false } }

-- `m_listener->OnFrameReceived`
unfoldable pub hear_frame : Cng → Moment → Session → TransportFrame → Served
hear_frame cng moment session frame =
    elim (on_frame_received cng session.agent moment.between moment.now frame) [
      | none ↦ ([], [], none)
      | some (agent, sents) ↦ elim (transmit session.sender moment.counts sents) [
        | none ↦ ((frame, sents) ∷ [], [], none)
        | some (sender, sent) ↦
            ((frame, sents) ∷ [], sent, some (record { agent = agent; sender = sender }))
      ]
    ]

-- What the listener does about an event. It prints all but the frames.
unfoldable pub hear : Cng → Moment → Session → Event → Served
hear cng moment session (frame_received frame) =
    hear_frame cng moment (meanwhile moment session) frame
hear cng moment session resynchronized = ([], [], some (meanwhile moment session))
hear cng moment session oversized = ([], [], some (hang_up (meanwhile moment session)))
hear cng moment session disconnected = ([], [], some (hang_up (meanwhile moment session)))
hear cng moment session (frame_rejected e) = ([], [], some (meanwhile moment session))

abbrev pub go_on : Served → (Session → Served) → Served
go_on (exchanges, sent, none) next = (exchanges, sent, none)
go_on (exchanges, sent, some session) next =
    let (more, more_sent, end) = next session in (exchanges ++ more, sent ++ more_sent, end)

-- The events of one pass over the buffer.
unfoldable pub hear_all : Cng → (ℕ → Moment) → Session → List Event → Served
hear_all cng moments session [] = ([], [], some session)
hear_all cng moments session (event ∷ events) =
    go_on (hear cng (moments 0) session event) λ next. hear_all cng (following moments) next events

-- A pass over the buffer, and what follows it unless the connection is dropped.
unfoldable pub serve_events :
    Cng
    → (ℕ → Moment)
    → Session
    → Option (List Event × Option (List ℕ))
    → (ℕ → Session → List ℕ → Served)
    → Served
serve_events cng moments session none rest = ([], [], none)
serve_events cng moments session (some (events, none)) rest = hear_all cng moments session events
serve_events cng moments session (some (events, some left)) rest =
    go_on (hear_all cng moments session events) λ next. rest (length events) next left

-- What one call of `recv` brings. The empty chunk is the end of the stream.
unfoldable pub serve_chunk :
    Cng → (ℕ → Moment) → Session → List ℕ → List ℕ → (ℕ → Session → List ℕ → Served) → Served
serve_chunk cng moments session rx [] rest = hear_all cng moments session (disconnected ∷ [])
serve_chunk cng moments session rx (b ∷ bs) rest =
    let buffer = rx ++ (b ∷ bs) in
    serve_events cng moments session (drain (suc (length buffer)) buffer) rest

-- `ReceiverWorker` with its listener, on the chunks that `recv` returns: the outer loop goes on while
-- the connection is up, which a failed `send` ends as well. No one calls `Close`, so that `m_isRunning`
-- stays true.
unfoldable pub serve : Cng → (ℕ → Moment) → Session → List ℕ → List (List ℕ) → Served
serve cng moments session rx [] = ([], [], some session)
serve cng moments session rx (chunk ∷ chunks) = elim (session.sender.is_connected) [
  | false ↦ ([], [], some session)
  | true ↦
      serve_chunk cng moments session rx chunk
        λ heard next left. serve cng (later heard moments) next left chunks
]
