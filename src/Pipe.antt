-- ===== src/Pipe.antt =====
-- windows/common/NamedPipeIpc.cpp: requests from the logon screen to the agent over a named pipe.
-- What the system calls return is an argument. `Stop` from another thread meets a round while
-- it waits for a client; between that wait and the closing of the pipe it is not modelled.
pub mod Exchange
pub mod Reads
pub mod Handles
use phonekey.Prelude.{
  ℕ, ◌-◌, Bool, true, false, List, [], ◌∷◌, ◌++◌, Option, none, some, ltb, if◌then◌else◌, length,
  replicate, Result, ok, err, fault, ◌>>=◌, ◌>>◌, fail_if, read_bytes, ◌&&◌,
}
use phonekey.Prelude.Words.{be16}
use phonekey.Prelude.Reads.{read_u16}

abbrev pub ipc_max_buffer_size : ℕ
ipc_max_buffer_size = 4096

-- The enumerators of IpcMessageType. A packet may hold any other number of 16 bits, since the cast
-- from the bytes is not checked.
abbrev pub req_unlock : ℕ
req_unlock = 0x0003

-- `type`, `statusCode` and `payload`.
pub record IpcPacket : Type 0 where
  pub kind : ℕ
  pub status_code : ℕ
  pub payload : List ℕ

-- The bytes of `txBuf`.
unfoldable pub encode_packet : IpcPacket → List ℕ
encode_packet packet = be16 packet.kind ++ (be16 packet.status_code ++ packet.payload)

-- Why a message is not answered or not taken: `ReadFile` fails, or it reads fewer than four bytes.
pub data NoPacket : Type 0 where
  not_read too_short : NoPacket

-- `rxBuf` with a message in front.
abbrev pub rx_buffer : List ℕ → List ℕ
rx_buffer message = message ++ replicate (ipc_max_buffer_size - length message) 0

-- The packet in `rxBuf`. A message of four bytes leaves the payload as it was before.
unfoldable pub decode_packet : List ℕ → List ℕ → Result NoPacket IpcPacket
decode_packet message old = do
  fail_if (ltb (length message) 4) too_short
  first ← read_u16 (rx_buffer message) 0
  second ← read_u16 (rx_buffer message) 2
  rest ←
      if ltb 4 (length message)
      then read_bytes (rx_buffer message) 4 (length message - 4)
      else ok old
  ok (record { kind = first; status_code = second; payload = rest })

-- `m_handler`, which may be empty.
abbrev pub Handler : Type 0
Handler = Option (IpcPacket → IpcPacket)

unfoldable pub respond : Handler → IpcPacket → IpcPacket
respond (some handler) request = handler request
respond none request = record { kind = request.kind; status_code = 0xFFFF; payload = [] }

-- What `ReadFile` returns: a message, or nothing when it fails.
unfoldable pub received_message : Option (List ℕ) → Result NoPacket (List ℕ)
received_message none = err not_read
received_message (some message) = ok message

-- The message that is written for one that is read.
unfoldable pub serve_request : Handler → Option (List ℕ) → Result NoPacket (List ℕ)
serve_request handler reading = do
  message ← received_message reading
  request ← decode_packet message []
  ok (encode_packet (respond handler request))

-- What happens to the pipe's handles; the last is `CloseHandle(INVALID_HANDLE_VALUE)`.
pub data PipeEffect : Type 0 where
  pipe_opened pipe_closed : ℕ → PipeEffect
  pipe_written : List ℕ → PipeEffect
  invalid_closed : PipeEffect

-- The members of the server, and whether its thread could be joined.
pub record NamedPipeServer : Type 0 where
  pub pipe : Option ℕ
  pub handler : Handler
  pub is_running : Bool
  pub joinable : Bool

abbrev pub new_server : NamedPipeServer
new_server = record { pipe = none; handler = none; is_running = false; joinable = false }

-- `Stop`, between two rounds of the thread, which is joined.
unfoldable pub stop : NamedPipeServer → NamedPipeServer × List PipeEffect
stop server = (
  record server { pipe = none; is_running = false; joinable = false },
  elim server.pipe [ none ↦ [] | some handle ↦ pipe_closed handle ∷ [] ],
)

-- `Start`, which stops a server that runs.
unfoldable pub start : Handler → NamedPipeServer → Bool × NamedPipeServer × List PipeEffect
start handler server =
    let (stopped, effects) = stop server in
    (true, record stopped { handler = handler; is_running = true; joinable = true }, effects)

-- Where `Stop` meets a round: nowhere; before the pipe is made, when it finds no handle to close; or
-- during the wait, when it closes the handle, and has reset `m_hPipe` or not when the thread comes to
-- its own `CloseHandle`.
pub data Stopping : Type 0 where
  not_stopped flag_cleared handle_reset handle_kept : Stopping

-- `m_isRunning` behind the wait, and at the head of the loop.
abbrev pub runs_on : Stopping → Bool
runs_on not_stopped = true
runs_on flag_cleared = false
runs_on handle_reset = false
runs_on handle_kept = false

-- What the system calls of one round of `ServerWorker` return, and where `Stop` meets it.
pub record Attempt : Type 0 where
  pub pipe : Option ℕ
  pub connected : Bool
  pub stopping : Stopping
  pub reading : Option (List ℕ)

-- The answer to a client, if there is one.
unfoldable pub answer_client : Handler → Attempt → Result NoPacket (List PipeEffect)
answer_client handler attempt =
    if attempt.connected && runs_on attempt.stopping
    then elim (serve_request handler attempt.reading) [
      | ok message ↦ ok (pipe_written message ∷ [])
      | err e ↦ ok []
      | fault ↦ fault
    ]
    else ok []

-- The handle is closed by `Stop`, by the thread, or by both.
unfoldable pub close_pipe : Stopping → ℕ → List PipeEffect
close_pipe not_stopped handle = pipe_closed handle ∷ []
close_pipe flag_cleared handle = pipe_closed handle ∷ []
close_pipe handle_reset handle = pipe_closed handle ∷ invalid_closed ∷ []
close_pipe handle_kept handle = pipe_closed handle ∷ pipe_closed handle ∷ []

unfoldable pub server_round : Handler → Attempt → Result NoPacket (List PipeEffect)
server_round handler attempt = elim attempt.pipe [
  | none ↦ ok []
  | some handle ↦ (do
    effects ← answer_client handler attempt
    ok (pipe_opened handle ∷ effects ++ close_pipe attempt.stopping handle))
]

-- `ServerWorker`, round by round, until `m_isRunning` is false.
unfoldable pub server_worker : Handler → List Attempt → Result NoPacket (List PipeEffect)
server_worker handler [] = ok []
server_worker handler (attempt ∷ attempts) = do
  effects ← server_round handler attempt
  let rest = server_worker handler attempts
  later ← if runs_on attempt.stopping then rest else ok []
  ok (effects ++ later)

-- `SendIpcRequest` after the request was written: what `ReadFile` returns, and `outResponse`.
unfoldable pub take_response : Option (List ℕ) → IpcPacket → Result NoPacket (Bool × IpcPacket)
take_response none out = ok (false, out)
take_response (some message) out = elim (decode_packet message out.payload) [
  | ok response ↦ ok (true, response)
  | err e ↦ ok (false, out)
  | fault ↦ fault
]

-- `NamedPipeClient::SendIpcRequest`: what `WaitNamedPipeW`, `CreateFileW`, `WriteFile` and `ReadFile`
-- return, and the two packets.
unfoldable pub send_ipc_request :
    Bool
    → Option ℕ
    → Bool
    → Option (List ℕ)
    → IpcPacket
    → IpcPacket
    → Result NoPacket (Bool × IpcPacket × List PipeEffect)
send_ipc_request false pipe wrote reading request out = ok (false, out, [])
send_ipc_request true none wrote reading request out = ok (false, out, [])
send_ipc_request true (some handle) false reading request out =
    ok (false, out, pipe_opened handle ∷ pipe_closed handle ∷ [])
send_ipc_request true (some handle) true reading request out = do
  (answer, response) ← take_response reading out
  ok (
    answer,
    response,
    pipe_opened handle ∷ pipe_written (encode_packet request) ∷ pipe_closed handle ∷ [],
  )
