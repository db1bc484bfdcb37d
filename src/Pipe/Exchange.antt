-- ===== src/Pipe/Exchange.antt =====
-- A request from the client through the server and back.
use phonekey.Prelude.{
  ℕ, suc, leb, ◌&&◌, ◌+◌, ◌-◌, ◌≤◌, ◌<◌, ◌^◌, ◌≡◌, refl, sym, ap, ◌∙◌, arith, Bool, true, false,
  List, [], ◌∷◌, ◌++◌, append_assoc, Option, none, some, ltb, ltb→le, le→ltb, leb→le, if◌then◌else◌,
  length, replicate, ok, err, fault, read_bytes, read_bytes-append, Bool-cases, inl, inr,
}
use phonekey.Prelude.Words.{be16, length-be16}
use phonekey.Prelude.Reads.{read_u16, read_u16-append}
use phonekey.Pipe.{
  ipc_max_buffer_size, IpcPacket, encode_packet, NoPacket, not_read, rx_buffer, decode_packet,
  Handler, respond, received_message, serve_request, take_response, send_ipc_request, pipe_opened,
  pipe_written, pipe_closed,
}

-- What the field types guarantee.
pub record IsPacket (p : IpcPacket) : Type 0 where
  pub kind_fits : p.kind < 2 ^ 16
  pub status_fits : p.status_code < 2 ^ 16

-- What a receiver holds that held the payload `old` before.
abbrev pub seen : IpcPacket → List ℕ → IpcPacket
seen p old = record p { payload = if ltb 0 (length p.payload) then p.payload else old }

pub length-encode_packet : (p : IpcPacket) → length (encode_packet p) ≡ 4 + length p.payload
unfolding encode_packet be16
length-encode_packet p = omega arith

abbrev padding : IpcPacket → List ℕ
padding p = replicate (ipc_max_buffer_size - length (encode_packet p)) 0

from_left :
    (p : IpcPacket)
    → rx_buffer (encode_packet p) ≡ be16 p.kind ++ (be16 p.status_code ++ (p.payload ++ padding p))
unfolding encode_packet
from_left p = simp append_assoc

kind_read :
    (p : IpcPacket)
    → p.kind < 2 ^ 16
    → read_u16 {E = NoPacket} (rx_buffer (encode_packet p)) 0 ≡ ok p.kind
kind_read p h = rw (from_left p) (read_u16-append [] _ 0 p.kind refl h)

status_read :
    (p : IpcPacket)
    → p.status_code < 2 ^ 16
    → read_u16 {E = NoPacket} (rx_buffer (encode_packet p)) 2 ≡ ok p.status_code
status_read p h =
    rw (from_left p) (read_u16-append (be16 p.kind) _ 2 p.status_code (length-be16 p.kind) h)

payload_read :
    (p : IpcPacket) (n : ℕ)
    → n ≡ length p.payload
    → read_bytes {E = NoPacket} (rx_buffer (encode_packet p)) 4 n ≡ ok p.payload
payload_read p n h =
    let e : rx_buffer (encode_packet p)
        ≡ (be16 p.kind ++ be16 p.status_code) ++ (p.payload ++ padding p) =
      from_left p
      ∙ sym (append_assoc (be16 p.kind) (be16 p.status_code) (p.payload ++ padding p)) in
    let four : length (be16 p.kind ++ be16 p.status_code) ≡ 4 = unfold be16 in refl in
    rw e
      (read_bytes-append (be16 p.kind ++ be16 p.status_code) p.payload (padding p) 4 n four (sym h))

-- A packet comes through the bytes of the pipe, except that an empty payload leaves the receiver's.
pub decode_packet-encode_packet :
    (p : IpcPacket) (old : List ℕ)
    → IsPacket p
    → decode_packet (encode_packet p) old ≡ ok (seen p old)
unfolding decode_packet
decode_packet-encode_packet p old v =
    let size : length (encode_packet p) ≡ 4 + length p.payload = length-encode_packet p in
    let whole = le→ltb (length (encode_packet p)) 4 (omega (arith, size)) in
    elim (Bool-cases (ltb 0 (length p.payload))) [
      | inl more ↦
          let more' : ltb 4 (length (encode_packet p)) ≡ true = ground (arith, size, more) in
          rw
            (
              whole,
              kind_read p v.kind_fits,
              status_read p v.status_fits,
              more',
              payload_read p (length (encode_packet p) - 4) (omega (arith, size)),
              more,
            )
            refl
      | inr nothing ↦
          let none_left = ltb→le 0 (length p.payload) nothing in
          let nothing' = le→ltb 4 (length (encode_packet p)) (omega (arith, size, none_left)) in
          rw (whole, kind_read p v.kind_fits, status_read p v.status_fits, nothing', nothing) refl
    ]

-- `ReadFile` into a buffer of 4096 bytes on a pipe of messages: a longer message is an error.
pub record Transfers (transfer : List ℕ → Option (List ℕ)) : Type 0 where
  pub fits : (m : List ℕ) → length m ≤ ipc_max_buffer_size → transfer m ≡ some m
  pub too_long : (m : List ℕ) → ipc_max_buffer_size < length m → transfer m ≡ none

payload_or_nothing : (xs : List ℕ) → (if ltb 0 (length xs) then xs else []) ≡ xs
payload_or_nothing [] = refl
payload_or_nothing (x ∷ xs) = let e : ltb 0 (suc (length xs)) ≡ true = ground arith in rw e refl

pub seen_afresh : (p : IpcPacket) → seen p [] ≡ p
seen_afresh p = ap (λ xs. record p { payload = xs }) (payload_or_nothing p.payload)

module _ (transfer : List ℕ → Option (List ℕ)) (handler : Handler) where
  -- What the client reads after the server has worked on its message: where the server writes
  -- nothing, the client finds a closed pipe.
  unfoldable pub reply_to : List ℕ → Option (List ℕ)
  reply_to message = elim (serve_request handler (transfer message)) [
    | ok answer ↦ transfer answer
    | err e ↦ none
    | fault ↦ none
  ]

leb→lt : (a b : ℕ) → leb a b ≡ false → b < a
leb→lt a b h = ground arith

module _ (transfer : List ℕ → Option (List ℕ)) (handler : Handler) (request : IpcPacket)
    (t : Transfers transfer) where
  served :
      IsPacket request
      → length request.payload ≤ 4092
      → serve_request handler (transfer (encode_packet request))
        ≡ ok (encode_packet (respond handler request))
  unfolding serve_request received_message
  served v h =
      let size = length-encode_packet request in
      let back = decode_packet-encode_packet request [] v ∙ ap (λ p. ok p) (seen_afresh request) in
      rw (t.fits (encode_packet request) (omega (arith, size)), back)

  not_served :
      4092 < length request.payload
      → serve_request handler (transfer (encode_packet request)) ≡ err not_read
  unfolding serve_request received_message
  not_served h =
      let size = length-encode_packet request in
      rw (t.too_long (encode_packet request) (omega (arith, size)))

  abbrev response : IpcPacket
  response = respond handler request

  -- Both messages fit into the buffers.
  abbrev through : Bool
  through = leb (length request.payload) 4092 && leb (length response.payload) 4092

  answered :
      (out : IpcPacket)
      → IsPacket request
      → IsPacket response
      → take_response (reply_to transfer handler (encode_packet request)) out
        ≡ ok (through, if through then seen response out.payload else out)
  unfolding take_response reply_to
  answered out v v' = elim (Bool-cases (leb (length request.payload) 4092)) [
    | inr long ↦ rw (long, not_served (leb→lt _ _ long), reply_to, take_response) refl
    | inl short ↦ elim (Bool-cases (leb (length response.payload) 4092)) [
      | inr long ↦
          let size = length-encode_packet response in
          let long' : 4092 < length response.payload = leb→lt _ _ long in
          let lost = t.too_long (encode_packet response) (omega (arith, size)) in
          rw (short, long, served v (leb→le _ _ short), lost, reply_to, take_response) refl
      | inl short' ↦
          let size = length-encode_packet response in
          let room : length response.payload ≤ 4092 = leb→le _ _ short' in
          let read = t.fits (encode_packet response) (omega (arith, size)) in
          let back = decode_packet-encode_packet response out.payload v' in
          rw (short, short', served v (leb→le _ _ short), read, back, reply_to, take_response) refl
    ]
  ]

  -- A request that is written to a server with some handler, on a pipe of messages whose ReadFile
  -- refuses more than 4096 bytes: SendIpcRequest returns true exactly if both payloads have at most
  -- 4092 bytes. It then holds the handler's answer, where an empty payload leaves the payload that
  -- `outResponse` had before; else `outResponse` is unchanged. The pipe is closed in both cases.
  pub send_ipc_request-serve_request :
      (handle : ℕ) (out : IpcPacket)
      → IsPacket request
      → IsPacket response
      → send_ipc_request true
          (some handle)
          true
          (reply_to transfer handler (encode_packet request))
          request
          out
        ≡ ok (
          leb (length request.payload) 4092 && leb (length response.payload) 4092,
          (if leb (length request.payload) 4092 && leb (length response.payload) 4092
              then seen response out.payload
              else out),
          pipe_opened handle ∷ pipe_written (encode_packet request) ∷ pipe_closed handle ∷ [],
        )
  unfolding send_ipc_request
  send_ipc_request-serve_request handle out v v' = rw (answered out v v', send_ipc_request) refl
