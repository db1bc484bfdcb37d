-- ===== src/Pipe/Reads.antt =====
-- The reads of a message from the pipe, at either end.
use phonekey.Prelude.{
  ℕ, ◌+◌, ◌-◌, ◌≤◌, ◌≡◌, ◌≢◌, refl, arith, List, [], Option, none, some, replicate, ltb, ltb→le,
  if◌then◌else◌, length, length-append, take, drop, ok, fault, read_bytes, read_bytes_total,
  Bool-cases, inl, inr, >>=-ne-fault, >>=-ne-fault_known, ok-ne-fault, err-ne-fault,
}
use phonekey.Prelude.Reads.{read_u16_total}
use phonekey.Pipe.{
  ipc_max_buffer_size, NoPacket, rx_buffer, decode_packet, Handler, received_message, serve_request,
}

buffer_room : (message : List ℕ) → length message ≤ length (rx_buffer message)
buffer_room message =
    omega (arith, length-append message (replicate (ipc_max_buffer_size - length message) 0))

payload-ne-fault :
    (message old : List ℕ)
    → (rest : List ℕ) × ((if ltb 4 (length message)
          then read_bytes {E = NoPacket} (rx_buffer message) 4 (length message - 4)
          else ok old)
        ≡ ok rest)
payload-ne-fault message old = elim (Bool-cases (ltb 4 (length message))) [
  | inl more ↦
      let room : 4 + (length message - 4) ≤ length (rx_buffer message) =
        ground (arith, buffer_room message, more) in
      (
        take (length message - 4) (drop 4 (rx_buffer message)),
        rw more (read_bytes_total {E = NoPacket} (rx_buffer message) 4 (length message - 4) room),
      )
  | inr nothing ↦ (old, rw nothing refl)
]

-- No read outside the buffer, at any message.
pub decode_packet-ne-fault : (message old : List ℕ) → decode_packet message old ≢ fault
unfolding decode_packet
decode_packet-ne-fault message old = elim (Bool-cases (ltb (length message) 4)) [
  | inl short ↦ rw short (err-ne-fault _)
  | inr enough ↦
      let room : 4 ≤ length message = ltb→le _ _ enough in
      let size : length message ≤ length (rx_buffer message) = buffer_room message in
      rw enough (
        >>=-ne-fault _ _ (read_u16_total {E = NoPacket} (rx_buffer message) 0 (omega (arith, size)))
          λ first.
            >>=-ne-fault _ _
              (read_u16_total {E = NoPacket} (rx_buffer message) 2 (omega (arith, size)))
              λ second. >>=-ne-fault _ _ (payload-ne-fault message old) λ rest. ok-ne-fault _)
]

pub serve_request-ne-fault :
    (handler : Handler) (reading : Option (List ℕ)) → serve_request handler reading ≢ fault
unfolding serve_request received_message
serve_request-ne-fault handler none = err-ne-fault _
serve_request-ne-fault handler (some message) =
    >>=-ne-fault_known (decode_packet message []) _ (decode_packet-ne-fault message [])
      λ request e. ok-ne-fault _
