-- ===== src/Agent.antt =====
-- windows/agent/AgentService.h and AgentService.cpp: the service that sends unlock requests to the
-- phone and decides on its answers. Reading the clock and the random bytes are arguments, and the
-- transport is the list of what is passed to `SendFrame`.
pub mod Payload
pub mod Decision
pub mod Replay
pub mod Grant
pub mod Answer
pub mod Spent
pub mod Registered
use phonekey.Prelude.{
  ℕ, zero, suc, ◌+◌, ◌-◌, ◌*◌, Bool, true, false, not, List, [], ◌∷◌, Option, none, some, ltb, ◌==◌,
  if◌then◌else◌, length, drop, set, replicate, Result, ok, err, fault, ◌>>=◌, ◌>>◌, fail_if,
  read_bytes,
}
use phonekey.Prelude.Words.{byte_at}
use phonekey.Prelude.Writes.{memcpy}
use phonekey.Protocol.{
  ErrorCode, success, invalid_request, unknown_device, invalid_signature, error_value, AuthPayload,
  deserialize, uuid_size, challenge_size,
}
use phonekey.Frame.{TransportFrame, TransportMessageType, unlock_req, unlock_resp, error_msg}
use phonekey.Challenge.{
  ChallengeStore, ChallengeRecord, Request, Call, run, generate_challenge, add_challenge,
  validate_challenge, validate_and_consume_challenge,
}
use phonekey.Signature.{Cng, Refusal, refused, verify_signature}
use phonekey.Registry.{DeviceRegistry, register_device, get_device_public_key}

-- The members that the handlers use.
pub record AgentService : Type 0 where
  pub pc_id : List ℕ
  pub challenge_store : ChallengeStore
  pub device_registry : DeviceRegistry
  pub is_connected : Bool

-- `RegisterDevice`; `err` is `return false`, which leaves the registry as it is.
unfoldable pub register_phone :
    Cng → AgentService → List ℕ → List ℕ → List ℕ → ℕ → Result Refusal AgentService
register_phone cng agent device_id name bytes size = do
  registry ← register_device cng agent.device_registry device_id name bytes size
  ok (record agent { device_registry = registry })

-- `for (int i = 7; i >= 0; --i)` over the two timestamps.
unfoldable pub write_times : ℕ → ℕ → ℕ → List ℕ → List ℕ
write_times zero created expires payload = payload
write_times (suc i) created expires payload =
    let payload1 = set payload (64 + (7 - i)) (byte_at created (i * 8)) in
    let payload2 = set payload1 (72 + (7 - i)) (byte_at expires (i * 8)) in
    write_times i created expires payload2

-- The 80 bytes of an unlock request.
unfoldable pub request_payload : ChallengeRecord → List ℕ
request_payload record' =
    let payload = replicate 80 0 in
    let payload1 = memcpy 0 record'.session_id uuid_size payload in
    let payload2 = memcpy 16 record'.pc_id uuid_size payload1 in
    let payload3 = memcpy 32 record'.challenge challenge_size payload2 in
    write_times 8 record'.creation_timestamp_ms record'.expiration_timestamp_ms payload3

-- A message that the agent passes to `SendFrame`.
abbrev pub Sent : Type 0
Sent = TransportMessageType × List ℕ

-- `InitiateUnlockRequest`: `session` and `nonce` are the random bytes, `now` the clock.
unfoldable pub initiate_unlock_request :
    AgentService → List ℕ → List ℕ → ℕ → List ℕ → ChallengeRecord × AgentService × List Sent
initiate_unlock_request agent session nonce now device_id =
    let rec = generate_challenge session nonce now device_id agent.pc_id in
    let after = record agent { challenge_store = add_challenge agent.challenge_store rec } in
    (rec, after, if agent.is_connected then (unlock_req, request_payload rec) ∷ [] else [])

-- The request that a parsed payload makes of the challenge store. The identifier of the PC is the
-- agent's own, and not the payload's.
abbrev pub store_request : AgentService → AuthPayload → ℕ → Request
store_request agent p now = record {
  session_id = p.session_id;
  device_id = p.device_id;
  pc_id = agent.pc_id;
  challenge = p.challenge;
  current_time_ms = now;
}

-- `VerifySignature`, with a read outside the signature kept apart from `false`.
abbrev pub signature_valid : Result Refusal Bool → Result ErrorCode Bool
signature_valid (ok valid) = ok valid
signature_valid (err refused) = ok false
signature_valid fault = fault

abbrev pub fail_unless_success : ErrorCode → Result ErrorCode (Unit {0})
fail_unless_success success = ok tt
fail_unless_success code = err code

-- Steps 1 to 4 of `ProcessUnlockResponse`, which change nothing: the request to consume.
unfoldable pub check_response : Cng → AgentService → ℕ → TransportFrame → Result ErrorCode Request
check_response cng agent now frame = do
  fail_if (ltb (length frame.payload) 116) invalid_request
  p ← deserialize (some frame.payload) 108
  fail_unless_success (validate_challenge agent.challenge_store (store_request agent p now)).0
  fail_if (get_device_public_key agent.device_registry p.device_id == 0) unknown_device
  signed ← read_bytes frame.payload 0 108
  valid ← signature_valid (
      verify_signature cng (get_device_public_key agent.device_registry p.device_id) signed
        (drop 108 frame.payload))
  fail_if (not valid) invalid_signature
  ok (store_request agent p now)

-- `ProcessUnlockResponse`: the verdict, and the store behind step 5. Between the checks and step 5 the
-- mutex is free, and `between` is what other threads call on the store meanwhile. `none` is a read
-- outside a buffer.
unfoldable pub process_unlock_response :
    Cng → AgentService → List Call → ℕ → TransportFrame → Option (ErrorCode × ChallengeStore)
process_unlock_response cng agent between now frame = elim (check_response cng agent now frame) [
  | ok request ↦ some (validate_and_consume_challenge (run agent.challenge_store between) request)
  | err code ↦ some (code, run agent.challenge_store between)
  | fault ↦ none
]

abbrev pub is_unlock_resp : TransportMessageType → Bool
is_unlock_resp unlock_resp = true
is_unlock_resp _ = false

abbrev pub is_success : ErrorCode → Bool
is_success success = true
is_success _ = false

-- The two bytes of the verdict, and the type of the frame that carries them.
unfoldable pub answer : ErrorCode → Sent
answer code = (
  if is_success code then unlock_resp else error_msg,
  byte_at (error_value code) 8 ∷ byte_at (error_value code) 0 ∷ [],
)

-- `OnFrameReceived`
unfoldable pub on_frame_received :
    Cng → AgentService → List Call → ℕ → TransportFrame → Option (AgentService × List Sent)
on_frame_received cng agent between now frame =
    let verdict = process_unlock_response cng agent between now frame in
    if is_unlock_resp frame.message_type
    then elim verdict [
      | none ↦ none
      | some (code, store) ↦ some (record agent { challenge_store = store }, answer code ∷ [])
    ]
    else some (record agent { challenge_store = run agent.challenge_store between }, [])
