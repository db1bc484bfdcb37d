-- ===== src/Agent/Answer.antt =====
-- What `AgentService::OnFrameReceived` sends back.
use phonekey.Prelude.{
  none, ℕ, ◌<◌, ◌^◌, true, false, ◌≡◌, ◌≢◌, ◌↔◌, refl, arith, List, [], ◌∷◌, some, ok,
}
use phonekey.Prelude.Words.{be16}
use phonekey.Prelude.Reads.{read_u16, read_u16-append}
use phonekey.Protocol.{
  ErrorCode, success, invalid_request, invalid_protocol_version, invalid_algorithm, unknown_device,
  invalid_signature, challenge_not_found, challenge_expired, challenge_already_consumed,
  session_mismatch, device_mismatch, pc_mismatch, malformed_signature, crypto_error,
  biometric_required, biometric_failed, key_invalidated, error_value,
}
use phonekey.Frame.{
  TransportFrame, FrameError, pair_req, pair_resp, unlock_req, unlock_resp, error_msg,
  TransportMessageType,
}
use phonekey.Challenge.{ChallengeStore, Call, run}
use phonekey.Signature.{Cng}
use phonekey.Agent.{
  AgentService, answer, is_unlock_resp, process_unlock_response, on_frame_received,
}

error_value-lt : (code : ErrorCode) → error_value code < 2 ^ 16
unfolding error_value
error_value-lt success = omega arith
error_value-lt invalid_request = omega arith
error_value-lt invalid_protocol_version = omega arith
error_value-lt invalid_algorithm = omega arith
error_value-lt unknown_device = omega arith
error_value-lt invalid_signature = omega arith
error_value-lt challenge_not_found = omega arith
error_value-lt challenge_expired = omega arith
error_value-lt challenge_already_consumed = omega arith
error_value-lt session_mismatch = omega arith
error_value-lt device_mismatch = omega arith
error_value-lt pc_mismatch = omega arith
error_value-lt malformed_signature = omega arith
error_value-lt crypto_error = omega arith
error_value-lt biometric_required = omega arith
error_value-lt biometric_failed = omega arith
error_value-lt key_invalidated = omega arith

answer_type : (code : ErrorCode) → ((answer code).0 ≡ unlock_resp) ↔ (code ≡ success)
unfolding answer
answer_type success = ((λ p. refl), λ p. refl)
answer_type _ = ((λ p. cc), λ p. cc)

answer_bytes :
    (code : ErrorCode) → read_u16 {E = FrameError} (answer code).1 0 ≡ ok (error_value code)
unfolding answer be16
answer_bytes code = read_u16-append [] [] 0 (error_value code) refl (error_value-lt code)

not_resp : (m : TransportMessageType) → m ≢ unlock_resp → is_unlock_resp m ≡ false
not_resp pair_req ne = refl
not_resp pair_resp ne = refl
not_resp unlock_req ne = refl
not_resp unlock_resp ne = absurd (ne refl)
not_resp error_msg ne = refl

is_resp : (m : TransportMessageType) → m ≡ unlock_resp → is_unlock_resp m ≡ true
is_resp m e = rw e refl

pub answered :
    (cng : Cng) (agent : AgentService) (between : List Call) (now : ℕ) (frame : TransportFrame)
    (code : ErrorCode) (store : ChallengeStore)
    → process_unlock_response cng agent between now frame ≡ some (code, store)
    → frame.message_type ≡ unlock_resp
    → on_frame_received cng agent between now frame
      ≡ some (record agent { challenge_store = store }, answer code ∷ [])
unfolding on_frame_received
answered cng agent between now frame code store e resp =
    rw (is_resp frame.message_type resp, e, on_frame_received) refl

-- Every frame of a type but UNLOCK_RESP is ignored, whatever its payload. One of that type, where
-- ProcessUnlockResponse returns a verdict, is answered by exactly one frame, whose two bytes are the
-- verdict, and whose type is UNLOCK_RESP exactly if the verdict is success; where it reads outside a
-- buffer, so does the callback.
pub one_answer :
    (cng : Cng) (agent : AgentService) (between : List Call) (now : ℕ) (frame : TransportFrame)
    → (frame.message_type ≢ unlock_resp
        → on_frame_received cng agent between now frame
          ≡ some (record agent { challenge_store = run agent.challenge_store between }, []))
      × (frame.message_type ≡ unlock_resp
          → (process_unlock_response cng agent between now frame ≡ none
              → on_frame_received cng agent between now frame ≡ none)
            × ((code : ErrorCode) (store : ChallengeStore)
                → process_unlock_response cng agent between now frame ≡ some (code, store)
                → (type : TransportMessageType) × (bytes : List ℕ) × (on_frame_received cng agent
                      between now frame
                    ≡ some (record agent { challenge_store = store }, (type, bytes) ∷ []))
                  × (read_u16 {E = FrameError} bytes 0 ≡ ok (error_value code))
                  × ((type ≡ unlock_resp) ↔ (code ≡ success))))
unfolding on_frame_received
one_answer cng agent between now frame = (
  (λ other. rw (not_resp frame.message_type other, on_frame_received) refl),
  λ resp. (
    (λ e. rw (is_resp frame.message_type resp, e, on_frame_received) refl),
    λ code store e. (
      (answer code).0,
      (answer code).1,
      answered cng agent between now frame code store e resp,
      answer_bytes code,
      answer_type code,
    ),
  ),
)
