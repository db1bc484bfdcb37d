-- ===== src/Agent/Grant.antt =====
-- An unlock from `AgentService::InitiateUnlockRequest` to the answer of `OnFrameReceived`.
use phonekey.Prelude.{
  ℕ, ◌+◌, ◌≤◌, ◌<◌, ◌^◌, ◌≡◌, ◌≢◌, refl, sym, arith, true, List, [], ◌∷◌, ◌++◌, some, length,
  length-append, take-append, drop-append, ok, ap, ◌∙◌,
}
use phonekey.Prelude.Map.{find, assign, find-assign_self}
use phonekey.Protocol.{
  AuthPayload, IsPayload, success, error_value, serialize, domain_prefix, current_protocol_version,
  algorithm_ecdsa_p256_sha256, default_challenge_ttl_ms,
}
use phonekey.Protocol.RoundTrip.{deserialize-serialize, length-serialize}
use phonekey.Prelude.Words.{byte_at}
use phonekey.Frame.{TransportFrame, unlock_resp}
use phonekey.Challenge.{
  ChallengeRecord, ChallengeStore, consumed, session_key, run, generate_challenge, add_challenge,
}
use phonekey.Challenge.Verdict.{Matches, validate_challenge_iff}
use phonekey.Signature.{Cng, verify_signature}
use phonekey.Registry.{get_device_public_key}
use phonekey.Agent.{
  AgentService, store_request, initiate_unlock_request, process_unlock_response, on_frame_received,
  answer,
}
use phonekey.Agent.Answer.{answered}
use phonekey.Agent.Decision.{Checked, Checked-succeeds}

-- What the phone must put into its answer: the format of the payload, and the fields of the request.
pub record Answers (p : AuthPayload) (session nonce device_id : List ℕ) : Type 0 where
  pub well_formed : IsPayload p
  pub same_domain : p.domain ≡ domain_prefix
  pub same_version : p.protocol_version ≡ current_protocol_version
  pub same_algorithm : p.algorithm_id ≡ algorithm_ecdsa_p256_sha256
  pub same_session : p.session_id ≡ session
  pub same_nonce : p.challenge ≡ nonce
  pub same_device : p.device_id ≡ device_id

module _ (agent : AgentService) (session nonce device_id : List ℕ) (created now : ℕ)
    (p : AuthPayload) (a : Answers p session nonce device_id)
    (fits : created + default_challenge_ttl_ms < 2 ^ 64) (in_time : now ≤ created + 30000) where
  abbrev rec : ChallengeRecord
  rec = generate_challenge session nonce created device_id agent.pc_id

  abbrev later : AgentService
  later = record agent { challenge_store = add_challenge agent.challenge_store rec }

  stored : find (session_key p.session_id) later.challenge_store ≡ some rec
  unfolding add_challenge generate_challenge
  stored = rw a.same_session (find-assign_self (session_key session) _ _)

  matches : Matches rec (store_request later p now)
  unfolding generate_challenge
  matches = record {
    live = refl;
    in_time = omega (arith, in_time, fits);
    device = sym a.same_device;
    pc = refl;
    nonce = sym a.same_nonce;
  }

  module _ (cng : Cng) (signature : List ℕ) (frame : TransportFrame)
      (sent : frame.payload ≡ serialize p ++ signature) (long : 8 ≤ length signature)
      (known : get_device_public_key agent.device_registry device_id ≢ 0)
      (signed : verify_signature cng
          (get_device_public_key agent.device_registry device_id)
          (serialize p)
          signature
        ≡ ok true) where
    checked : Checked cng later now frame p
    checked =
        let size = length-serialize p a.well_formed in
        record {
          long_enough = rw sent (omega (arith, size, length-append {0} (serialize p) signature));
          parsed = rw sent (
              deserialize-serialize p signature a.well_formed a.same_domain a.same_version
                a.same_algorithm);
          valid =
              (validate_challenge_iff later.challenge_store (store_request later p now)).1
                (rec, stored, matches);
          known = rw a.same_device known;
          signed =
              rw
                (
                  sent,
                  take-append 108 (serialize p) signature size,
                  drop-append 108 (serialize p) signature size,
                )
                (ap
                    (λ d.
                      verify_signature cng (get_device_public_key agent.device_registry d)
                        (serialize p) signature)
                    a.same_device
                  ∙ signed);
        }

    verdict :
        process_unlock_response cng later [] now frame
        ≡ some (
          success,
          assign (session_key p.session_id) (record rec { state = consumed }) later.challenge_store,
        )
    verdict = unfold run in Checked-succeeds cng later [] now frame p rec checked stored matches

answer_success : answer success ≡ (unlock_resp, 0 ∷ 0 ∷ [])
unfolding answer error_value byte_at
answer_success = refl

granted_answer :
    (cng : Cng) (agent : AgentService) (now : ℕ) (frame : TransportFrame) (store : ChallengeStore)
    → process_unlock_response cng agent [] now frame ≡ some (success, store)
    → frame.message_type ≡ unlock_resp
    → on_frame_received cng agent [] now frame
      ≡ some (record agent { challenge_store = store }, (unlock_resp, 0 ∷ 0 ∷ []) ∷ [])
granted_answer cng agent now frame store e resp =
    rw (← answer_success) (answered cng agent [] now frame success store e resp)

-- From the request to the verdict: after InitiateUnlockRequest, an UNLOCK_RESP frame that carries a
-- well-formed payload with the session, the nonce and the device of the request, followed by at
-- least 8 bytes that verify as its signature under the registered key of the device, is answered by
-- UNLOCK_RESP with the verdict 0 while at most 30 seconds have passed.
pub unlock_granted :
    (cng : Cng) (agent : AgentService) (session nonce device_id signature : List ℕ)
    (created now : ℕ) (p : AuthPayload) (frame : TransportFrame)
    → Answers p session nonce device_id
    → created + default_challenge_ttl_ms < 2 ^ 64
    → now ≤ created + 30000
    → frame.message_type ≡ unlock_resp
    → frame.payload ≡ serialize p ++ signature
    → 8 ≤ length signature
    → get_device_public_key agent.device_registry device_id ≢ 0
    → verify_signature cng
        (get_device_public_key agent.device_registry device_id)
        (serialize p)
        signature
      ≡ ok true
    → let (rec, later, request) = initiate_unlock_request agent session nonce created device_id in
      (after : AgentService) × (on_frame_received cng later [] now frame
        ≡ some (after, (unlock_resp, 0 ∷ 0 ∷ []) ∷ []))
unfolding initiate_unlock_request
unlock_granted cng agent session nonce device_id signature created now p frame a fits in_time resp
      sent long known signed =
    let granted =
      verdict agent session nonce device_id created now p a fits in_time cng signature frame sent
        long known signed in
    (_, granted_answer cng _ now frame _ granted resp)
