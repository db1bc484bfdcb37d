-- ===== src/Examples/Unlock.antt =====
-- Examples for the agent: one unlock, and what it takes.
use phonekey.Prelude.{
  none, ◌∙◌, ap, same_bytes, same_bytes_refl, take-append, drop-append, length-append, ℕ, ◌≡◌, ◌≢◌,
  ◌↔◌, refl, arith, true, List, [], ◌∷◌, some, ok,
}
use phonekey.Prelude.Map.{find, assign, bytes_to_key}
use phonekey.Prelude.Writes.{write, memcpy, write_u16, write_loop}
use phonekey.Prelude.Reads.{read_u16}
use phonekey.Protocol.{ErrorCode, AuthPayload, success, error_value, serialize, deserialize}
use phonekey.Protocol.RoundTrip.{deserialize-serialize, length-serialize}
use phonekey.Frame.{FrameError, TransportMessageType, unlock_resp}
use phonekey.Challenge.{
  ChallengeStore, ChallengeRecord, counts, expires, consumed, session_key, run, step,
  generate_challenge,
}
use phonekey.Challenge.Verdict.{Matches, validate_challenge_iff}
use phonekey.Signature.{verify_signature}
use phonekey.Registry.{get_device_public_key}
use phonekey.Agent.{AgentService, store_request, process_unlock_response, on_frame_received}
use phonekey.Agent.Decision.{Checked, success_authorized, Checked-succeeds}
use phonekey.Agent.Replay.{replay_refused}
use phonekey.Agent.Answer.{one_answer}
use phonekey.Agent.Grant.{Answers}
use phonekey.Examples.{
  toy_cng, toy_signature, agent, phone, session, nonce, payload, issued, answer_frame,
}
use phonekey.Examples.Wire.{payload-IsPayload}

pub payload-Answers : Answers payload session nonce phone
payload-Answers = record {
  well_formed = payload-IsPayload;
  same_domain = refl;
  same_version = refl;
  same_algorithm = refl;
  same_session = refl;
  same_nonce = refl;
  same_device = refl;
}

pub key_of_phone : get_device_public_key agent.device_registry phone ≡ 7
unfolding get_device_public_key find same_bytes bytes_to_key
key_of_phone = refl

known_phone : get_device_public_key agent.device_registry phone ≢ 0
known_phone = λ e. omega (arith, e, key_of_phone)

pub signed_payload :
    verify_signature toy_cng
      (get_device_public_key agent.device_registry phone)
      (serialize payload)
      toy_signature
    ≡ ok true
unfolding get_device_public_key verify_signature find same_bytes bytes_to_key serialize write_loop
    memcpy write write_u16
signed_payload = refl

-- The agent after the request, and its store after the answer.
abbrev waiting : AgentService
waiting = record agent { challenge_store = (session_key session, issued) ∷ [] }

abbrev spent : ChallengeStore
spent = (session_key session, record issued { state = consumed }) ∷ []

parsed : deserialize (some answer_frame.payload) 108 ≡ ok payload
parsed = deserialize-serialize payload toy_signature payload-IsPayload refl refl refl

issued_found : find (session_key session) waiting.challenge_store ≡ some issued
unfolding find
issued_found = ground (arith, same_bytes_refl (session_key session))

issued-Matches : Matches issued (store_request waiting payload 2000)
unfolding generate_challenge
issued-Matches = record {
  live = refl;
  in_time = omega arith;
  device = refl;
  pc = refl;
  nonce = refl;
}

answer-Checked : Checked toy_cng waiting 2000 answer_frame payload
answer-Checked = record {
  long_enough = omega (
    arith,
    length-append {0} (serialize payload) toy_signature,
    length-serialize payload payload-IsPayload,
  );
  parsed = parsed;
  valid = (validate_challenge_iff _ _).1 (issued, issued_found, issued-Matches);
  known = known_phone;
  signed =
      rw
        (
          take-append 108 (serialize payload) toy_signature
              (length-serialize payload payload-IsPayload),
          drop-append 108 (serialize payload) toy_signature
              (length-serialize payload payload-IsPayload),
        )
        signed_payload;
}

still_found : find (session_key session) (run waiting.challenge_store (counts ∷ [])) ≡ some issued
unfolding run step
still_found = issued_found

consumed_store :
    assign
      (session_key session)
      (record issued { state = consumed })
      (run waiting.challenge_store (counts ∷ []))
    ≡ spent
unfolding run step assign
consumed_store = ground (arith, same_bytes_refl (session_key session))

granted :
    process_unlock_response toy_cng waiting (counts ∷ []) 2000 answer_frame ≡ some (success, spent)
granted =
    Checked-succeeds toy_cng waiting (counts ∷ []) 2000 answer_frame payload issued answer-Checked
      still_found issued-Matches
    ∙ ap (λ store. some (success, store)) consumed_store

success_authorized_example :
    (p : AuthPayload) × (rec : ChallengeRecord) × Checked toy_cng waiting 2000 answer_frame p
    × (find (session_key p.session_id) (run waiting.challenge_store (counts ∷ [])) ≡ some rec)
    × Matches rec (store_request waiting p 2000)
    × (find (session_key p.session_id) spent ≡ some (record rec { state = consumed }))
success_authorized_example =
    success_authorized toy_cng waiting (counts ∷ []) 2000 answer_frame spent granted

replay_refused_example :
    process_unlock_response toy_cng
      (record waiting { challenge_store = run spent (expires 99999 ∷ []) })
      []
      2001
      answer_frame
    ≢ some (success, spent)
replay_refused_example =
    replay_refused toy_cng waiting (counts ∷ []) (expires 99999 ∷ []) [] 2000 2001 answer_frame
      answer_frame payload payload spent spent granted parsed parsed refl (tt, tt)

one_answer_example :
    (answer_frame.message_type ≢ unlock_resp
      → on_frame_received toy_cng waiting (counts ∷ []) 2000 answer_frame
        ≡ some (record waiting { challenge_store = run waiting.challenge_store (counts ∷ []) }, []))
    × (answer_frame.message_type ≡ unlock_resp
        → (process_unlock_response toy_cng waiting (counts ∷ []) 2000 answer_frame ≡ none
            → on_frame_received toy_cng waiting (counts ∷ []) 2000 answer_frame ≡ none)
          × ((code : ErrorCode) (store : ChallengeStore)
              → process_unlock_response toy_cng waiting (counts ∷ []) 2000 answer_frame
                ≡ some (code, store)
              → (kind : TransportMessageType) × (bytes : List ℕ) × (on_frame_received toy_cng
                    waiting
                    (counts ∷ [])
                    2000
                    answer_frame
                  ≡ some (record waiting { challenge_store = store }, (kind, bytes) ∷ []))
                × (read_u16 {E = FrameError} bytes 0 ≡ ok (error_value code))
                × ((kind ≡ unlock_resp) ↔ (code ≡ success))))
one_answer_example = one_answer toy_cng waiting (counts ∷ []) 2000 answer_frame
