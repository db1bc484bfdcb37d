-- ===== src/Agent/Decision.antt =====
-- `AgentService::ProcessUnlockResponse`: what a verdict of success means, and when it is given.
use phonekey.Prelude.{
  ℕ, ◌≤◌, ◌≡◌, ◌≢◌, refl, sym, ap, ◌∙◌, arith, Bool, true, not, List, none, some, length, take,
  drop, ltb, ltb→le, le→ltb, ==_false, not-false, ◌==◌, Result, ok, err, fault, >>=-eq-ok,
  fail_if-eq-ok, ok_injective, some_injective, Result-cases, fail_if-ne-err, >>=-ne-err,
  read_bytes-ne-err, read_bytes, read_bytes_total, read_bytes-ok, inl, inr,
}
use phonekey.Prelude.Map.{find, assign, find-assign_self}
use phonekey.Protocol.{ErrorCode, success, AuthPayload, deserialize, invalid_signature}
use phonekey.Protocol.Rejection.{deserialize-ne-success}
use phonekey.Frame.{TransportFrame}
use phonekey.Challenge.{
  ChallengeStore, ChallengeRecord, Request, Call, run, consumed, session_key, validate_challenge,
  validate_and_consume_challenge,
}
use phonekey.Challenge.Verdict.{Matches, consume_matching, consume_granted}
use phonekey.Signature.{Cng, verify_signature, Refusal, refused}
use phonekey.Registry.{get_device_public_key}
use phonekey.Agent.{
  AgentService, store_request, check_response, process_unlock_response, signature_valid,
  fail_unless_success,
}

-- What steps 1 to 4 establish about a frame.
pub record Checked (cng : Cng) (agent : AgentService) (now : ℕ) (frame : TransportFrame)
    (p : AuthPayload) : Type 0 where
  pub long_enough : 116 ≤ length frame.payload
  pub parsed : deserialize (some frame.payload) 108 ≡ ok p
  pub valid : (validate_challenge agent.challenge_store (store_request agent p now)).0 ≡ success
  pub known : get_device_public_key agent.device_registry p.device_id ≢ 0
  pub signed :
      verify_signature cng
        (get_device_public_key agent.device_registry p.device_id)
        (take 108 frame.payload)
        (drop 108 frame.payload)
      ≡ ok true

unless_success :
    (code : ErrorCode) {u : Unit {0}} → fail_unless_success code ≡ ok u → code ≡ success
unless_success success e = refl
unless_success _ e = cc

valid_signature :
    (r : Result Refusal Bool) {b : Bool} → signature_valid r ≡ ok b → b ≡ true → r ≡ ok true
valid_signature (ok b) e t = cc
valid_signature (err refused) e t = cc
valid_signature fault e t = cc

pub check_response_sound :
    (cng : Cng) (agent : AgentService) (now : ℕ) (frame : TransportFrame) (request : Request)
    → check_response cng agent now frame ≡ ok request
    → (p : AuthPayload) × Checked cng agent now frame p × (request ≡ store_request agent p now)
unfolding check_response
check_response_sound cng agent now frame request e =
    let (long, e1) = fail_if-eq-ok (ltb (length frame.payload) 116) _ _ e in
    let (p, parsed, e2) = >>=-eq-ok (deserialize (some frame.payload) 108) _ e1 in
    let (u, ok_code, e3) =
      >>=-eq-ok
        (fail_unless_success
          (validate_challenge agent.challenge_store (store_request agent p now)).0)
        _ e2 in
    let (known, e4) =
      fail_if-eq-ok (get_device_public_key agent.device_registry p.device_id == 0) _ _ e3 in
    let (signed, read, e5) = >>=-eq-ok (read_bytes frame.payload 0 108) _ e4 in
    let (valid, verified, e6) =
      >>=-eq-ok
        (signature_valid (
          verify_signature cng (get_device_public_key agent.device_registry p.device_id) signed
            (drop 108 frame.payload)))
        _ e5 in
    let (accepted, e7) = fail_if-eq-ok (not valid) _ _ e6 in
    let (room, is_front, _) = read_bytes-ok frame.payload 0 108 read in
    (
      p,
      record {
        long_enough = ltb→le _ _ long;
        parsed = parsed;
        valid = unless_success _ ok_code;
        known = (==_false _ _).0 known;
        signed = rw (← is_front) (valid_signature _ verified (not-false valid accepted));
      },
      sym (ok_injective e7),
    )

check_response_complete :
    (cng : Cng) (agent : AgentService) (now : ℕ) (frame : TransportFrame) (p : AuthPayload)
    → Checked cng agent now frame p
    → check_response cng agent now frame ≡ ok (store_request agent p now)
unfolding check_response
check_response_complete cng agent now frame p c =
    let front : read_bytes {E = ErrorCode} frame.payload 0 108 ≡ ok (take 108 frame.payload) =
      read_bytes_total frame.payload 0 108 (omega arith) in
    rw (le→ltb _ _ c.long_enough, c.parsed, c.valid, (==_false _ _).1 c.known, front, c.signed)

unless_success-ne-success : (code : ErrorCode) → fail_unless_success code ≢ err success
unless_success-ne-success success = λ p. cc
unless_success-ne-success _ = λ p. cc

signature_valid-ne-err : (r : Result Refusal Bool) (code : ErrorCode) → signature_valid r ≢ err code
signature_valid-ne-err (ok b) code = λ p. cc
signature_valid-ne-err (err refused) code = λ p. cc
signature_valid-ne-err fault code = λ p. cc

-- An early return is never a success.
check_response-ne-success :
    (cng : Cng) (agent : AgentService) (now : ℕ) (frame : TransportFrame)
    → check_response cng agent now frame ≢ err success
unfolding check_response
check_response-ne-success cng agent now frame =
    fail_if-ne-err (ltb (length frame.payload) 116) _ success _ (λ p. cc)
      (>>=-ne-err _ _ success (deserialize-ne-success frame.payload 108) λ p.
        >>=-ne-err _ _ success (unless_success-ne-success _) λ u.
          fail_if-ne-err (get_device_public_key agent.device_registry p.device_id == 0) _ success _
            (λ q. cc)
            (>>=-ne-err _ _ success (read_bytes-ne-err frame.payload 0 108 success) λ signed.
              >>=-ne-err _ _ success (signature_valid-ne-err _ success) λ valid.
                fail_if-ne-err (not valid) invalid_signature success
                  (ok (store_request agent p now)) (λ q. cc) (λ q. cc)))

-- The verdict, by the outcome of the checks.
module _ (cng : Cng) (agent : AgentService) (between : List Call) (now : ℕ)
    (frame : TransportFrame) where
  pub verdict_ok :
      (request : Request)
      → check_response cng agent now frame ≡ ok request
      → process_unlock_response cng agent between now frame
        ≡ some (validate_and_consume_challenge (run agent.challenge_store between) request)
  unfolding process_unlock_response
  verdict_ok request e = rw (e, process_unlock_response)

  pub verdict_err :
      (code : ErrorCode)
      → check_response cng agent now frame ≡ err code
      → process_unlock_response cng agent between now frame
        ≡ some (code, run agent.challenge_store between)
  unfolding process_unlock_response
  verdict_err code e = rw (e, process_unlock_response)

  pub verdict_fault :
      check_response cng agent now frame ≡ fault
      → process_unlock_response cng agent between now frame ≡ none
  unfolding process_unlock_response
  verdict_fault e = rw (e, process_unlock_response)

-- ProcessUnlockResponse answers success only if the frame holds a payload that parses, for a challenge
-- that was checked before the signature, whose device has a key in the registry under which CNG
-- accepts the signature of the 108 bytes; and only if, at the moment of step 5 and whatever other
-- threads called on the store meanwhile, the record of the session is outstanding, in time, and names
-- the device, the nonce and this PC. That record is then consumed.
pub success_authorized :
    (cng : Cng) (agent : AgentService) (between : List Call) (now : ℕ) (frame : TransportFrame)
    (after : ChallengeStore)
    → process_unlock_response cng agent between now frame ≡ some (success, after)
    → (p : AuthPayload) × (rec : ChallengeRecord) × Checked cng agent now frame p
      × (find (session_key p.session_id) (run agent.challenge_store between) ≡ some rec)
      × Matches rec (store_request agent p now)
      × (find (session_key p.session_id) after ≡ some (record rec { state = consumed }))
success_authorized cng agent between now frame after e =
    elim (Result-cases (check_response cng agent now frame)) [
      | inl (request, checks) ↦
          let (p, c, named) = check_response_sound cng agent now frame request checks in
          let done : validate_and_consume_challenge (run agent.challenge_store between)
                (store_request agent p now)
              ≡ (success, after) =
            some_injective (
              ap (λ r. some (validate_and_consume_challenge (run agent.challenge_store between) r))
                (sym named)
              ∙ sym (verdict_ok cng agent between now frame request checks)
              ∙ e) in
          let (rec, found, m) =
            consume_granted (run agent.challenge_store between) (store_request agent p now)
              (ap (λ r. r.0) done) in
          let stored : after
              ≡ assign (session_key p.session_id) (record rec { state = consumed })
                  (run agent.challenge_store between) =
            ap (λ r. r.1)
              (sym done
                ∙ consume_matching (run agent.challenge_store between) (store_request agent p now)
                    rec found m) in
          (p, rec, c, found, m, rw stored (find-assign_self (session_key p.session_id) _ _))
      | inr (inl (code, checks)) ↦
          let same : code ≡ success =
            ap (λ r. r.0)
              (some_injective (sym (verdict_err cng agent between now frame code checks) ∙ e)) in
          absurd (check_response-ne-success cng agent now frame (rw same at checks))
      | inr (inr checks) ↦ let nothing = verdict_fault cng agent between now frame checks in cc
    ]

-- The converse: a frame that passes the checks is granted if the record still matches at step 5.
pub Checked-succeeds :
    (cng : Cng) (agent : AgentService) (between : List Call) (now : ℕ) (frame : TransportFrame)
    (p : AuthPayload) (rec : ChallengeRecord)
    → Checked cng agent now frame p
    → find (session_key p.session_id) (run agent.challenge_store between) ≡ some rec
    → Matches rec (store_request agent p now)
    → process_unlock_response cng agent between now frame
      ≡ some (
        success,
        assign
            (session_key p.session_id)
            (record rec { state = consumed })
            (run agent.challenge_store between),
      )
Checked-succeeds cng agent between now frame p rec c found m =
    verdict_ok cng agent between now frame _ (check_response_complete cng agent now frame p c)
    ∙ ap some (
        consume_matching (run agent.challenge_store between) (store_request agent p now) rec found
          m)
