-- ===== src/Challenge/Verdict.antt =====
-- The three checking methods of the challenge store, branch by branch.
use phonekey.Prelude.{
  ℕ, ◌≤◌, ◌≡◌, refl, sym, ◌∙◌, ◌↔◌, arith, subst, ap, List, none, some, Option-cases, inl, inr,
  same_bytes_iff,
}
use phonekey.Prelude.Map.{find, assign}
use phonekey.Protocol.{success, challenge_not_found}
use phonekey.Challenge.{
  ChallengeStore, ChallengeRecord, Request, outstanding, consumed, session_key, validate_record,
  consume_record, validate_challenge, consume_challenge, validate_and_consume_challenge,
}

-- What a request must meet to be granted: the session is known, its challenge is outstanding and
-- not past its expiry, and device, PC and nonce are those of the record.
pub record Matches (rec : ChallengeRecord) (request : Request) : Type 0 where
  pub live : rec.state ≡ outstanding
  pub in_time : request.current_time_ms ≤ rec.expiration_timestamp_ms
  pub device : rec.device_id ≡ request.device_id
  pub pc : rec.pc_id ≡ request.pc_id
  pub nonce : rec.challenge ≡ request.challenge

validate_record_sound :
    (rec : ChallengeRecord) (request : Request)
    → (validate_record rec request).0 ≡ success
    → Matches rec request
unfolding validate_record
validate_record_sound rec request e = ground (
  arith,
  same_bytes_iff rec.device_id request.device_id,
  same_bytes_iff rec.pc_id request.pc_id,
  same_bytes_iff rec.challenge request.challenge,
)

validate_record_complete :
    (rec : ChallengeRecord) (request : Request)
    → Matches rec request
    → validate_record rec request ≡ (success, some rec)
unfolding validate_record
validate_record_complete rec request m = ground (
  arith,
  same_bytes_iff rec.device_id request.device_id,
  same_bytes_iff rec.pc_id request.pc_id,
  same_bytes_iff rec.challenge request.challenge,
)

-- Each method looks the session up first.
module _ (store : ChallengeStore) (request : Request) where
  abbrev key_of : List ℕ
  key_of = session_key request.session_id

  pub validate_missing :
      find key_of store ≡ none → validate_challenge store request ≡ (challenge_not_found, none)
  unfolding validate_challenge
  validate_missing e = rw (e, validate_challenge)

  pub validate_found :
      (rec : ChallengeRecord)
      → find key_of store ≡ some rec
      → validate_challenge store request ≡ validate_record rec request
  unfolding validate_challenge
  validate_found rec e = rw (e, validate_challenge)

  pub consume_missing :
      find key_of store ≡ none
      → (consume_challenge store request ≡ (challenge_not_found, store))
        × (validate_and_consume_challenge store request ≡ (challenge_not_found, store))
  unfolding consume_challenge validate_and_consume_challenge
  consume_missing e = (rw (e, consume_challenge), rw (e, validate_and_consume_challenge))

  pub consume_found :
      (rec : ChallengeRecord)
      → find key_of store ≡ some rec
      → let (code, after) = consume_record rec request in
        (consume_challenge store request ≡ (code, assign key_of after store))
        × (validate_and_consume_challenge store request ≡ (code, assign key_of after store))
  unfolding consume_challenge validate_and_consume_challenge
  consume_found rec e = (rw (e, consume_challenge), rw (e, validate_and_consume_challenge))

  pub same_method : validate_and_consume_challenge store request ≡ consume_challenge store request
  same_method = elim (Option-cases (find key_of store)) [
    | inl missing ↦ let (a, b) = consume_missing missing in b ∙ sym a
    | inr (rec, found) ↦ let (a, b) = consume_found rec found in b ∙ sym a
  ]

-- ValidateChallenge answers success exactly when the store has an outstanding record for the
-- session that is not past its expiry and names the same device, PC and nonce.
pub validate_challenge_iff :
    (store : ChallengeStore) (request : Request)
    → ((validate_challenge store request).0 ≡ success) ↔ (
        (rec : ChallengeRecord) × (find (session_key request.session_id) store ≡ some rec)
        × Matches rec request)
validate_challenge_iff store request =
    elim (Option-cases (find (session_key request.session_id) store)) [
      | inl missing ↦
          let e = validate_missing store request missing in
          ((λ p. cc (ap (λ r. r.0) e)), λ (x, found, m). cc)
      | inr (rec, found) ↦
          let e = validate_found store request rec found in
          (
            (λ p. (rec, found, validate_record_sound rec request (rw e at p))),
            λ (x, found', m).
                let same : x ≡ rec = cc in
                rw e (
                  ap (λ r. r.0)
                    (validate_record_complete rec request (subst (λ r. Matches r request) same m))),
          )
    ]

consume_record-validate :
    (rec : ChallengeRecord) (request : Request)
    → (consume_record rec request).0 ≡ (validate_record rec request).0
unfolding consume_record validate_record
consume_record-validate rec request = ground arith

-- The three methods give the same answer on the same store and request.
consume-eq-validate :
    (store : ChallengeStore) (request : Request)
    → ((consume_challenge store request).0 ≡ (validate_challenge store request).0)
      × ((validate_and_consume_challenge store request).0 ≡ (validate_challenge store request).0)
consume-eq-validate store request =
    elim (Option-cases (find (session_key request.session_id) store)) [
      | inl missing ↦
          let (a, b) = consume_missing store request missing in
          rw (validate_missing store request missing, a, b) (refl, refl)
      | inr (rec, found) ↦
          let (a, b) = consume_found store request rec found in
          rw (validate_found store request rec found, a, b)
            (consume_record-validate rec request, consume_record-validate rec request)
    ]

consume_record_complete :
    (rec : ChallengeRecord) (request : Request)
    → Matches rec request
    → consume_record rec request ≡ (success, record rec { state = consumed })
unfolding consume_record
consume_record_complete rec request m = ground (
  arith,
  same_bytes_iff rec.device_id request.device_id,
  same_bytes_iff rec.pc_id request.pc_id,
  same_bytes_iff rec.challenge request.challenge,
)

-- A record that matches is granted, and left consumed;
pub consume_matching :
    (store : ChallengeStore) (request : Request) (rec : ChallengeRecord)
    → find (session_key request.session_id) store ≡ some rec
    → Matches rec request
    → validate_and_consume_challenge store request
      ≡ (success, assign (session_key request.session_id) (record rec { state = consumed }) store)
consume_matching store request rec found m =
    rw ((consume_found store request rec found).1, consume_record_complete rec request m) refl

-- and whatever is granted matched.
pub consume_granted :
    (store : ChallengeStore) (request : Request)
    → (validate_and_consume_challenge store request).0 ≡ success
    → (rec : ChallengeRecord) × (find (session_key request.session_id) store ≡ some rec)
      × Matches rec request
consume_granted store request e =
    (validate_challenge_iff store request).0 (rw (consume-eq-validate store request).1 at e)
