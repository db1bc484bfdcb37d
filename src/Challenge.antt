-- ===== src/Challenge.antt =====
-- windows/agent/ChallengeGenerator.h, ChallengeGenerator.cpp, ChallengeStore.h and
-- ChallengeStore.cpp. Each method of the store holds the mutex from its first line to its last, so
-- a history of the store is a sequence of whole calls, in whatever order the threads make them.
pub mod Verdict
pub mod SingleUse
pub mod Expiry
pub mod Lifetime
pub mod Histories
use phonekey.Prelude.{
  ℕ, zero, suc, ◌+◌, ◌^◌, Bool, true, false, not, ◌&&◌, ◌||◌, List, [], ◌∷◌, Option, none, some,
  ltb, if◌then◌else◌, same_bytes,
}
use phonekey.Prelude.Words.{u64}
use phonekey.Prelude.Map.{Map, find, assign, bytes_to_key}
use phonekey.Protocol.{
  ErrorCode, success, challenge_not_found, challenge_already_consumed, challenge_expired,
  device_mismatch, pc_mismatch, uuid_size, default_challenge_ttl_ms,
}

pub data ChallengeState : Type 0 where
  outstanding consumed expired : ChallengeState

pub record ChallengeRecord : Type 0 where
  pub session_id : List ℕ
  pub device_id : List ℕ
  pub pc_id : List ℕ
  pub challenge : List ℕ
  pub creation_timestamp_ms : ℕ
  pub expiration_timestamp_ms : ℕ
  pub state : ChallengeState

-- `GenerateChallenge`: `session` and `nonce` are what the two calls of the random generator left in
-- the arrays, and `now_ms` is the reading of the system clock.
unfoldable pub generate_challenge : List ℕ → List ℕ → ℕ → List ℕ → List ℕ → ChallengeRecord
generate_challenge session nonce now_ms device_id pc_id = record {
  session_id = session;
  device_id = device_id;
  pc_id = pc_id;
  challenge = nonce;
  creation_timestamp_ms = now_ms;
  expiration_timestamp_ms = u64 (now_ms + default_challenge_ttl_ms);
  state = outstanding;
}

abbrev pub ChallengeStore : Type 0
ChallengeStore = Map ChallengeRecord

abbrev pub is_consumed : ChallengeState → Bool
is_consumed outstanding = false
is_consumed consumed = true
is_consumed expired = false

abbrev pub is_expired : ChallengeState → Bool
is_expired outstanding = false
is_expired consumed = false
is_expired expired = true

abbrev pub is_outstanding : ChallengeState → Bool
is_outstanding outstanding = true
is_outstanding consumed = false
is_outstanding expired = false

-- What a request names: the arguments that the three checking methods share.
pub record Request : Type 0 where
  pub session_id : List ℕ
  pub device_id : List ℕ
  pub pc_id : List ℕ
  pub challenge : List ℕ
  pub current_time_ms : ℕ

abbrev pub session_key : List ℕ → List ℕ
session_key session_id = bytes_to_key session_id uuid_size

unfoldable pub add_challenge : ChallengeStore → ChallengeRecord → ChallengeStore
add_challenge store rec = assign (session_key rec.session_id) rec store

-- `rec.state == EXPIRED || currentTimeMs > rec.expirationTimestampMs`
abbrev pub is_late : ChallengeRecord → Request → Bool
is_late rec request =
    is_expired rec.state || ltb rec.expiration_timestamp_ms request.current_time_ms

-- `ValidateChallenge`, with the record that it copies out on success.
unfoldable pub validate_record : ChallengeRecord → Request → ErrorCode × Option ChallengeRecord
validate_record rec request =
    if is_consumed rec.state
    then (challenge_already_consumed, none)
    else if is_late rec request
    then (challenge_expired, none)
    else if not (same_bytes rec.device_id request.device_id)
    then (device_mismatch, none)
    else if not (same_bytes rec.pc_id request.pc_id)
    then (pc_mismatch, none)
    else if not (same_bytes rec.challenge request.challenge)
    then (challenge_not_found, none)
    else (success, some rec)

unfoldable pub validate_challenge : ChallengeStore → Request → ErrorCode × Option ChallengeRecord
unfolding validate_record
validate_challenge store request = elim (find (session_key request.session_id) store) [
  | none ↦ (challenge_not_found, none)
  | some rec ↦ validate_record rec request
]

-- `ConsumeChallenge`: the error code and the record as it is left in the map.
unfoldable pub consume_record : ChallengeRecord → Request → ErrorCode × ChallengeRecord
consume_record rec request =
    if is_consumed rec.state
    then (challenge_already_consumed, rec)
    else if is_late rec request
    then (challenge_expired, record rec { state = expired })
    else if not (same_bytes rec.device_id request.device_id)
    then (device_mismatch, rec)
    else if not (same_bytes rec.pc_id request.pc_id)
    then (pc_mismatch, rec)
    else if not (same_bytes rec.challenge request.challenge)
    then (challenge_not_found, rec)
    else (success, record rec { state = consumed })

unfoldable pub consume_challenge : ChallengeStore → Request → ErrorCode × ChallengeStore
unfolding consume_record
consume_challenge store request = elim (find (session_key request.session_id) store) [
  | none ↦ (challenge_not_found, store)
  | some rec ↦
      let (code, after) = consume_record rec request in
      (code, assign (session_key request.session_id) after store)
]

-- `ValidateAndConsumeChallenge` repeats the text of `ConsumeChallenge`.
unfoldable pub validate_and_consume_challenge :
    ChallengeStore → Request → ErrorCode × ChallengeStore
unfolding consume_record
validate_and_consume_challenge store request = elim (find (session_key request.session_id) store) [
  | none ↦ (challenge_not_found, store)
  | some rec ↦
      let (code, after) = consume_record rec request in
      (code, assign (session_key request.session_id) after store)
]

-- `state == OUTSTANDING && currentTimeMs > expirationTimestampMs`
abbrev pub expires_now : ℕ → ChallengeRecord → Bool
expires_now now rec = is_outstanding rec.state && ltb rec.expiration_timestamp_ms now

-- `ExpireChallenges`: the count, and the store with the records marked.
unfoldable pub expire_challenges : ℕ → ChallengeStore → ℕ × ChallengeStore
expire_challenges now [] = (0, [])
expire_challenges now ((key, rec) ∷ store) =
    let (count, rest) = expire_challenges now store in
    if expires_now now rec
    then (count + 1, (key, record rec { state = expired }) ∷ rest)
    else (count, (key, rec) ∷ rest)

unfoldable pub get_active_count : ChallengeStore → ℕ
get_active_count [] = 0
get_active_count ((key, rec) ∷ store) =
    let rest = get_active_count store in if is_outstanding rec.state then rest + 1 else rest

-- A call of the store, and the store after it.
pub data Call : Type 0 where
  adds : ChallengeRecord → Call
  validates consumes validates_and_consumes : Request → Call
  expires : ℕ → Call
  counts : Call

unfoldable pub step : ChallengeStore → Call → ChallengeStore
unfolding add_challenge consume_challenge validate_and_consume_challenge expire_challenges
step store (adds rec) = add_challenge store rec
step store (validates request) = store
step store (consumes request) = (consume_challenge store request).1
step store (validates_and_consumes request) = (validate_and_consume_challenge store request).1
step store (expires now) = (expire_challenges now store).1
step store counts = store

-- A history of calls.
unfoldable pub run : ChallengeStore → List Call → ChallengeStore
unfolding step
run store [] = store
run store (c ∷ cs) = run (step store c) cs
