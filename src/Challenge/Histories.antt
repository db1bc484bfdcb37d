-- ===== src/Challenge/Histories.antt =====
-- A history of the challenge store, against a function from sessions to records.
use std.Path.{fun_ext}
use phonekey.Prelude.{
  ℕ, ◌≡◌, refl, sym, ap, ◌∙◌, arith, Bool, true, false, not, List, [], ◌∷◌, ◌++◌, Option, none,
  some, Option-cases, Bool-cases, inl, inr, same_bytes, same_bytes_iff, if◌then◌else◌,
}
use phonekey.Prelude.Map.{find, find-assign}
use phonekey.Protocol.{
  ErrorCode, success, challenge_not_found, challenge_already_consumed, challenge_expired,
  device_mismatch, pc_mismatch,
}
use phonekey.Challenge.{
  ChallengeStore, ChallengeRecord, ChallengeState, Request, Call, adds, validates, consumes,
  validates_and_consumes, expires, counts, consumed, expired, session_key, is_consumed, is_late,
  consume_record, validate_record, validate_challenge, consume_challenge,
  validate_and_consume_challenge, add_challenge, step, run,
}
use phonekey.Challenge.Verdict.{
  validate_missing, validate_found, consume_missing, consume_found, same_method,
}
use phonekey.Challenge.Expiry.{mark_found, find-expire_challenges}

-- What a record says against a request: the complaints, in their order of precedence.
abbrev complaints : ChallengeRecord → Request → List (Bool × ErrorCode)
complaints rec request =
    (is_consumed rec.state, challenge_already_consumed)
    ∷ (is_late rec request, challenge_expired)
    ∷ (not (same_bytes rec.device_id request.device_id), device_mismatch)
    ∷ (not (same_bytes rec.pc_id request.pc_id), pc_mismatch)
    ∷ (not (same_bytes rec.challenge request.challenge), challenge_not_found)
    ∷ []

abbrev first_of : List (Bool × ErrorCode) → ErrorCode
first_of [] = success
first_of ((true, code) ∷ more) = code
first_of ((false, code) ∷ more) = first_of more

-- The state of a record that a request was made of.
abbrev state_after : ChallengeState → ErrorCode → ChallengeState
state_after state success = consumed
state_after state challenge_expired = expired
state_after state _ = state

abbrev record_after : ChallengeRecord → Request → ChallengeRecord
record_after rec request = record rec {
  state = state_after rec.state (first_of (complaints rec request));
}

-- What the store promises to remember: a record, or none, for each session.
abbrev View : Type 0
View = List ℕ → Option ChallengeRecord

abbrev pub view_of : ChallengeStore → View
view_of store key = find key store

abbrev update : View → List ℕ → Option ChallengeRecord → View
update view session value key = if same_bytes session key then value else view key

abbrev after_found : Request → Option ChallengeRecord → Option ChallengeRecord
after_found request none = none
after_found request (some rec) = some (record_after rec request)

abbrev used : View → Request → View
used view request =
    let session = session_key request.session_id in
    update view session (after_found request (view session))

abbrev view_step : View → Call → View
view_step view (adds rec) = update view (session_key rec.session_id) (some rec)
view_step view (validates request) = view
view_step view (consumes request) = used view request
view_step view (validates_and_consumes request) = used view request
view_step view (expires now) = λ key. mark_found now (view key)
view_step view counts = view

abbrev pub view_run : View → List Call → View
view_run view [] = view
view_run view (c ∷ cs) = view_run (view_step view c) cs

-- What the checking methods answer.
abbrev answer_found : Request → Option ChallengeRecord → ErrorCode
answer_found request none = challenge_not_found
answer_found request (some rec) = first_of (complaints rec request)

abbrev view_answer : View → Request → List ErrorCode
view_answer view request = answer_found request (view (session_key request.session_id)) ∷ []

abbrev view_reply : View → Call → List ErrorCode
view_reply view (adds rec) = []
view_reply view (validates request) = view_answer view request
view_reply view (consumes request) = view_answer view request
view_reply view (validates_and_consumes request) = view_answer view request
view_reply view (expires now) = []
view_reply view counts = []

abbrev pub view_replies : View → List Call → List ErrorCode
view_replies view [] = []
view_replies view (c ∷ cs) = view_reply view c ++ view_replies (view_step view c) cs

abbrev reply : ChallengeStore → Call → List ErrorCode
reply store (adds rec) = []
reply store (validates request) = (validate_challenge store request).0 ∷ []
reply store (consumes request) = (consume_challenge store request).0 ∷ []
reply store (validates_and_consumes request) = (validate_and_consume_challenge store request).0 ∷ []
reply store (expires now) = []
reply store counts = []

abbrev pub replies : ChallengeStore → List Call → List ErrorCode
replies store [] = []
replies store (c ∷ cs) = reply store c ++ replies (step store c) cs

consume_record_table :
    (rec : ChallengeRecord) (request : Request)
    → consume_record rec request ≡ (first_of (complaints rec request), record_after rec request)
unfolding consume_record
consume_record_table rec request = ground arith

validate_record_table :
    (rec : ChallengeRecord) (request : Request)
    → (validate_record rec request).0 ≡ first_of (complaints rec request)
unfolding validate_record
validate_record_table rec request = ground arith

-- One use of a record, by either of the two methods.
module _ (store : ChallengeStore) (request : Request) where
  abbrev session : List ℕ
  session = session_key request.session_id

  unchanged :
      (key : List ℕ) → find session store ≡ none → find key store ≡ used (view_of store) request key
  unchanged key missing = elim (Bool-cases (same_bytes session key)) [
    | inl same ↦
        let k : session ≡ key = (same_bytes_iff _ _).0 same in
        rw (same, missing) (ap (λ j. find j store) (sym k) ∙ missing)
    | inr other ↦ rw other refl
  ]

  consume-used :
      (key : List ℕ)
      → find key (consume_challenge store request).1 ≡ used (view_of store) request key
  consume-used key = elim (Option-cases (find session store)) [
    | inl missing ↦ rw (consume_missing store request missing).0 (unchanged key missing)
    | inr (rec, found) ↦
        rw ((consume_found store request rec found).0, consume_record_table rec request, found)
          (find-assign session key (record_after rec request) store)
  ]

  consume-answer :
      (consume_challenge store request).0 ≡ answer_found request (view_of store session)
  consume-answer = elim (Option-cases (find session store)) [
    | inl missing ↦ rw ((consume_missing store request missing).0, missing) refl
    | inr (rec, found) ↦
        rw ((consume_found store request rec found).0, consume_record_table rec request, found) refl
  ]

  validate-answer :
      (validate_challenge store request).0 ≡ answer_found request (view_of store session)
  validate-answer = elim (Option-cases (find session store)) [
    | inl missing ↦ rw (validate_missing store request missing, missing) refl
    | inr (rec, found) ↦
        rw (validate_found store request rec found, found) (validate_record_table rec request)
  ]

step-view :
    (store : ChallengeStore) (call : Call)
    → view_of (step store call) ≡ view_step (view_of store) call
unfolding step
step-view store (adds rec) =
    fun_ext λ key. unfold add_challenge in find-assign (session_key rec.session_id) key rec store
step-view store (validates request) = refl
step-view store (consumes request) = fun_ext (consume-used store request)
step-view store (validates_and_consumes request) =
    fun_ext
      λ key. ap (λ r. find key r.1) (same_method store request) ∙ consume-used store request key
step-view store (expires now) = fun_ext λ key. find-expire_challenges key now store
step-view store counts = refl

reply-view :
    (store : ChallengeStore) (call : Call) → reply store call ≡ view_reply (view_of store) call
reply-view store (adds rec) = refl
reply-view store (validates request) = ap (λ code. code ∷ []) (validate-answer store request)
reply-view store (consumes request) = ap (λ code. code ∷ []) (consume-answer store request)
reply-view store (validates_and_consumes request) =
    ap (λ r. r.0 ∷ []) (same_method store request)
    ∙ ap (λ code. code ∷ []) (consume-answer store request)
reply-view store (expires now) = refl
reply-view store counts = refl

-- In every history of calls, from whatever store: the checking methods answer what they would answer,
-- and leave for every session what they would leave, if the store were a function from sessions to
-- records in which a call changes one session; ExpireChallenges alone changes all, and marks what is
-- outstanding and past its expiry.
pub store_refines :
    (store : ChallengeStore) (calls : List Call)
    → (view_of (run store calls) ≡ view_run (view_of store) calls)
      × (replies store calls ≡ view_replies (view_of store) calls)
unfolding run
store_refines store [] = (refl, refl)
store_refines store (c ∷ cs) =
    let (views, answers) = store_refines (step store c) cs in
    let first = step-view store c in
    (
      views ∙ ap (λ v. view_run v cs) first,
      ap (λ xs. xs ++ replies (step store c) cs) (reply-view store c)
          ∙ ap (◌++◌ (view_reply (view_of store) c)) (answers ∙ ap (λ v. view_replies v cs) first),
    )
