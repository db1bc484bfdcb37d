-- ===== src/Challenge/SingleUse.antt =====
-- A challenge is used once, in every history of the store.
use phonekey.Prelude.{
  ℕ, ◌+◌, ◌≤◌, ◌≡◌, refl, ap, arith, Bool, true, false, ◌&&◌, List, [], ◌∷◌, some, Bool-cases,
  Option-cases, inl, inr, All, same_bytes, same_bytes_iff, if◌then◌else◌,
}
use phonekey.Prelude.Map.{find, assign, find-assign}
use phonekey.Protocol.{ErrorCode, success, challenge_already_consumed}
use phonekey.Challenge.{
  ChallengeStore, ChallengeRecord, Request, Call, adds, validates, consumes, validates_and_consumes,
  expires, counts, consumed, session_key, consume_record, consume_challenge,
  validate_and_consume_challenge, step, run, add_challenge,
}
use phonekey.Challenge.Verdict.{consume_missing, consume_found, same_method}
use phonekey.Challenge.Expiry.{find-expire_challenges}

-- The store holds a consumed record for the session.
abbrev pub IsUsed : List ℕ → ChallengeStore → Type 0
IsUsed key store = (rec : ChallengeRecord) × (find key store ≡ some rec) × (rec.state ≡ consumed)

-- A call that does not add a record for the session.
abbrev pub Keeps : List ℕ → Call → Type 0
Keeps key (adds rec) = same_bytes (session_key rec.session_id) key ≡ false
Keeps key (validates request) = Unit {0}
Keeps key (consumes request) = Unit {0}
Keeps key (validates_and_consumes request) = Unit {0}
Keeps key (expires now) = Unit {0}
Keeps key counts = Unit {0}

abbrev is_success : ErrorCode → Bool
is_success success = true
is_success _ = false

-- The call consumes for the session, and it answers success.
abbrev pub grants : List ℕ → ChallengeStore → Call → Bool
grants key store (consumes request) =
    same_bytes (session_key request.session_id) key
    && is_success (consume_challenge store request).0
grants key store (validates_and_consumes request) =
    same_bytes (session_key request.session_id) key
    && is_success (validate_and_consume_challenge store request).0
grants key store (adds rec) = false
grants key store (validates request) = false
grants key store (expires now) = false
grants key store counts = false

-- How often a history of calls grants the session.
abbrev pub grant_count : List ℕ → ChallengeStore → List Call → ℕ
grant_count key store [] = 0
grant_count key store (c ∷ cs) =
    (if grants key store c then 1 else 0) + grant_count key (step store c) cs

consume_record_used :
    (rec : ChallengeRecord) (request : Request)
    → rec.state ≡ consumed
    → consume_record rec request ≡ (challenge_already_consumed, rec)
unfolding consume_record
consume_record_used rec request e = ground arith

consume_record_grants :
    (rec : ChallengeRecord) (request : Request)
    → is_success (consume_record rec request).0 ≡ true
    → (consume_record rec request).1.state ≡ consumed
unfolding consume_record
consume_record_grants rec request e = ground arith

-- What both consuming methods do to the record of a session, and what they answer.
module _ (key : List ℕ) (store : ChallengeStore) (request : Request) where
  abbrev here : Bool
  here = same_bytes (session_key request.session_id) key

  abbrev session : List ℕ
  session = session_key request.session_id

  assigned-IsUsed :
      (rec : ChallengeRecord)
      → find session store ≡ some rec
      → IsUsed key store
      → IsUsed key (assign session (consume_record rec request).1 store)
        × ((here && is_success (consume_record rec request).0) ≡ false)
  assigned-IsUsed rec found (old, e, u) = elim (Bool-cases here) [
    | inl same ↦
        let k : session ≡ key = (same_bytes_iff _ _).0 same in
        let r : rec ≡ old = cc (ap (λ j. find j store) k) in
        let spent : rec.state ≡ consumed = cc in
        rw (consume_record_used rec request spent)
          ((rec, rw (find-assign session key rec store, same) refl, spent), ground arith)
    | inr other ↦ ((old, rw (find-assign session key _ store, other) e, u), rw other)
  ]

  assigned_granted :
      (rec : ChallengeRecord)
      → (here && is_success (consume_record rec request).0) ≡ true
      → IsUsed key (assign session (consume_record rec request).1 store)
  assigned_granted rec g = elim (Bool-cases here) [
    | inl same ↦ (
      (consume_record rec request).1,
      rw (find-assign session key _ store, same) refl,
      consume_record_grants rec request (rw same at g),
    )
    | inr other ↦ cc (rw other at g)
  ]

  -- A session that is used stays used, and is not granted again;
  consumes-IsUsed :
      IsUsed key store
      → let r = consume_challenge store request in
        IsUsed key r.1 × ((here && is_success r.0) ≡ false)
  consumes-IsUsed used = elim (Option-cases (find session store)) [
    | inl missing ↦ rw (consume_missing store request missing).0 (used, ground arith)
    | inr (rec, found) ↦
        rw (consume_found store request rec found).0 (assigned-IsUsed rec found used)
  ]

  -- one that is granted is used.
  consumes_granted :
      (here && is_success (consume_challenge store request).0) ≡ true
      → IsUsed key (consume_challenge store request).1
  consumes_granted g = elim (Option-cases (find session store)) [
    | inl missing ↦ ground (arith, (consume_missing store request missing).0)
    | inr (rec, found) ↦
        let e = (consume_found store request rec found).0 in rw e (assigned_granted rec (rw e at g))
  ]

pub step-IsUsed :
    (key : List ℕ) (store : ChallengeStore) (call : Call)
    → Keeps key call
    → IsUsed key store
    → IsUsed key (step store call) × (grants key store call ≡ false)
unfolding step
step-IsUsed key store (adds rec) other (old, e, u) = (
  (
    old,
    unfold add_challenge in rw (find-assign (session_key rec.session_id) key rec store, other) e,
    u,
  ),
  refl,
)
step-IsUsed key store (validates request) keeps used = (used, refl)
step-IsUsed key store (consumes request) keeps used = consumes-IsUsed key store request used
step-IsUsed key store (validates_and_consumes request) keeps used =
    rw (same_method store request) (consumes-IsUsed key store request used)
step-IsUsed key store (expires now) keeps (old, e, u) =
    ((old, rw (find-expire_challenges key now store, e) (ground arith), u), refl)
step-IsUsed key store counts keeps used = (used, refl)

pub run-IsUsed :
    (key : List ℕ) (store : ChallengeStore) (calls : List Call)
    → All (Keeps key) calls
    → IsUsed key store
    → IsUsed key (run store calls)
unfolding run
run-IsUsed key store [] keeps used = used
run-IsUsed key store (c ∷ cs) keeps used =
    run-IsUsed key (step store c) cs keeps.1 (step-IsUsed key store c keeps.0 used).0

step_granted :
    (key : List ℕ) (store : ChallengeStore) (call : Call)
    → grants key store call ≡ true
    → IsUsed key (step store call)
unfolding step
step_granted key store (adds rec) g = cc
step_granted key store (validates request) g = cc
step_granted key store (consumes request) g = consumes_granted key store request g
step_granted key store (validates_and_consumes request) g =
    let e = same_method store request in
    rw (e, step) (consumes_granted key store request (rw e at g))
step_granted key store (expires now) g = cc
step_granted key store counts g = cc

used_grants_none :
    (key : List ℕ) (store : ChallengeStore) (calls : List Call)
    → All (Keeps key) calls
    → IsUsed key store
    → grant_count key store calls ≡ 0
used_grants_none key store [] keeps used = refl
used_grants_none key store (c ∷ cs) keeps used =
    let (after, none_now) = step-IsUsed key store c keeps.0 used in
    rw (none_now, used_grants_none key (step store c) cs keeps.1 after) refl

-- However the calls of the store are interleaved, from whatever store they start, a session is
-- granted at most once as long as no new record is added for it.
pub single_use :
    (key : List ℕ) (store : ChallengeStore) (calls : List Call)
    → All (Keeps key) calls
    → grant_count key store calls ≤ 1
single_use key store [] keeps = omega arith
single_use key store (c ∷ cs) keeps = elim (Bool-cases (grants key store c)) [
  | inl now ↦
      rw (now, used_grants_none key (step store c) cs keeps.1 (step_granted key store c now))
        (omega arith)
  | inr later ↦ rw later (omega (arith, single_use key (step store c) cs keeps.1))
]
