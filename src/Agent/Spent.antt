-- ===== src/Agent/Spent.antt =====
-- What `AgentService::OnFrameReceived` does to a session that is used, and when it uses one.
use phonekey.Prelude.{
  ℕ, ◌≡◌, ◌≢◌, refl, sym, ap, ◌∙◌, subst, Bool, true, false, ◌&&◌, ◌||◌, List, [], ◌∷◌, none, some,
  All, Bool-cases, Option-cases, Result-cases, inl, inr, Result, ok, err, fault, some_injective,
  same_bytes, same_bytes_iff,
}
use phonekey.Prelude.Map.{find}
use phonekey.Protocol.{ErrorCode, success, AuthPayload, deserialize}
use phonekey.Frame.{TransportFrame}
use phonekey.Challenge.{
  ChallengeStore, Call, validates_and_consumes, consumed, session_key, run, step,
}
use phonekey.Challenge.SingleUse.{IsUsed, Keeps, run-IsUsed, step-IsUsed}
use phonekey.Signature.{Cng}
use phonekey.Agent.{
  AgentService, Sent, answer, is_unlock_resp, check_response, process_unlock_response,
  on_frame_received,
}
use phonekey.Agent.Decision.{success_authorized, verdict_ok, verdict_err, verdict_fault}

abbrev pub named_by : List ℕ → Result ErrorCode AuthPayload → Bool
named_by key (ok p) = same_bytes (session_key p.session_id) key
named_by key (err code) = false
named_by key fault = false

-- The frame's payload names the session.
abbrev pub names : List ℕ → TransportFrame → Bool
names key frame = named_by key (deserialize (some frame.payload) 108)

-- One of the messages tells the phone that the PC is unlocked.
abbrev pub is_grant : List Sent → Bool
is_grant [] = false
is_grant ((kind, bytes) ∷ more) = is_unlock_resp kind || is_grant more

grant_success : (code : ErrorCode) → is_grant (answer code ∷ []) ≡ true → code ≡ success
unfolding answer
grant_success success e = refl
grant_success _ e = cc

and_left : (a b : Bool) → (a && b) ≡ true → (a ≡ true) × (b ≡ true)
and_left true b e = (refl, e)
and_left false b e = cc

not_both : (a b : Bool) → (a ≡ true → b ≢ true) → (a && b) ≡ false
not_both true true h = absurd (h refl refl)
not_both true false h = refl
not_both false b h = refl

-- What a state of the agent says of a session, and what the messages say of it.
abbrev pub Spends : List ℕ → AgentService → TransportFrame → AgentService → List Sent → Type 0
Spends key agent frame after sents =
    (IsUsed key agent.challenge_store
      → IsUsed key after.challenge_store × ((names key frame && is_grant sents) ≡ false))
    × ((names key frame && is_grant sents) ≡ true → IsUsed key after.challenge_store)

module _ (key : List ℕ) (cng : Cng) (agent : AgentService) (between : List Call) (now : ℕ)
    (frame : TransportFrame) (keeps : All (Keeps key) between) where
  abbrev meanwhile : ChallengeStore
  meanwhile = run agent.challenge_store between

  process-IsUsed :
      (code : ErrorCode) (store : ChallengeStore)
      → process_unlock_response cng agent between now frame ≡ some (code, store)
      → IsUsed key agent.challenge_store
      → IsUsed key store
  unfolding step
  process-IsUsed code store e used =
      let still = run-IsUsed key agent.challenge_store between keeps used in
      elim (Result-cases (check_response cng agent now frame)) [
        | inl (request, checks) ↦
            let same =
              some_injective (sym (verdict_ok cng agent between now frame request checks) ∙ e) in
            subst (IsUsed key) (ap (λ r. r.1) same)
              (step-IsUsed key meanwhile (validates_and_consumes request) tt still).0
        | inr (inl (code', checks)) ↦
            let same =
              some_injective (sym (verdict_err cng agent between now frame code' checks) ∙ e) in
            subst (IsUsed key) (ap (λ r. r.1) same) still
        | inr (inr checks) ↦ let nothing = verdict_fault cng agent between now frame checks in cc
      ]

  named :
      (p : AuthPayload)
      → deserialize (some frame.payload) 108 ≡ ok p
      → names key frame ≡ true
      → session_key p.session_id ≡ key
  named p parsed e = (same_bytes_iff _ _).0 (rw parsed at e)

  process_granted :
      (store : ChallengeStore)
      → process_unlock_response cng agent between now frame ≡ some (success, store)
      → names key frame ≡ true
      → IsUsed key store
  process_granted store e is_named =
      let (p, rec, c, found, m, spent) = success_authorized cng agent between now frame store e in
      let k = named p c.parsed is_named in
      (record rec { state = consumed }, ap (λ j. find j store) (sym k) ∙ spent, refl)

  process_refused :
      (code : ErrorCode) (store : ChallengeStore)
      → process_unlock_response cng agent between now frame ≡ some (code, store)
      → names key frame ≡ true
      → IsUsed key agent.challenge_store
      → code ≢ success
  process_refused code store e is_named used granted =
      let e' = rw granted at e in
      let (p, rec, c, found, m, spent) = success_authorized cng agent between now frame store e' in
      let (old, kept, gone) = run-IsUsed key agent.challenge_store between keeps used in
      let k = named p c.parsed is_named in
      let one : rec ≡ old = cc (ap (λ j. find j meanwhile) k) in let live = m.live in cc

  answered-Spends :
      (code : ErrorCode) (store : ChallengeStore)
      → process_unlock_response cng agent between now frame ≡ some (code, store)
      → Spends key agent frame (record agent { challenge_store = store }) (answer code ∷ [])
  answered-Spends code store e = (
    (λ used. (
      process-IsUsed code store e used,
      not_both (names key frame) (is_grant (answer code ∷ [])) λ is_named granted.
          process_refused code store e is_named used (grant_success code granted),
    )),
    λ granted.
        let (is_named, is_granted) =
          and_left (names key frame) (is_grant (answer code ∷ [])) granted in
        process_granted store (e ∙ ap (λ c. some (c, store)) (grant_success code is_granted))
          is_named,
  )

  ignored-Spends : Spends key agent frame (record agent { challenge_store = meanwhile }) []
  ignored-Spends = (
    (λ used. (
      run-IsUsed key agent.challenge_store between keeps used,
      not_both (names key frame) false λ is_named granted. cc,
    )),
    λ granted. let (is_named, is_granted) = and_left (names key frame) false granted in cc,
  )

  pub frame-Spends :
      (after : AgentService) (sents : List Sent)
      → on_frame_received cng agent between now frame ≡ some (after, sents)
      → Spends key agent frame after sents
  unfolding on_frame_received
  frame-Spends after sents e = elim (Bool-cases (is_unlock_resp frame.message_type)) [
    | inl resp ↦ elim (Option-cases (process_unlock_response cng agent between now frame)) [
      | inl nothing ↦
          let stuck : on_frame_received cng agent between now frame ≡ none =
            rw (resp, nothing, on_frame_received) refl in
          cc
      | inr ((code, store), found) ↦
          let done : on_frame_received cng agent between now frame
              ≡ some (record agent { challenge_store = store }, answer code ∷ []) =
            rw (resp, found, on_frame_received) refl in
          let same = some_injective (sym done ∙ e) in
          subst (λ r. Spends key agent frame r.0 r.1) same (answered-Spends code store found)
    ]
    | inr other ↦
        let done : on_frame_received cng agent between now frame
            ≡ some (record agent { challenge_store = meanwhile }, []) =
          rw (other, on_frame_received) refl in
        subst (λ r. Spends key agent frame r.0 r.1) (some_injective (sym done ∙ e)) ignored-Spends
  ]
