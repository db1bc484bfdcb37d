-- ===== src/Agent/Replay.antt =====
-- An answer of the phone unlocks once.
use phonekey.Prelude.{
  ℕ, ◌≡◌, ◌≢◌, refl, sym, ap, ◌∙◌, subst, List, some, All, ok, ok_injective, some_injective,
}
use phonekey.Prelude.Map.{find}
use phonekey.Protocol.{success, AuthPayload, deserialize}
use phonekey.Frame.{TransportFrame}
use phonekey.Challenge.{ChallengeStore, Call, run, session_key}
use phonekey.Challenge.Verdict.{validate_challenge_iff}
use phonekey.Challenge.SingleUse.{Keeps, run-IsUsed}
use phonekey.Signature.{Cng}
use phonekey.Agent.{AgentService, store_request, process_unlock_response}
use phonekey.Agent.Decision.{success_authorized}

-- After a frame was granted, no frame that names the same session is granted: not the same one
-- again, and no other, at any later time and after any calls of the store that add no new record
-- for the session.
pub replay_refused :
    (cng : Cng) (agent : AgentService) (between calls between' : List Call) (now now' : ℕ)
    (frame frame' : TransportFrame) (p p' : AuthPayload) (after after' : ChallengeStore)
    → process_unlock_response cng agent between now frame ≡ some (success, after)
    → deserialize (some frame.payload) 108 ≡ ok p
    → deserialize (some frame'.payload) 108 ≡ ok p'
    → p'.session_id ≡ p.session_id
    → All (Keeps (session_key p.session_id)) calls
    → process_unlock_response cng
        (record agent { challenge_store = run after calls })
        between'
        now'
        frame'
      ≢ some (success, after')
replay_refused cng agent between calls between' now now' frame frame' p p' after after' first parsed
      parsed' same keeps again =
    let (q, rec, c, found, m, spent) = success_authorized cng agent between now frame after first in
    let later : AgentService = record agent { challenge_store = run after calls } in
    let (q', rec', c', found', m', spent') =
      success_authorized cng later between' now' frame' after' again in
    let is_p : q ≡ p = ok_injective (sym c.parsed ∙ parsed) in
    let is_p' : q' ≡ p' = ok_injective (sym c'.parsed ∙ parsed') in
    let key : session_key q'.session_id ≡ session_key q.session_id =
      ap (λ x. session_key x)
        (ap (λ x. x.session_id) is_p' ∙ same ∙ sym (ap (λ x. x.session_id) is_p)) in
    let keeps' : All (Keeps (session_key q.session_id)) calls =
      subst (λ x. All (Keeps (session_key x.session_id)) calls) (sym is_p) keeps in
    let (old, kept, used) =
      run-IsUsed (session_key q.session_id) after calls keeps' (_, spent, refl) in
    let (live, found_live, matches) =
      (validate_challenge_iff (run after calls) (store_request later q' now')).0 c'.valid in
    let outstanding_now = matches.live in
    let one : old ≡ live =
      some_injective (sym kept ∙ sym (ap (λ k. find k (run after calls)) key) ∙ found_live) in
    cc
