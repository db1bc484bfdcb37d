-- ===== src/Examples/Store.antt =====
-- Examples for the challenge store.
use phonekey.Prelude.{◌≤◌, ◌≡◌, ◌↔◌, List, [], ◌∷◌, some}
use phonekey.Prelude.Map.{find}
use phonekey.Protocol.{success}
use phonekey.Challenge.{
  adds, run, ChallengeStore, ChallengeRecord, Call, validates, consumes, validates_and_consumes,
  expires, counts, session_key, validate_challenge,
}
use phonekey.Challenge.Verdict.{Matches, validate_challenge_iff}
use phonekey.Challenge.SingleUse.{grant_count, single_use}
use phonekey.Challenge.Histories.{view_of, view_run, replies, view_replies, store_refines}
use phonekey.Examples.{session, issued, request_at}

abbrev one_challenge : ChallengeStore
one_challenge = (session_key session, issued) ∷ []

abbrev calls : List Call
calls =
    validates (request_at 1500)
    ∷ validates_and_consumes (request_at 2000)
    ∷ consumes (request_at 2000)
    ∷ expires 99999
    ∷ counts
    ∷ []

single_use_example : grant_count (session_key session) one_challenge calls ≤ 1
single_use_example =
    single_use (session_key session) one_challenge calls (tt, (tt, (tt, (tt, (tt, tt)))))

validate_challenge_iff_example :
    ((validate_challenge one_challenge (request_at 1500)).0 ≡ success) ↔ (
      (rec : ChallengeRecord) × (find (session_key session) one_challenge ≡ some rec)
      × Matches rec (request_at 1500))
validate_challenge_iff_example = validate_challenge_iff one_challenge (request_at 1500)

-- A request is checked, granted, refused, and refused again behind an expiry.
abbrev day : List Call
day =
    adds issued
    ∷ validates (request_at 2000)
    ∷ consumes (request_at 2000)
    ∷ validates_and_consumes (request_at 2000)
    ∷ expires 90000
    ∷ consumes (request_at 90000)
    ∷ []

store_refines_example :
    (view_of (run [] day) ≡ view_run (view_of []) day)
    × (replies [] day ≡ view_replies (view_of []) day)
store_refines_example = store_refines [] day
