-- ===== src/Challenge/Expiry.antt =====
-- `ExpireChallenges` and `GetActiveCount`.
use phonekey.Prelude.{
  ℕ, ◌+◌, ◌≤◌, ◌≡◌, refl, arith, List, [], ◌∷◌, Option, none, some, Bool-cases, inl, inr, All,
  if◌then◌else◌,
}
use phonekey.Prelude.Map.{find}
use phonekey.Challenge.{
  ChallengeStore, ChallengeRecord, outstanding, expired, expires_now, expire_challenges,
  get_active_count,
}

-- What `ExpireChallenges` does to one record.
abbrev pub mark : ℕ → ChallengeRecord → ChallengeRecord
mark now rec = if expires_now now rec then record rec { state = expired } else rec

abbrev pub mark_found : ℕ → Option ChallengeRecord → Option ChallengeRecord
mark_found now none = none
mark_found now (some rec) = some (mark now rec)

-- ExpireChallenges marks the record of every session that is outstanding and past its expiry, and
-- leaves every other record as it was: no session is lost or added.
pub find-expire_challenges :
    (key : List ℕ) (now : ℕ) (store : ChallengeStore)
    → find key (expire_challenges now store).1 ≡ mark_found now (find key store)
unfolding expire_challenges find
find-expire_challenges key now [] = refl
find-expire_challenges key now ((k, rec) ∷ store) =
    ground (arith, find-expire_challenges key now store)

-- Its count is the number of records that stop being active, and afterwards every record that is
-- still active can be used at that time.
expire_challenges-count :
    (now : ℕ) (store : ChallengeStore)
    → let (count, after) = expire_challenges now store in
      (get_active_count store ≡ count + get_active_count after)
      × All (λ e. e.1.state ≡ outstanding → now ≤ e.1.expiration_timestamp_ms) after
unfolding expire_challenges get_active_count
expire_challenges-count now [] = (refl, tt)
expire_challenges-count now ((k, rec) ∷ store) =
    let (counts, live) = expire_challenges-count now store in
    elim (Bool-cases (expires_now now rec)) [
      | inl late ↦ rw late (ground (arith, counts), ((λ p. cc), live))
      | inr kept ↦ rw kept (ground (arith, counts), ((λ p. ground arith), live))
    ]
