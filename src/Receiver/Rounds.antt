-- ===== src/Receiver/Rounds.antt =====
-- The passes of the receiving loop: each shortens the buffer, and none reads outside it.
use phonekey.Prelude.{
  ℕ, zero, suc, ◌+◌, ◌≤◌, ◌<◌, ◌≡◌, refl, ap, ◌∙◌, arith, List, [], ◌∷◌, ◌++◌, Option-cases, Option,
  none, some, length, length-drop, drop, ltb, ltb→le, Bool-cases, inl, inr, ◌⊎◌, Result-cases, ◌==◌,
}
use phonekey.Prelude.Reads.{read_u32_total}
use phonekey.Frame.{FrameError, frame_magic, max_payload_size, deserialize_frame}
use phonekey.Frame.Safety.{deserialize_frame_safe}
use phonekey.Receiver.{
  Event, Round, wait, drop_connection, emit, broken, oversized, disconnected, take_frame,
  receive_round, drain, receiver_worker,
}

-- A pass that goes on leaves a shorter buffer, and no pass is broken.
abbrev pub Shortens : List ℕ → Round → Type 0
Shortens rx wait = Unit {0}
Shortens rx drop_connection = Unit {0}
Shortens rx (emit event rest) = length rest < length rx
Shortens rx broken = ⊥

take_frame-Shortens : (rx : List ℕ) (n : ℕ) → 18 ≤ length rx → Shortens rx (take_frame rx n)
unfolding take_frame
take_frame-Shortens rx n h = elim (Bool-cases (ltb max_payload_size n)) [
  | inl big ↦ rw (big, take_frame) tt
  | inr fits ↦ elim (Bool-cases (ltb (length rx) (14 + n + 4))) [
    | inl short ↦ rw (fits, short, take_frame) tt
    | inr whole ↦
        let room : 14 + n + 4 ≤ length rx = ltb→le _ _ whole in
        let shorter : length (drop (14 + n + 4) rx) < length rx =
          omega (arith, length-drop (14 + n + 4) rx) in
        elim (Result-cases (deserialize_frame (some rx) (14 + n + 4))) [
          | inl (frame, e) ↦ rw (fits, whole, e, take_frame) shorter
          | inr (inl (x, e)) ↦ rw (fits, whole, e, take_frame) shorter
          | inr (inr e) ↦ absurd ((deserialize_frame_safe rx (14 + n + 4) room).1 e)
        ]
  ]
]

receive_round-Shortens : (rx : List ℕ) → Shortens rx (receive_round rx)
unfolding receive_round
receive_round-Shortens rx = elim (Bool-cases (ltb (length rx) 18)) [
  | inl short ↦ rw (short, receive_round) tt
  | inr enough ↦
      let room : 18 ≤ length rx = ltb→le _ _ enough in
      let (magic, e) = read_u32_total {E = FrameError} rx 0 (omega arith) in
      elim (Bool-cases (magic == frame_magic)) [
        | inl right ↦
            let (n, e') = read_u32_total {E = FrameError} rx 4 (omega arith) in
            rw (enough, e, right, e', receive_round) (take_frame-Shortens rx n room)
        | inr wrong ↦ rw (enough, e, wrong, receive_round) (omega (arith, length-drop 1 rx))
      ]
]

pub Round-cases :
    (rx : List ℕ)
    → (receive_round rx ≡ wait)
      ⊎ ((receive_round rx ≡ drop_connection)
          ⊎ ((event : Event) × (rest : List ℕ) × (receive_round rx ≡ emit event rest)
              × (length rest < length rx)))
Round-cases rx = split (receive_round rx) (receive_round-Shortens rx)
  where
    split :
        (r : Round)
        → Shortens rx r
        → (r ≡ wait)
          ⊎ ((r ≡ drop_connection)
              ⊎ ((event : Event) × (rest : List ℕ) × (r ≡ emit event rest)
                  × (length rest < length rx)))
    split wait h = inl refl
    split drop_connection h = inr (inl refl)
    split (emit event rest) h = inr (inr (event, rest, refl, h))
    split broken h = absurd h

-- The inner loop always ends, without a read outside the buffer.
pub drain_total :
    (fuel : ℕ) (rx : List ℕ)
    → length rx < fuel
    → (r : List Event × Option (List ℕ)) × (drain fuel rx ≡ some r)
unfolding drain
drain_total zero rx h = absurd (omega arith)
drain_total (suc fuel) rx h = elim (Round-cases rx) [
  | inl e ↦ (([], some rx), rw (e, drain) refl)
  | inr (inl e) ↦ ((oversized ∷ [], none), rw (e, drain) refl)
  | inr (inr (event, rest, e, shorter)) ↦
      let (r, ends) = drain_total fuel rest (omega arith) in
      ((event ∷ r.0, r.1), rw (e, ends, drain) refl)
]

-- Whatever the peer sends, and however the stream is cut into chunks, the receiving thread comes to
-- an end of its loop over each buffer, without a read outside the buffer.
pub receiver_worker_total :
    (rx : List ℕ) (chunks : List (List ℕ))
    → (r : List Event × Option (List ℕ)) × (receiver_worker rx chunks ≡ some r)
unfolding receiver_worker
receiver_worker_total rx [] = (([], some rx), refl)
receiver_worker_total rx ([] ∷ chunks) = ((disconnected ∷ [], none), refl)
receiver_worker_total rx ((b ∷ bs) ∷ chunks) =
    let buffer = rx ++ (b ∷ bs) in
    let ((events, left), e) = drain_total (suc (length buffer)) buffer (omega arith) in
    elim (Option-cases left) [
      | inl dropped ↦ (
        (events, none),
        let e2 = e ∙ ap (λ l. some (events, l)) dropped in rw (e2, receiver_worker) refl,
      )
      | inr (kept, is_kept) ↦
          let ((later, end), e') = receiver_worker_total kept chunks in
          (
            (events ++ later, end),
            let e2 = e ∙ ap (λ l. some (events, l)) is_kept in rw (e2, e', receiver_worker) refl,
          )
    ]
