-- ===== src/Receiver/Stability.antt =====
-- A pass of the receiving loop when more bytes stand behind the buffer.
use phonekey.Prelude.{
  ℕ, ◌+◌, ◌≤◌, ◌≡◌, ◌≢◌, refl, sym, ◌∙◌, arith, List, ◌++◌, some, length, length-append,
  drop-append_left, ltb, ltb→le, le→ltb, Bool-cases, inl, inr, ◌⊎◌, Result-cases, ◌==◌,
}
use phonekey.Prelude.Reads.{read_u32_total}
use phonekey.Frame.{FrameError, frame_magic, max_payload_size, deserialize_frame}
use phonekey.Frame.Safety.{deserialize_frame_safe}
use phonekey.Frame.Locality.{read_u32_left, deserialize_frame_left}
use phonekey.Receiver.{Round, wait, drop_connection, emit, broken, take_frame, receive_round}

-- The same pass with `more` bytes behind what it keeps.
abbrev pub extend : Round → List ℕ → Round
extend wait more = wait
extend drop_connection more = drop_connection
extend (emit event rest) more = emit event (rest ++ more)
extend broken more = broken

module _ (rx more : List ℕ) where
  longer : length (rx ++ more) ≡ length rx + length more
  longer = length-append rx more

  take_frame_stable :
      (n : ℕ)
      → 18 ≤ length rx
      → (take_frame rx n ≡ wait) ⊎ (take_frame (rx ++ more) n ≡ extend (take_frame rx n) more)
  unfolding take_frame
  take_frame_stable n h = elim (Bool-cases (ltb max_payload_size n)) [
    | inl big ↦ inr (rw (big, take_frame) refl)
    | inr fits ↦ elim (Bool-cases (ltb (length rx) (14 + n + 4))) [
      | inl short ↦ inl (rw (fits, short, take_frame) refl)
      | inr whole ↦
          let room : 14 + n + 4 ≤ length rx = ltb→le _ _ whole in
          let whole' = le→ltb (length (rx ++ more)) (14 + n + 4) (omega (arith, longer)) in
          let same = deserialize_frame_left rx more (14 + n + 4) room in
          let kept = drop-append_left (14 + n + 4) rx more room in
          elim (Result-cases (deserialize_frame (some rx) (14 + n + 4))) [
            | inl (frame, e) ↦ inr (rw (fits, whole, whole', same, e, kept, take_frame) refl)
            | inr (inl (x, e)) ↦ inr (rw (fits, whole, whole', same, e, kept, take_frame) refl)
            | inr (inr e) ↦ absurd ((deserialize_frame_safe rx (14 + n + 4) room).1 e)
          ]
    ]
  ]

  -- Bytes behind the buffer change nothing in a pass that does not wait for them.
  receive_round_stable :
      (receive_round rx ≡ wait) ⊎ (receive_round (rx ++ more) ≡ extend (receive_round rx) more)
  unfolding receive_round
  receive_round_stable = elim (Bool-cases (ltb (length rx) 18)) [
    | inl short ↦ inl (rw (short, receive_round) refl)
    | inr enough ↦
        let room : 18 ≤ length rx = ltb→le _ _ enough in
        let enough' = le→ltb (length (rx ++ more)) 18 (omega (arith, longer)) in
        let (magic, e) = read_u32_total {E = FrameError} rx 0 (omega arith) in
        let e0 = read_u32_left rx more 0 (omega arith) in
        elim (Bool-cases (magic == frame_magic)) [
          | inl right ↦
              let (n, e') = read_u32_total {E = FrameError} rx 4 (omega arith) in
              let e4 = read_u32_left rx more 4 (omega arith) in
              rw (enough, enough', e0, e, right, e4, e', receive_round) (take_frame_stable n room)
          | inr wrong ↦
              let kept = drop-append_left 1 rx more (omega arith) in
              inr (rw (enough, enough', e0, e, wrong, kept, receive_round) refl)
        ]
  ]

pub goes_on :
    (rx more : List ℕ) (r : Round)
    → receive_round rx ≡ r
    → r ≢ wait
    → receive_round (rx ++ more) ≡ extend r more
goes_on rx more r e other = elim (receive_round_stable rx more) [
  | inl waits ↦ absurd (other (sym e ∙ waits))
  | inr same ↦ rw e at same
]
