-- ===== src/Sender/Delivery.antt =====
-- What `SendFrame` puts on the wire, and what the receiver makes of it.
use phonekey.Prelude.{
  ==_false, Result, ℕ, zero, suc, ◌+◌, ◌≤◌, ◌<◌, ◌^◌, ◌%◌, ◌≡◌, refl, ap, arith, Bool, true, false,
  Bool-cases, inl, inr, List, [], ◌∷◌, ◌++◌, drop, take, take-append-drop, length, ltb, ltb→le,
  le→ltb, ok, ok_injective, ◌∙◌, ◌==◌, sym, not,
}
use phonekey.Frame.{TransportMessageType, FrameError, serialize_frame, max_payload_size}
use phonekey.Frame.Layout.{wire, length-wire, serialize_frame-wire}
use phonekey.Frame.RoundTrip.{received}
use phonekey.Receiver.{receive_round, emit, frame_received}
use phonekey.Receiver.Stream.{round_taken}
use phonekey.Sender.{Sender, next_frame, send_loop, send_frame}

-- The socket takes the bytes in order, and all of them if the loop succeeds.
send_loop_all :
    (bytes counts : List ℕ) → (send_loop bytes counts).0 ≡ true → (send_loop bytes counts).1 ≡ bytes
unfolding send_loop
send_loop_all [] counts e = refl
send_loop_all (b ∷ bs) [] e = cc
send_loop_all (b ∷ bs) (zero ∷ counts) e = cc
send_loop_all (b ∷ bs) (suc n ∷ counts) e =
    ap (λ xs. b ∷ (take n bs ++ xs)) (send_loop_all (drop n bs) counts e)
    ∙ ap (◌∷◌ b) (take-append-drop n bs)

-- The three ways through the code.
module _ (sender : Sender) (kind : TransportMessageType) (bytes counts : List ℕ) where
  abbrev bumped : ℕ
  bumped = (sender.sequence_counter + 1) % 2 ^ 32

  pub send_closed :
      not sender.is_connected ≡ true → send_frame sender kind bytes counts ≡ ok (false, sender, [])
  unfolding send_frame
  send_closed closed = rw (closed, send_frame) refl

  send_big :
      not sender.is_connected ≡ false
      → ltb max_payload_size (length bytes) ≡ true
      → send_frame sender kind bytes counts
        ≡ ok (false, record sender { sequence_counter = bumped }, [])
  unfolding send_frame
  send_big up big =
      let empty : serialize_frame (next_frame sender kind bytes) ≡ ok [] =
        serialize_frame-wire (next_frame sender kind bytes) ∙ rw big refl in
      rw (up, empty, send_frame) refl

  abbrev taken : Bool × List ℕ
  taken = send_loop (wire (next_frame sender kind bytes)) counts

  send_fits :
      not sender.is_connected ≡ false
      → ltb max_payload_size (length bytes) ≡ false
      → send_frame sender kind bytes counts
        ≡ ok (taken.0, record { is_connected = taken.0; sequence_counter = bumped }, taken.1)
  unfolding send_frame
  send_fits up fits =
      let frame = next_frame sender kind bytes in
      let full : serialize_frame frame ≡ ok (wire frame) =
        serialize_frame-wire frame ∙ rw fits refl in
      let some_bytes : (length (wire frame) == 0) ≡ false =
        (==_false _ _).1 (λ z. absurd (omega (arith, z, length-wire frame))) in
      rw (up, full, some_bytes, send_frame) refl

drop_past : (n : ℕ) (xs : List ℕ) → length xs ≤ n → drop n xs ≡ []
drop_past zero [] h = refl
drop_past zero (x ∷ xs) h = absurd (omega arith)
drop_past (suc n) [] h = refl
drop_past (suc n) (x ∷ xs) h = drop_past n xs (omega arith)

-- A socket that takes as much as it is given, or more, is asked once.
send_loop_whole :
    (bytes : List ℕ) (n : ℕ) → length bytes ≤ n → send_loop bytes (n ∷ []) ≡ (true, bytes)
unfolding send_loop
send_loop_whole [] n h = refl
send_loop_whole (b ∷ bs) zero h = absurd (omega arith)
send_loop_whole (b ∷ bs) (suc n) h =
    let gone = drop_past n bs (omega arith) in
    let rest : send_loop (drop n bs) [] ≡ (true, []) = rw gone refl in
    let all : take n bs ++ [] ≡ bs = ap (◌++◌ (take n bs)) (sym gone) ∙ take-append-drop n bs in
    ap (λ r. (r.0, (b ∷ take n bs) ++ r.1)) rest ∙ ap (λ xs. (true, b ∷ xs)) all

pub send_frame_whole :
    (sender : Sender) (kind : TransportMessageType) (bytes : List ℕ) (n : ℕ)
    → sender.is_connected ≡ true
    → length bytes ≤ max_payload_size
    → 18 + length bytes ≤ n
    → send_frame sender kind bytes (n ∷ [])
      ≡ ok (
        true,
        record { is_connected = true; sequence_counter = bumped sender kind bytes (n ∷ []) },
        wire (next_frame sender kind bytes),
      )
send_frame_whole sender kind bytes n up small room =
    let frame = next_frame sender kind bytes in
    send_fits sender kind bytes (n ∷ []) (rw up refl) (le→ltb _ _ small)
    ∙ ap
        (λ r. ok (
          r.0,
          record { is_connected = r.0; sequence_counter = bumped sender kind bytes (n ∷ []) },
          r.1,
        ))
        (send_loop_whole (wire frame) n (omega (arith, length-wire frame)))

refused_true :
    {s s' : Sender} {xs ys : List ℕ}
    → ◌≡◌ {A = Result FrameError (Bool × Sender × List ℕ)} (ok (false, s, xs)) (ok (true, s', ys))
    → ⊥
refused_true e = cc

-- If SendFrame returns true, the payload fits and the whole frame was sent, in however many pieces,
-- with the sequence number of the counter: whatever bytes follow, the receiver's loop takes exactly
-- this frame and goes on behind it. The connection is still up, and the counter has moved on by one,
-- modulo 2^32.
pub send_frame-received :
    (sender after : Sender) (kind : TransportMessageType) (bytes counts sent rest : List ℕ)
    → sender.sequence_counter < 2 ^ 32
    → send_frame sender kind bytes counts ≡ ok (true, after, sent)
    → (receive_round (sent ++ rest)
        ≡ emit (frame_received (received (next_frame sender kind bytes))) rest)
      × (length bytes ≤ max_payload_size)
      × (after.is_connected ≡ true)
      × (after.sequence_counter ≡ (sender.sequence_counter + 1) % 2 ^ 32)
send_frame-received sender after kind bytes counts sent rest fits e =
    elim (Bool-cases (not sender.is_connected)) [
      | inl closed ↦
          let p = send_closed sender kind bytes counts closed in absurd (refused_true (sym p ∙ e))
      | inr up ↦ elim (Bool-cases (ltb max_payload_size (length bytes))) [
        | inl big ↦
            let p = send_big sender kind bytes counts up big in absurd (refused_true (sym p ∙ e))
        | inr fitting ↦
            let whole = ok_injective (sym (send_fits sender kind bytes counts up fitting) ∙ e) in
            let done : (taken sender kind bytes counts).0 ≡ true = ap (λ r. r.0) whole in
            let is_sent : sent ≡ wire (next_frame sender kind bytes) =
              sym (ap (λ r. r.2) whole) ∙ send_loop_all _ counts done in
            let small : length bytes ≤ max_payload_size = ltb→le _ _ fitting in
            (
              rw is_sent (
                  round_taken (next_frame sender kind bytes)
                    (record { flags_byte = omega arith; sequence_fits = fits }, small) rest),
              small,
              sym (ap (λ r. r.1.is_connected) whole) ∙ done,
              sym (ap (λ r. r.1.sequence_counter) whole),
            )
      ]
    ]

-- SendFrame always returns, whatever `send` returns: it reads nothing outside its buffers, and no
-- error is left to the caller but `false`.
send_frame_total :
    (sender : Sender) (kind : TransportMessageType) (bytes counts : List ℕ)
    → (r : Bool × Sender × List ℕ) × (send_frame sender kind bytes counts ≡ ok r)
send_frame_total sender kind bytes counts = elim (Bool-cases (not sender.is_connected)) [
  | inl closed ↦ (_, send_closed sender kind bytes counts closed)
  | inr up ↦ elim (Bool-cases (ltb max_payload_size (length bytes))) [
    | inl big ↦ (_, send_big sender kind bytes counts up big)
    | inr fitting ↦ (_, send_fits sender kind bytes counts up fitting)
  ]
]
