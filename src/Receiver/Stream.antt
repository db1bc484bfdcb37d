-- ===== src/Receiver/Stream.antt =====
-- A stream of frames through the receiving loop.
use phonekey.Prelude.{
  ℕ, suc, ◌+◌, ◌≤◌, ◌≡◌, refl, sym, ◌∙◌, arith, List, [], ◌∷◌, ◌++◌, Option, some, length,
  length-append, drop-append, map, All, ok, ok_injective, le→ltb, ==_refl,
}
use phonekey.Prelude.Words.{be32, length-be32}
use phonekey.Prelude.Reads.{read_u32, read_u32-append}
use phonekey.Frame.{
  FrameError, TransportFrame, IsFrame, frame_magic, max_payload_size, deserialize_frame,
}
use phonekey.Frame.Layout.{wire, length-wire, serialize_frame-wire}
use phonekey.Frame.RoundTrip.{received, bytes_from_left, deserialize_frame-serialize_frame}
use phonekey.Receiver.{Event, emit, frame_received, take_frame, receive_round, drain}

-- A frame that can be sent.
abbrev pub Sendable : TransportFrame → Type 0
Sendable f = IsFrame f × (length f.payload ≤ max_payload_size)

module _ (f : TransportFrame) (s : Sendable f) (rest : List ℕ) where
  deserialized :
      deserialize_frame (some (wire f ++ rest)) (14 + length f.payload + 4) ≡ ok (received f)
  deserialized =
      let (bytes, written, back) =
        deserialize_frame-serialize_frame f rest (14 + length f.payload + 4) s.0 s.1
          (omega arith) in
      let same : bytes ≡ wire f =
        ok_injective (sym written ∙ serialize_frame-wire f ∙ rw (le→ltb _ _ s.1) refl) in
      rw same at back

  frame_taken :
      take_frame (wire f ++ rest) (length f.payload) ≡ emit (frame_received (received f)) rest
  unfolding take_frame
  frame_taken =
      let size : length (wire f) ≡ 14 + length f.payload + 4 = omega (arith, length-wire f) in
      let enough : 14 + length f.payload + 4 ≤ length (wire f ++ rest) =
        omega (arith, size, length-append {0} (wire f) rest) in
      rw
        (
          le→ltb _ _ s.1,
          le→ltb _ _ enough,
          deserialized,
          drop-append (14 + length f.payload + 4) (wire f) rest size,
          take_frame,
        )
        refl

  pub round_taken : receive_round (wire f ++ rest) ≡ emit (frame_received (received f)) rest
  unfolding receive_round
  round_taken =
      let enough : 18 ≤ length (wire f ++ rest) =
        omega (arith, length-wire f, length-append {0} (wire f) rest) in
      let magic : read_u32 {E = FrameError} (wire f ++ rest) 0 ≡ ok frame_magic =
        rw (bytes_from_left f s.0 rest) (read_u32-append [] _ 0 frame_magic refl (omega arith)) in
      let size : read_u32 {E = FrameError} (wire f ++ rest) 4 ≡ ok (length f.payload) =
        rw (bytes_from_left f s.0 rest) (
          read_u32-append (be32 frame_magic) _ 4 (length f.payload) (length-be32 frame_magic)
            (omega (arith, s.1))) in
      rw (le→ltb _ _ enough, magic, ==_refl frame_magic, size, receive_round) frame_taken

-- The frames on the wire, one after the other.
abbrev pub stream : List TransportFrame → List ℕ → List ℕ
stream [] rest = rest
stream (f ∷ fs) rest = wire f ++ stream fs rest

-- The inner loop delivers the frames of a stream in their order, each exactly once and as it was sent,
-- and then works on the bytes behind them.
pub drain-stream :
    (frames : List TransportFrame) (rest : List ℕ) (fuel : ℕ) (events : List Event)
    (left : Option (List ℕ))
    → All Sendable frames
    → drain fuel rest ≡ some (events, left)
    → drain (length frames + fuel) (stream frames rest)
      ≡ some (map (λ f. frame_received (received f)) frames ++ events, left)
unfolding drain
drain-stream [] rest fuel events left s e = let z : 0 + fuel ≡ fuel = omega arith in rw z e
drain-stream (f ∷ fs) rest fuel events left s e =
    let more : suc (length fs) + fuel ≡ suc (length fs + fuel) = omega arith in
    rw
      (more, round_taken f s.0 (stream fs rest), drain-stream fs rest fuel events left s.1 e, drain)
      refl
