-- ===== src/Receiver/Chunks.antt =====
-- The receiving loop on a stream that `recv` returns in pieces.
use phonekey.Prelude.{
  ℕ, zero, suc, ◌+◌, ◌<◌, ◌≡◌, ◌≢◌, refl, sym, ap, ◌∙◌, arith, List, [], ◌∷◌, ◌++◌, append_assoc,
  append-nil, Option-cases, Option, map, none, some, length, length-append, All, inl, inr,
}
use phonekey.Frame.{TransportFrame}
use phonekey.Receiver.{
  Event, frame_received, wait, drop_connection, emit, receive_round, drain, receiver_worker,
}
use phonekey.Frame.RoundTrip.{received}
use phonekey.Receiver.Stream.{Sendable, stream, drain-stream}
use phonekey.Receiver.Stability.{goes_on}
use phonekey.Receiver.Rounds.{Round-cases, drain_total}

-- The inner loop with fuel enough.
abbrev pub drained : List ℕ → Option (List Event × Option (List ℕ))
drained rx = drain (suc (length rx)) rx

-- Any fuel above the length of the buffer gives the same.
drain_fuel : (f g : ℕ) (rx : List ℕ) → length rx < f → length rx < g → drain f rx ≡ drain g rx
unfolding drain
drain_fuel zero g rx hf hg = absurd (omega arith)
drain_fuel (suc f) zero rx hf hg = absurd (omega arith)
drain_fuel (suc f) (suc g) rx hf hg = elim (Round-cases rx) [
  | inl e ↦ rw (e, drain) refl
  | inr (inl e) ↦ rw (e, drain) refl
  | inr (inr (event, rest, e, shorter)) ↦
      rw (e, drain_fuel f g rest (omega arith) (omega arith), drain) refl
]

-- What follows a result of the inner loop when more bytes arrive.
abbrev pub behind :
    List Event → Option (List Event × Option (List ℕ)) → Option (List Event × Option (List ℕ))
behind events none = none
behind events (some (later, end)) = some (events ++ later, end)

abbrev pub resume : List Event × Option (List ℕ) → List ℕ → Option (List Event × Option (List ℕ))
resume (events, none) more = some (events, none)
resume (events, some left) more = behind events (drained (left ++ more))

abbrev pub then_resume :
    Option (List Event × Option (List ℕ)) → List ℕ → Option (List Event × Option (List ℕ))
then_resume none more = none
then_resume (some r) more = resume r more

behind_nothing : (o : Option (List Event × Option (List ℕ))) → behind [] o ≡ o
behind_nothing none = refl
behind_nothing (some (later, end)) = refl

behind-behind :
    (xs ys : List Event) (o : Option (List Event × Option (List ℕ)))
    → behind xs (behind ys o) ≡ behind (xs ++ ys) o
behind-behind xs ys none = refl
behind-behind xs ys (some (later, end)) = rw (append_assoc xs ys later) refl

behind-resume :
    (xs : List Event) (o : Option (List Event × Option (List ℕ))) (more : List ℕ)
    → behind xs (then_resume o more) ≡ then_resume (behind xs o) more
behind-resume xs none more = refl
behind-resume xs (some (events, none)) more = refl
behind-resume xs (some (events, some left)) more = behind-behind xs events (drained (left ++ more))

drain_emit :
    (fuel : ℕ) (rx : List ℕ) (event : Event) (rest : List ℕ)
    → receive_round rx ≡ emit event rest
    → drain (suc fuel) rx ≡ behind (event ∷ []) (drain fuel rest)
unfolding drain
drain_emit fuel rx event rest goes = elim (Option-cases (drain fuel rest)) [
  | inl e ↦ rw (goes, e, drain) refl
  | inr (r, e) ↦ rw (goes, e, drain) refl
]

-- Bytes that arrive behind a buffer are worked on as if the loop had stopped in front of them.
drained-append :
    (fuel : ℕ) (rx more : List ℕ)
    → length rx < fuel
    → drained (rx ++ more) ≡ then_resume (drain fuel rx) more
unfolding drain
drained-append zero rx more h = absurd (omega arith)
drained-append (suc fuel) rx more h = elim (Round-cases rx) [
  | inl waits ↦ rw (waits, drain) (sym (behind_nothing (drained (rx ++ more))))
  | inr (inl drops) ↦ rw (goes_on rx more drop_connection drops (λ p. cc), drops, drain) refl
  | inr (inr (event, rest, goes, shorter)) ↦
      drain_emit (length (rx ++ more)) (rx ++ more) event (rest ++ more)
        (goes_on rx more (emit event rest) goes (λ p. cc))
      ∙ ap (behind (event ∷ [])) (
          drain_fuel (length (rx ++ more)) (suc (length (rest ++ more))) (rest ++ more)
            (omega (arith, length-append rx more, length-append rest more)) (omega arith)
          ∙ drained-append fuel rest more (omega arith))
      ∙ behind-resume (event ∷ []) (drain fuel rest) more
      ∙ sym (ap (λ o. then_resume o more) (drain_emit fuel rx event rest goes))
]

-- The bytes that the inner loop leaves wait for more.
drain_waits :
    (fuel : ℕ) (rx : List ℕ) (events : List Event) (left : List ℕ)
    → drain fuel rx ≡ some (events, some left)
    → receive_round left ≡ wait
unfolding drain
drain_waits zero rx events left e = cc
drain_waits (suc fuel) rx events left e = elim (Round-cases rx) [
  | inl waits ↦ let same : rx ≡ left = (let e' = rw (waits, drain) at e in cc) in rw (← same) waits
  | inr (inl drops) ↦ (let e' = rw (drops, drain) at e in cc)
  | inr (inr (event, rest, goes, shorter)) ↦
      back (drain fuel rest) (drain_waits fuel rest) event events left
        (sym (drain_emit fuel rx event rest goes) ∙ e)
]
  where
    back :
        (o : Option (List Event × Option (List ℕ)))
        → ((later : List Event) (kept : List ℕ)
            → o ≡ some (later, some kept)
            → receive_round kept ≡ wait)
        → (event : Event) (events : List Event) (left : List ℕ)
        → behind (event ∷ []) o ≡ some (events, some left)
        → receive_round left ≡ wait
    back none h event events left e = cc
    back (some (later, none)) h event events left e = cc
    back (some (later, some kept)) h event events left e =
        let same : kept ≡ left = cc in rw (← same) (h later kept refl)

abbrev pub Piece : List ℕ → Type 0
Piece chunk = chunk ≢ []

abbrev pub concat : List (List ℕ) → List ℕ
concat [] = []
concat (chunk ∷ chunks) = chunk ++ concat chunks

pub worker_kept :
    (rx : List ℕ) (b : ℕ) (bs : List ℕ) (chunks : List (List ℕ)) (events : List Event)
    (kept : List ℕ)
    → drained (rx ++ (b ∷ bs)) ≡ some (events, some kept)
    → receiver_worker rx ((b ∷ bs) ∷ chunks) ≡ behind events (receiver_worker kept chunks)
unfolding receiver_worker
worker_kept rx b bs chunks events kept e = elim (Option-cases (receiver_worker kept chunks)) [
  | inl e' ↦ rw (e, e', receiver_worker) refl
  | inr (r, e') ↦ rw (e, e', receiver_worker) refl
]

from_waiting :
    (rx : List ℕ) (chunks : List (List ℕ))
    → receive_round rx ≡ wait
    → All Piece chunks
    → receiver_worker rx chunks ≡ drained (rx ++ concat chunks)
unfolding receiver_worker drain
from_waiting rx [] waits h =
    let e : drained rx ≡ some ([], some rx) = rw (waits, drain) refl in
    sym e ∙ ap drained (sym (append-nil rx))
from_waiting rx ([] ∷ chunks) waits h = absurd (h.0 refl)
from_waiting rx ((b ∷ bs) ∷ chunks) waits h =
    let buffer = rx ++ (b ∷ bs) in
    let whole : buffer ++ concat chunks ≡ rx ++ concat ((b ∷ bs) ∷ chunks) =
      append_assoc rx (b ∷ bs) (concat chunks) in
    let all : drained (rx ++ concat ((b ∷ bs) ∷ chunks))
        ≡ then_resume (drained buffer) (concat chunks) =
      ap drained (sym whole)
      ∙ drained-append (suc (length buffer)) buffer (concat chunks) (omega arith) in
    let ((events, left), e) = drain_total (suc (length buffer)) buffer (omega arith) in
    elim (Option-cases left) [
      | inl dropped ↦
          let e2 = e ∙ ap (λ l. some (events, l)) dropped in
          let after = all ∙ ap (λ o. then_resume o (concat chunks)) e2 in
          rw (e2, receiver_worker) (sym after)
      | inr (kept, is_kept) ↦
          let e2 = e ∙ ap (λ l. some (events, l)) is_kept in
          let after = all ∙ ap (λ o. then_resume o (concat chunks)) e2 in
          let waits = drain_waits (suc (length buffer)) buffer events kept e2 in
          worker_kept rx b bs chunks events kept e2
          ∙ ap (behind events) (from_waiting kept chunks waits h.1)
          ∙ sym after
    ]

empty_waits : receive_round [] ≡ wait
unfolding receive_round
empty_waits = refl

empty_drained : (fuel : ℕ) → drain (suc fuel) [] ≡ some ([], some [])
unfolding drain receive_round
empty_drained fuel = refl

-- However `recv` cuts the stream, the receiving thread, which starts with an empty buffer, tells its
-- listener the same and keeps the same bytes as one run of the inner loop over the whole stream; no
-- chunk is empty here, since an empty one is the end of the stream.
pub receiver_worker-drained :
    (chunks : List (List ℕ))
    → All Piece chunks
    → receiver_worker [] chunks ≡ drained (concat chunks)
receiver_worker-drained chunks h = from_waiting [] chunks empty_waits h

-- Sent frames arrive in their order, each exactly once and as it was sent, and nothing else is told to
-- the listener, however `recv` cuts the bytes of the frames into chunks.
pub receiver_worker-stream :
    (frames : List TransportFrame) (chunks : List (List ℕ))
    → All Sendable frames
    → All Piece chunks
    → concat chunks ≡ stream frames []
    → receiver_worker [] chunks ≡ some (map (λ f. frame_received (received f)) frames, some [])
receiver_worker-stream frames chunks s h e =
    receiver_worker-drained chunks h
    ∙ ap drained e
    ∙ drain_fuel (suc (length (stream frames []))) (length frames + suc (length (stream frames [])))
        (stream frames []) (omega arith) (omega arith)
    ∙ drain-stream frames [] (suc (length (stream frames []))) [] (some []) s
        (empty_drained (length (stream frames [])))
    ∙ ap (λ events. some (events, some []))
        (append-nil (map (λ f. frame_received (received f)) frames))
