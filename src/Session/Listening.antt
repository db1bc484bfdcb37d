-- ===== src/Session/Listening.antt =====
-- The receiving thread with its listener, against the receiving thread alone.
use phonekey.Prelude.{
  ℕ, ◌≡◌, refl, sym, ap, ◌∙◌, subst, true, false, List, [], ◌∷◌, ◌++◌, append_assoc, Option, none,
  some, length, Option-cases, inl, inr, some_injective,
}
use std.Path.{fun_ext}
use phonekey.Signature.{Cng}
use phonekey.Receiver.{Event, receiver_worker}
use phonekey.Receiver.Chunks.{drained, behind, worker_kept}
use phonekey.Session.{
  Session, Moment, Served, following, later, hear, go_on, hear_all, serve_events, serve_chunk,
  serve,
}

-- The connection is up before and after each of the events.
abbrev pub StaysUp : Cng → (ℕ → Moment) → Session → List Event → Type 0
StaysUp cng moments session [] = session.sender.is_connected ≡ true
StaysUp cng moments session (event ∷ events) =
    (session.sender.is_connected ≡ true)
    × ((next : Session)
        → (hear cng (moments 0) session event).2 ≡ some next
        → StaysUp cng (following moments) next events)

go_on_assoc :
    (heard : Served) (f g : Session → Served)
    → go_on (go_on heard f) g ≡ go_on heard λ next. go_on (f next) g
go_on_assoc (exchanges, sent, none) f g = refl
go_on_assoc (exchanges, sent, some session) f g = behind (f session)
  where
    behind :
        (served : Served)
        → go_on
            (let (more, more_sent, end) = served in (exchanges ++ more, sent ++ more_sent, end))
            g
          ≡ (let (more, more_sent, end) = go_on served g in
              (exchanges ++ more, sent ++ more_sent, end))
    behind (more, more_sent, none) = refl
    behind (more, more_sent, some next) =
        let (last, last_sent, end) = g next in
        rw (append_assoc exchanges more last, append_assoc sent more_sent last_sent) refl

-- Two ways to go on that agree where it goes on.
go_on_same :
    (heard : Served) (f g : Session → Served)
    → ((next : Session) → heard.2 ≡ some next → f next ≡ g next)
    → go_on heard f ≡ go_on heard g
go_on_same (exchanges, sent, none) f g h = refl
go_on_same (exchanges, sent, some session) f g h =
    ap (λ served. go_on (exchanges, sent, some session) λ next. served) (h session refl)

hear_all-append :
    (cng : Cng) (moments : ℕ → Moment) (session : Session) (xs ys : List Event)
    → hear_all cng moments session (xs ++ ys)
      ≡ go_on
          (hear_all cng moments session xs)
          λ next. hear_all cng (later (length xs) moments) next ys
unfolding hear_all
hear_all-append cng moments session [] ys = refl
hear_all-append cng moments session (x ∷ xs) ys =
    ap (go_on (hear cng (moments 0) session x))
      (fun_ext λ next. hear_all-append cng (following moments) next xs ys)
    ∙ sym (go_on_assoc (hear cng (moments 0) session x) _ _)

pub StaysUp-connected :
    (cng : Cng) (moments : ℕ → Moment) (session : Session) (events : List Event)
    → StaysUp cng moments session events
    → session.sender.is_connected ≡ true
StaysUp-connected cng moments session [] up = up
StaysUp-connected cng moments session (event ∷ events) up = up.0

-- What `go_on` ends with, when the second part starts from the end of the first.
go_on_end :
    (heard : Served) (f : Session → Served) (end : Session)
    → (go_on heard f).2 ≡ some end
    → (middle : Session) × (heard.2 ≡ some middle) × ((f middle).2 ≡ some end)
go_on_end (exchanges, sent, none) f end e = cc
go_on_end (exchanges, sent, some middle) f end e = (middle, refl, e)

StaysUp-append :
    (cng : Cng) (moments : ℕ → Moment) (session : Session) (xs ys : List Event)
    → StaysUp cng moments session (xs ++ ys)
    → (next : Session) → (hear_all cng moments session xs).2 ≡ some next
    → StaysUp cng (later (length xs) moments) next ys
unfolding hear_all
StaysUp-append cng moments session [] ys up next e =
    subst (λ s. StaysUp cng moments s ys) (some_injective e) up
StaysUp-append cng moments session (x ∷ xs) ys up next e =
    let (middle, heard, rest) = go_on_end (hear cng (moments 0) session x) _ next e in
    StaysUp-append cng (following moments) middle xs ys (up.1 middle heard) next rest

-- One chunk, while the connection is up.
serve_up :
    (cng : Cng) (moments : ℕ → Moment) (session : Session) (rx chunk : List ℕ)
    (chunks : List (List ℕ))
    → session.sender.is_connected ≡ true
    → serve cng moments session rx (chunk ∷ chunks)
      ≡ serve_chunk cng moments session rx chunk
          λ heard next left. serve cng (later heard moments) next left chunks
unfolding serve
serve_up cng moments session rx chunk chunks up =
    ap
      (λ b. elim b [
        | false ↦ ([], [], some session)
        | true ↦
            serve_chunk cng moments session rx chunk
              λ heard next left. serve cng (later heard moments) next left chunks
      ])
      up

-- The three things that a pass over the buffer leaves behind.
module _ (rx : List ℕ) (b : ℕ) (bs : List ℕ) (chunks : List (List ℕ)) where
  worker_stops :
      (o : Option (List Event × Option (List ℕ)))
      → drained (rx ++ (b ∷ bs)) ≡ o
      → (events : List Event) (left : List ℕ)
      → receiver_worker rx ((b ∷ bs) ∷ chunks) ≡ some (events, some left)
      → (told : List Event) × (kept : List ℕ) × (more : List Event) × (drained (rx ++ (b ∷ bs))
          ≡ some (told, some kept))
        × (receiver_worker kept chunks ≡ some (more, some left))
        × (events ≡ told ++ more)
  unfolding receiver_worker
  worker_stops none found events left e =
      let stuck : receiver_worker rx ((b ∷ bs) ∷ chunks) ≡ none =
        rw (found, receiver_worker) refl in
      cc
  worker_stops (some (told, none)) found events left e =
      let dropped : receiver_worker rx ((b ∷ bs) ∷ chunks) ≡ some (told, none) =
        rw (found, receiver_worker) refl in
      cc (ap (λ r. r.1) (some_injective (sym dropped ∙ e)))
  worker_stops (some (told, some kept)) found events left e =
      let whole = sym (worker_kept rx b bs chunks told kept found) ∙ e in
      elim (Option-cases (receiver_worker kept chunks)) [
        | inl nothing ↦ let stuck = sym (ap (behind told) nothing) ∙ whole in cc
        | inr ((more, end), rest) ↦
            let same = some_injective (sym (ap (behind told) rest) ∙ whole) in
            (
              told,
              kept,
              more,
              found,
              rest ∙ ap (λ l. some (more, l)) (ap (λ r. r.1) same),
              sym (ap (λ r. r.0) same),
            )
      ]

-- While the connection stays up, the agent does what it does when the receiving thread tells it all
-- its events in their order.
pub serve-receiver_worker :
    (cng : Cng) (moments : ℕ → Moment) (session : Session) (rx : List ℕ) (chunks : List (List ℕ))
    (events : List Event) (left : List ℕ)
    → receiver_worker rx chunks ≡ some (events, some left)
    → StaysUp cng moments session events
    → serve cng moments session rx chunks ≡ hear_all cng moments session events
unfolding receiver_worker serve_chunk serve_events
serve-receiver_worker cng moments session rx [] events left e up =
    let none_told : ◌≡◌ {A = List Event} [] events = ap (λ r. r.0) (some_injective e) in
    unfold serve hear_all in ap (hear_all cng moments session) none_told
serve-receiver_worker cng moments session rx ([] ∷ chunks) events left e up =
    cc (ap (λ r. r.1) (some_injective e))
serve-receiver_worker cng moments session rx ((b ∷ bs) ∷ chunks) events left e up =
    let (told, kept, more, found, rest, whole) =
      worker_stops rx b bs chunks (drained (rx ++ (b ∷ bs))) refl events left e in
    let up' = subst (StaysUp cng moments session) whole up in
    serve_up cng moments session rx (b ∷ bs) chunks
      (StaysUp-connected cng moments session events up)
    ∙ (ap
        (λ o.
          serve_events cng moments session o
            λ heard next kept'. serve cng (later heard moments) next kept' chunks)
        found)
    ∙ (go_on_same (hear_all cng moments session told) _ _ λ next heard.
        serve-receiver_worker cng (later (length told) moments) next kept chunks more left rest
          (StaysUp-append cng moments session told more up' next heard))
    ∙ sym (hear_all-append cng moments session told more)
    ∙ ap (hear_all cng moments session) (sym whole)
