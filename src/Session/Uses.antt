-- ===== src/Session/Uses.antt =====
-- How often a phone is told that the PC is unlocked, over a whole connection.
use phonekey.Prelude.{
  ℕ, zero, suc, ◌≤◌, ◌≡◌, refl, sym, ap, arith, subst, Bool, true, false, ◌&&◌, List, [], ◌∷◌,
  Option, none, some, Option-cases, Bool-cases, inl, inr, All, some_injective, length,
}
use phonekey.Challenge.SingleUse.{IsUsed, Keeps, run-IsUsed}
use phonekey.Frame.{TransportFrame}
use phonekey.Signature.{Cng}
use phonekey.Receiver.{
  Event, frame_received, resynchronized, oversized, disconnected, frame_rejected,
}
use phonekey.Agent.{AgentService, Sent, on_frame_received}
use phonekey.Agent.Spent.{names, is_grant, Spends, frame-Spends}
use phonekey.Session.Once.{unlocks, Used, Once, nothing-Once, broken-Once, go_on-Once}
use phonekey.Session.{
  Session, Moment, Served, following, later, meanwhile, transmit, hear_frame, hear, hear_all,
  serve_events, serve_chunk, serve,
}

-- No call of the other threads adds a new record for the session.
abbrev pub Quiet : List ℕ → (ℕ → Moment) → Type 0
Quiet key moments =
    (n : ℕ) → All (Keeps key) (moments n).before × All (Keeps key) (moments n).between

later-Quiet :
    (key : List ℕ) (n : ℕ) (moments : ℕ → Moment) → Quiet key moments → Quiet key (later n moments)
later-Quiet key zero moments quiet = quiet
later-Quiet key (suc n) moments quiet = later-Quiet key n (following moments) λ k. quiet (suc k)

one_exchange :
    {key : List ℕ} (start : Session) (frame : TransportFrame) (agent : AgentService)
    (sents : List Sent)
    → Spends key start.agent frame agent sents
    → (end : Option Session) {sent : List ℕ}
    → ((last : Session) → end ≡ some last → last.agent ≡ agent)
    → Once key start ((frame, sents) ∷ [], sent, end)
one_exchange {key = key} start frame agent sents (stays, uses) end same =
    elim (Bool-cases (names key frame && is_grant sents)) [
      | inl granted ↦ record {
        none_if_used = λ used. let refused = (stays used).1 in cc;
        at_most_one = rw granted (omega arith);
        stays_used = λ last e used.
            subst (λ a. IsUsed key a.challenge_store) (sym (same last e)) (uses granted);
        one_uses = λ last e one.
            subst (λ a. IsUsed key a.challenge_store) (sym (same last e)) (uses granted);
      }
      | inr refused ↦ record {
        none_if_used = λ used. rw refused refl;
        at_most_one = rw refused (omega arith);
        stays_used = λ last e used.
            subst (λ a. IsUsed key a.challenge_store) (sym (same last e)) (stays used).0;
        one_uses = λ last e one. absurd (omega (arith, rw refused at one));
      }
    ]

module _ (key : List ℕ) (cng : Cng) where
  hear_frame-Once :
      (moment : Moment) (session : Session) (frame : TransportFrame)
      → All (Keeps key) moment.between
      → Once key session (hear_frame cng moment session frame)
  unfolding hear_frame
  hear_frame-Once moment session frame keeps =
      let heard = on_frame_received cng session.agent moment.between moment.now frame in
      elim (Option-cases heard) [
        | inl e ↦ rw (e, hear_frame) (broken-Once key session)
        | inr ((agent, sents), e) ↦
            let spends =
              frame-Spends key cng session.agent moment.between moment.now frame keeps agent sents
                e in
            elim (Option-cases (transmit session.sender moment.counts sents)) [
              | inl e' ↦
                  rw (e, e', hear_frame)
                    (one_exchange session frame agent sents spends none λ s p. cc)
              | inr ((sender, sent), e') ↦
                  rw (e, e', hear_frame)
                    (one_exchange session frame agent sents spends
                      (some (record { agent = agent; sender = sender }))
                      λ s p. ap (λ x. x.agent) (some_injective (sym p)))
            ]
      ]

  meanwhile-Used :
      (moment : Moment) (session : Session)
      → All (Keeps key) moment.before
      → Used key session
      → Used key (meanwhile moment session)
  meanwhile-Used moment session keeps used =
      run-IsUsed key session.agent.challenge_store moment.before keeps used

  -- What holds of the connection behind the calls of the other threads holds of it before them.
  before-Once :
      (moment : Moment) (session : Session) (served : Served)
      → All (Keeps key) moment.before
      → Once key (meanwhile moment session) served
      → Once key session served
  before-Once moment session served keeps h = record {
    none_if_used = λ used. h.none_if_used (meanwhile-Used moment session keeps used);
    at_most_one = h.at_most_one;
    stays_used = λ end e used. h.stays_used end e (meanwhile-Used moment session keeps used);
    one_uses = h.one_uses;
  }

  hear-Once :
      (moment : Moment) (session : Session) (event : Event)
      → All (Keeps key) moment.before
      → All (Keeps key) moment.between
      → Once key session (hear cng moment session event)
  unfolding hear
  hear-Once moment session (frame_received frame) before between =
      before-Once moment session _ before
        (hear_frame-Once moment (meanwhile moment session) frame between)
  hear-Once moment session resynchronized before between =
      nothing-Once key session _ (meanwhile-Used moment session before)
  hear-Once moment session oversized before between =
      nothing-Once key session _ (meanwhile-Used moment session before)
  hear-Once moment session disconnected before between =
      nothing-Once key session _ (meanwhile-Used moment session before)
  hear-Once moment session (frame_rejected e) before between =
      nothing-Once key session _ (meanwhile-Used moment session before)

  hear_all-Once :
      (moments : ℕ → Moment) (session : Session) (events : List Event)
      → Quiet key moments
      → Once key session (hear_all cng moments session events)
  unfolding hear_all
  hear_all-Once moments session [] quiet = nothing-Once key session session λ used. used
  hear_all-Once moments session (event ∷ events) quiet =
      go_on-Once key session _ _ (hear-Once (moments 0) session event (quiet 0).0 (quiet 0).1)
        λ next. hear_all-Once (following moments) next events λ n. quiet (suc n)

  module _ (moments : ℕ → Moment) (quiet : Quiet key moments) (rest : ℕ → Session → List ℕ → Served)
      (later_once : (n : ℕ) (next : Session) (left : List ℕ)
        → Once key next (rest n next left)) where
    serve_events-Once :
        (session : Session) (result : Option (List Event × Option (List ℕ)))
        → Once key session (serve_events cng moments session result rest)
    unfolding serve_events
    serve_events-Once session none = broken-Once key session
    serve_events-Once session (some (events, none)) = hear_all-Once moments session events quiet
    serve_events-Once session (some (events, some left)) =
        go_on-Once key session _ _ (hear_all-Once moments session events quiet)
          λ next. later_once (length events) next left

    serve_chunk-Once :
        (session : Session) (rx chunk : List ℕ)
        → Once key session (serve_chunk cng moments session rx chunk rest)
    unfolding serve_chunk
    serve_chunk-Once session rx [] = hear_all-Once moments session (disconnected ∷ []) quiet
    serve_chunk-Once session rx (b ∷ bs) = serve_events-Once session _

  while_connected :
      (up : Bool) (session : Session) (served : Served)
      → Once key session served
      → Once key session (elim up [ false ↦ ([], [], some session) | true ↦ served ])
  while_connected false session served h = nothing-Once key session session λ used. used
  while_connected true session served h = h

  serve-Once :
      (moments : ℕ → Moment) (session : Session) (rx : List ℕ) (chunks : List (List ℕ))
      → Quiet key moments
      → Once key session (serve cng moments session rx chunks)
  unfolding serve
  serve-Once moments session rx [] quiet = nothing-Once key session session λ used. used
  serve-Once moments session rx (chunk ∷ chunks) quiet =
      while_connected session.sender.is_connected session _ (
        serve_chunk-Once moments quiet _
          (λ n next left.
            serve-Once (later n moments) next left chunks (later-Quiet key n moments quiet))
          session rx chunk)

-- Over a whole connection, whatever bytes arrive in whatever chunks, whatever the random sources, the
-- clock, the results of send and CNG answer, and whatever other threads call on the challenge store
-- short of adding a new record for the session: at most one frame that names the session is answered
-- by UNLOCK_RESP.
pub unlocked_once :
    (key : List ℕ) (cng : Cng) (moments : ℕ → Moment) (session : Session) (rx : List ℕ)
    (chunks : List (List ℕ))
    → Quiet key moments
    → unlocks key (serve cng moments session rx chunks).0 ≤ 1
unlocked_once key cng moments session rx chunks quiet =
    (serve-Once key cng moments session rx chunks quiet).at_most_one
