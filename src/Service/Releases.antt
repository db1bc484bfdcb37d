-- ===== src/Service/Releases.antt =====
-- What a service leaves open behind its destructor.
use phonekey.Prelude.{
  ℕ, ◌+◌, ◌≤◌, ◌≡◌, refl, sym, ap, ap₂, subst, ◌∙◌, arith, Bool, true, false, if◌then◌else◌, List,
  [], ◌∷◌, ◌++◌, append-nil, Option, none, some,
}
use phonekey.Prelude.Counting.{occurrences, occurrences-append}
use phonekey.Tcp.{Effect, Race, none_accepted, do_start, do_close, close, start_listener, perform}
use phonekey.Tcp.Accounting.{
  opens, closes, opens-append, closes-append, lost_by_close, close-Accounts,
}
use phonekey.Tcp.Losses.{lost_at}
use phonekey.Tcp.Calm.{
  race_count, race_at, race_free, Ready, calm_step, calm-lost_by_close, closed_holds,
}
use phonekey.Engine.{
  CryptoEngine, HandleEffect, new_engine, initialize, destroy_engine, close_provider,
}
use phonekey.Engine.Releases.{
  opened_providers, closed_providers, made_hashes, destroyed_hashes, overwritten, parts-append,
  closed_providers-destroy_engine,
}
use phonekey.Service.Accounts.{lost, dropped_by_start, dropped_at, dropped, Accounts, live-Accounts}
use phonekey.Service.{
  Service, Lived, new_service, start, stop, destroy_service, Happening, starts, stops,
  transport_acts, hashes, happen, live,
}

abbrev is_start : Happening → ℕ
is_start (starts race ecdsa rng sha socket bound listens) = 1
is_start (stops race) = 0
is_start (transport_acts action) = 0
is_start (hashes created hashed digest) = 0

abbrev pub start_count : List Happening → ℕ
start_count [] = 0
start_count (h ∷ hs) = is_start h + start_count hs

no_starts :
    (happenings : List Happening) (service : Service)
    → start_count happenings ≡ 0
    → lost happenings service ≡ []
no_starts [] service e = refl
no_starts (starts race ecdsa rng sha socket bound listens ∷ hs) service e =
    absurd (omega (arith, e))
no_starts (stops race ∷ hs) service e = no_starts hs _ (omega (arith, e))
no_starts (transport_acts action ∷ hs) service e = no_starts hs _ (omega (arith, e))
no_starts (hashes created hashed digest ∷ hs) service e = no_starts hs _ (omega (arith, e))

fresh_loses_none :
    (ecdsa rng sha : Option ℕ) (engine : CryptoEngine)
    → engine ≡ new_engine
    → overwritten ecdsa rng sha engine ≡ []
fresh_loses_none none rng sha engine e = refl
fresh_loses_none (some a) none sha engine e = ap (overwritten (some a) none sha) e
fresh_loses_none (some a) (some b) none engine e = ap (overwritten (some a) (some b) none) e
fresh_loses_none (some a) (some b) (some c) engine e = ap (overwritten (some a) (some b) (some c)) e

one_start :
    (happenings : List Happening) (service : Service)
    → service.engine ≡ new_engine
    → start_count happenings ≤ 1
    → lost happenings service ≡ []
unfolding happen stop
one_start [] service fresh few = refl
one_start (starts race ecdsa rng sha socket bound listens ∷ hs) service fresh few =
    ap₂ (λ xs ys. xs ++ ys) (fresh_loses_none ecdsa rng sha service.engine fresh)
      (no_starts hs _ (omega (arith, few)))
one_start (stops race ∷ hs) service fresh few = one_start hs _ fresh (omega (arith, few))
one_start (transport_acts action ∷ hs) service fresh few = one_start hs _ fresh (omega (arith, few))
one_start (hashes created hashed digest ∷ hs) service fresh few =
    one_start hs _ fresh (omega (arith, few))

last_handles :
    (engine : CryptoEngine)
    → (opened_providers (destroy_engine engine) ≡ [])
      × (made_hashes (destroy_engine engine) ≡ [])
      × (destroyed_hashes (destroy_engine engine) ≡ [])
unfolding destroy_engine close_provider
last_handles engine = of_members engine.ecdsa_alg engine.rng_alg engine.sha256_alg
  where
    of_members :
        (a b c : Option ℕ)
        → let all = close_provider a ++ (close_provider b ++ close_provider c) in
          (opened_providers all ≡ []) × (made_hashes all ≡ []) × (destroyed_hashes all ≡ [])
    of_members none none none = (refl, refl, refl)
    of_members none none (some z) = (refl, refl, refl)
    of_members none (some y) none = (refl, refl, refl)
    of_members none (some y) (some z) = (refl, refl, refl)
    of_members (some x) none none = (refl, refl, refl)
    of_members (some x) none (some z) = (refl, refl, refl)
    of_members (some x) (some y) none = (refl, refl, refl)
    of_members (some x) (some y) (some z) = (refl, refl, refl)

-- How many calls of `Close` meet a returning `accept`.
abbrev race_in : Happening → ℕ
race_in (starts race ecdsa rng sha socket bound listens) = race_count race
race_in (stops race) = race_count race
race_in (transport_acts action) = race_at action
race_in (hashes created hashed digest) = 0

abbrev pub race_total : List Happening → ℕ
race_total [] = 0
race_total (h ∷ hs) = race_in h + race_total hs

calm_happening :
    (happening : Happening) (service : Service)
    → race_in happening ≡ 0
    → Ready service.transport
    → Ready (happen happening service).0.transport × (dropped_at happening service ≡ [])
unfolding happen start stop
calm_happening (starts race ecdsa rng sha socket bound listens) service calm ready =
    on_answer (initialize ecdsa rng sha service.engine).0
  where
    engine : CryptoEngine
    engine = (initialize ecdsa rng sha service.engine).1

    handles : List HandleEffect
    handles = (initialize ecdsa rng sha service.engine).2

    step :
        Ready (perform (do_start race socket bound listens) service.transport).0
        × (lost_at (do_start race socket bound listens) service.transport ≡ [])
    step = calm_step (do_start race socket bound listens) service.transport calm ready

    on_answer :
        (answer : Bool)
        → Ready
            (let (listening, transport, sockets) =
                start_listener race socket bound listens service.transport in
              if◌then◌else◌ {A = Bool × Lived} answer
                (listening, (record { engine = engine; transport = transport }, sockets, handles))
                (false, (record service { engine = engine }, [], handles))).1.0.transport
          × (dropped_by_start answer
                (lost_at (do_start race socket bound listens) service.transport)
              ≡ [])
    on_answer true = (unfold perform in step.0, step.1)
    on_answer false = (ready, refl)
calm_happening (stops race) service calm ready =
    let (after, none_lost) = calm_step (do_close race) service.transport calm ready in
    (unfold perform in after, none_lost)
calm_happening (transport_acts action) service calm ready =
    calm_step action service.transport calm ready
calm_happening (hashes created hashed digest) service calm ready = (ready, refl)

pub calm_life :
    (happenings : List Happening) (service : Service)
    → race_total happenings ≡ 0
    → Ready service.transport
    → dropped happenings service ≡ []
calm_life [] service calm ready = refl
calm_life (h ∷ hs) service calm ready =
    let (after, none_here) = calm_happening h service (omega (arith, calm)) ready in
    ap₂ (λ xs ys. xs ++ ys) none_here
      (calm_life hs (happen h service).0 (omega (arith, calm)) after)

-- Over the whole life of the agent, from its constructor through any calls of Start and Stop, any
-- steps of the transport and any hashes to its destructor, whatever the system calls return and
-- however Close meets a thread that stands at accept: every algorithm provider is closed exactly as
-- often as it was opened, except for those that a further call of Start overwrites, and there are none
-- of these if Start is called at most once; every hash object is destroyed; and every socket is closed
-- exactly as often as it was opened, except for those that are dropped where a Close meets a returning
-- accept, and there are none of these if no Close does.
pub service_releases :
    (happenings : List Happening) (end : Service) (sockets : List Effect)
    (handles : List HandleEffect) (race : Race)
    → live happenings new_service ≡ (end, sockets, handles)
    → let (last_sockets, last) = destroy_service race end in
      let gone = dropped happenings new_service ++ lost_by_close race end.transport in
      ((h : ℕ)
        → occurrences h (opened_providers (handles ++ last))
          ≡ occurrences h (closed_providers (handles ++ last))
            + occurrences h (lost happenings new_service))
      × (start_count happenings ≤ 1 → lost happenings new_service ≡ [])
      × (made_hashes (handles ++ last) ≡ destroyed_hashes (handles ++ last))
      × ((s : ℕ)
          → opens s (sockets ++ last_sockets)
            ≡ closes s (sockets ++ last_sockets) + occurrences s gone)
      × (race_total happenings + race_count race ≡ 0 → gone ≡ [])
unfolding destroy_service stop
service_releases happenings end sockets handles race e =
    let a =
      subst (Accounts new_service (lost happenings new_service) (dropped happenings new_service)) e
        (live-Accounts happenings new_service) in
    let (opened, closed, makes, destroys) = parts-append handles (destroy_engine end.engine) in
    let (no_open, no_made, no_destroyed) = last_handles end.engine in
    (
      (λ h.
          let o =
            ap (occurrences h)
              (opened ∙ ap (◌++◌ (opened_providers handles)) no_open ∙ append-nil _) in
          let c = ap (occurrences h) (
            closed
            ∙ ap (λ xs. xs ++ closed_providers (destroy_engine end.engine)) a.none_closed
            ∙ closed_providers-destroy_engine end.engine) in
          omega (arith, o, c, a.providers_kept h)),
      one_start happenings new_service refl,
      makes ∙ ap₂ (λ xs ys. xs ++ ys) a.hashes_done (no_made ∙ sym no_destroyed) ∙ sym destroys,
      (λ s.
          let (stopped, first) = close race end.transport in
          let (shut_down, second) = close none_accepted stopped in
          omega (
            arith,
            a.sockets_kept s,
            close-Accounts s race end.transport,
            close-Accounts s none_accepted stopped,
            ap (occurrences s) (calm-lost_by_close stopped),
            closed_holds s stopped,
            opens-append s sockets (first ++ second),
            closes-append s sockets (first ++ second),
            opens-append s first second,
            closes-append s first second,
            occurrences-append s (dropped happenings new_service)
                (lost_by_close race end.transport),
          )),
      λ calm.
          ap₂ (λ xs ys. xs ++ ys) (calm_life happenings new_service (omega (arith, calm)) new_Ready)
            (ap (λ r. lost_by_close r end.transport) (race_free race (omega (arith, calm)))
              ∙ calm-lost_by_close end.transport),
    )
  where
    new_Ready : Ready new_service.transport
    new_Ready = record { no_client = λ e. cc; has_client = λ e. cc }
