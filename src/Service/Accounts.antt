-- ===== src/Service/Accounts.antt =====
-- Where the handles of a service are in every part of its life.
use phonekey.Prelude.{
  ℕ, ◌+◌, ◌≡◌, refl, sym, ap, ◌∙◌, arith, Bool, true, false, List, [], ◌∷◌, ◌++◌, Option,
  if◌then◌else◌,
}
use phonekey.Prelude.Counting.{occurrences, occurrences-append}
use phonekey.Tcp.{Effect, Race, Action, do_start, do_close, start_listener, perform}
use phonekey.Tcp.Accounting.{Accounts as SocketAccounts, Accounts-trans as SocketAccounts-trans}
use phonekey.Tcp.Losses.{lost_at as lost_by_action, perform-Accounts}
use phonekey.Engine.{CryptoEngine, HandleEffect, initialize}
use phonekey.Engine.Releases.{
  opened_providers, closed_providers, made_hashes, destroyed_hashes, providers, overwritten,
  parts-append, initialize-accounts, hash_payload-destroys,
}
use phonekey.Service.{
  Service, Lived, start, stop, Happening, starts, stops, transport_acts, hashes, happen, live,
}

-- The providers that one call of `Start` after another overwrites.
abbrev pub lost_at : Happening → Service → List ℕ
lost_at (starts race ecdsa rng sha socket bound listens) service =
    overwritten ecdsa rng sha service.engine
lost_at (stops race) service = []
lost_at (transport_acts action) service = []
lost_at (hashes created hashed digest) service = []

abbrev pub lost : List Happening → Service → List ℕ
lost [] service = []
lost (h ∷ hs) service = lost_at h service ++ lost hs (happen h service).0

-- The sockets that are lost where `Close` meets a thread at `accept`, and by the transport's own steps.
abbrev pub dropped_by_start : Bool → List ℕ → List ℕ
dropped_by_start true sockets = sockets
dropped_by_start false sockets = []

abbrev pub dropped_at : Happening → Service → List ℕ
dropped_at (starts race ecdsa rng sha socket bound listens) service =
    dropped_by_start (initialize ecdsa rng sha service.engine).0
      (lost_by_action (do_start race socket bound listens) service.transport)
dropped_at (stops race) service = lost_by_action (do_close race) service.transport
dropped_at (transport_acts action) service = lost_by_action action service.transport
dropped_at (hashes created hashed digest) service = []

abbrev pub dropped : List Happening → Service → List ℕ
dropped [] service = []
dropped (h ∷ hs) service = dropped_at h service ++ dropped hs (happen h service).0

-- What holds of a part of a life: where the handles and the sockets are.
pub record Accounts (before : Service) (gone sockets_gone : List ℕ) (lived : Lived) : Type 0 where
  pub providers_kept :
      (h : ℕ)
      → occurrences h (providers lived.0.engine) + occurrences h gone
        ≡ occurrences h (providers before.engine) + occurrences h (opened_providers lived.2)
  pub none_closed : closed_providers lived.2 ≡ []
  pub hashes_done : made_hashes lived.2 ≡ destroyed_hashes lived.2
  pub sockets_kept :
      (h : ℕ) → SocketAccounts h lived.1 before.transport lived.0.transport sockets_gone

-- `Start`, on either answer of `Initialize`.
module _ (race : Race) (ecdsa rng sha socket : Option ℕ) (bound listens : Bool)
    (service : Service) where
  abbrev ready : Bool × CryptoEngine × List HandleEffect
  ready = initialize ecdsa rng sha service.engine

  abbrev step : Action
  step = do_start race socket bound listens

  started-Accounts :
      (service' : Service) (sockets : List Effect) (sockets_gone : List ℕ)
      → service'.engine ≡ ready.1
      → ((h : ℕ) → SocketAccounts h sockets service.transport service'.transport sockets_gone)
      → Accounts service
          (overwritten ecdsa rng sha service.engine)
          sockets_gone
          (service', sockets, ready.2)
  started-Accounts service' sockets sockets_gone same kept_sockets =
      let (kept, none_closed, none_made, none_destroyed) =
        initialize-accounts 0 ecdsa rng sha service.engine in
      record {
        providers_kept = λ h.
            ap
              (λ e.
                occurrences h (providers e)
                + occurrences h (overwritten ecdsa rng sha service.engine))
              same
            ∙ (initialize-accounts h ecdsa rng sha service.engine).0;
        none_closed = none_closed;
        hashes_done = none_made ∙ sym none_destroyed;
        sockets_kept = kept_sockets;
      }

  start-Accounts :
      Accounts service
        (overwritten ecdsa rng sha service.engine)
        (dropped_by_start ready.0 (lost_by_action step service.transport))
        (start race ecdsa rng sha socket bound listens service).1
  unfolding start
  start-Accounts = on_answer ready.0
    where
      on_answer :
          (answer : Bool)
          → Accounts service
              (overwritten ecdsa rng sha service.engine)
              (dropped_by_start answer (lost_by_action step service.transport))
              (let (listening, transport, sockets) =
                  start_listener race socket bound listens service.transport in
                if◌then◌else◌ {A = Bool × Lived} answer
                  (
                    listening,
                    (record { engine = ready.1; transport = transport }, sockets, ready.2),
                  )
                  (false, (record service { engine = ready.1 }, [], ready.2))).1
      on_answer true =
          started-Accounts _ _ _ refl
            λ h. unfold perform in perform-Accounts h step service.transport
      on_answer false = started-Accounts _ _ _ refl λ h. omega arith

happen-Accounts :
    (happening : Happening) (service : Service)
    → Accounts service
        (lost_at happening service)
        (dropped_at happening service)
        (happen happening service)
unfolding happen stop
happen-Accounts (starts race ecdsa rng sha socket bound listens) service =
    start-Accounts race ecdsa rng sha socket bound listens service
happen-Accounts (stops race) service = record {
  providers_kept = λ h. refl;
  none_closed = refl;
  hashes_done = refl;
  sockets_kept = λ h. unfold perform in perform-Accounts h (do_close race) service.transport;
}
happen-Accounts (transport_acts action) service = record {
  providers_kept = λ h. refl;
  none_closed = refl;
  hashes_done = refl;
  sockets_kept = λ h. perform-Accounts h action service.transport;
}
happen-Accounts (hashes created hashed digest) service =
    let (done, no_open, no_close) = hash_payload-destroys created hashed digest in
    record {
      providers_kept =
          λ h. ap (λ xs. occurrences h (providers service.engine) + occurrences h xs) (sym no_open);
      none_closed = no_close;
      hashes_done = done;
      sockets_kept = λ h. omega arith;
    }

-- One part of a life behind another.
Accounts-trans :
    (before : Service) (gone gone' sockets_gone sockets_gone' : List ℕ) (first second : Lived)
    → Accounts before gone sockets_gone first
    → Accounts first.0 gone' sockets_gone' second
    → Accounts before
        (gone ++ gone')
        (sockets_gone ++ sockets_gone')
        (second.0, first.1 ++ second.1, first.2 ++ second.2)
Accounts-trans before gone gone' sockets_gone sockets_gone' first second a b =
    let (opens, closes, makes, destroys) = parts-append first.2 second.2 in
    record {
      providers_kept = λ h.
          let both =
            ap (occurrences h) opens
            ∙ occurrences-append h (opened_providers first.2) (opened_providers second.2) in
          omega
            (arith, both, a.providers_kept h, b.providers_kept h, occurrences-append h gone gone');
      none_closed =
          closes ∙ ap (λ xs. xs ++ closed_providers second.2) a.none_closed ∙ b.none_closed;
      hashes_done =
          makes
          ∙ ap (λ xs. xs ++ made_hashes second.2) a.hashes_done
          ∙ ap (◌++◌ (destroyed_hashes first.2)) b.hashes_done
          ∙ sym destroys;
      sockets_kept = λ h.
          SocketAccounts-trans h first.1 second.1 before.transport first.0.transport
            second.0.transport sockets_gone sockets_gone' (a.sockets_kept h) (b.sockets_kept h);
    }

pub live-Accounts :
    (happenings : List Happening) (service : Service)
    → Accounts service
        (lost happenings service)
        (dropped happenings service)
        (live happenings service)
unfolding live
live-Accounts [] service = record {
  providers_kept = λ h. refl;
  none_closed = refl;
  hashes_done = refl;
  sockets_kept = λ h. omega arith;
}
live-Accounts (h ∷ hs) service =
    Accounts-trans service (lost_at h service) _ (dropped_at h service) _ (happen h service) _
      (happen-Accounts h service) (live-Accounts hs (happen h service).0)
