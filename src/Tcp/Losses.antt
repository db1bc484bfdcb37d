-- ===== src/Tcp/Losses.antt =====
-- The sockets that a history of a transport loses.
use Prim.Native.String.{String}
use phonekey.Prelude.{
  ℕ, ◌≡◌, refl, ap, arith, Bool, true, false, not, List, [], ◌∷◌, ◌++◌, Option, none, some,
  if◌then◌else◌, ◌&&◌,
}
use phonekey.Prelude.Counting.{one, occurrences}
use phonekey.Tcp.{
  Effect, opened, Worker, absent, accepting, receiving, ended, Transport, Race, none_accepted,
  accepted_late, taken_late, flagged_late, shut, close_accepting, close_at, close, take_client,
  listen_on, start_listener, connect_to, connect, listener_worker, Stop, peer_gone, frame_too_large,
  not_connected, stop_receiving, Action, set_listener, do_start, do_connect, accept_returns,
  receiving_stops, send_fails, do_close, perform, live_through,
}
use phonekey.Tcp.Accounting.{
  Accounts, Accounts-trans, told_state, told_error, lost_by_close, close-Accounts,
}

-- The sockets that are lost when `accept` returns.
abbrev pub lost_by_accept : Option ℕ → Transport → List ℕ
lost_by_accept none t = []
lost_by_accept (some socket) t = if not t.is_running then socket ∷ [] else one t.client_socket

-- The sockets that no member names any more, though they are open.
abbrev pub lost_at : Action → Transport → List ℕ
lost_at (set_listener given) t = []
lost_at (do_start race socket bound listens) t = lost_by_close race t ++ []
lost_at (do_connect race socket connected peer) t =
    lost_by_close race t ++ one (close race t).0.client_socket
lost_at (accept_returns socket peer) t = elim t.worker [
  | accepting ↦ lost_by_accept socket t
  | absent ↦ []
  | receiving ↦ []
  | ended ↦ []
]
lost_at (receiving_stops stop) t = []
lost_at send_fails t = []
lost_at (do_close race) t = lost_by_close race t

abbrev pub lost : List Action → Transport → List ℕ
lost [] t = []
lost (action ∷ actions) t = lost_at action t ++ lost actions (perform action t).0

pub close-listen_socket : (race : Race) (t : Transport) → (close race t).0.listen_socket ≡ none
unfolding close close_at close_accepting shut listener_worker take_client
close-listen_socket race t = at_worker t.worker race
  where
    at_worker : (w : Worker) (race : Race) → (close_at race w t).0.listen_socket ≡ none
    at_worker absent race = refl
    at_worker receiving race = refl
    at_worker ended race = refl
    at_worker accepting none_accepted = refl
    at_worker accepting (accepted_late socket peer) = refl
    at_worker accepting (taken_late socket peer) = refl
    at_worker accepting (flagged_late socket peer) = refl

module _ (s : ℕ) where
  listen_on-Accounts :
      (socket : Option ℕ) (bound listens : Bool) (t : Transport)
      → t.listen_socket ≡ none
      → Accounts s (listen_on socket bound listens t).2 t (listen_on socket bound listens t).1 []
  unfolding listen_on
  listen_on-Accounts none bound listens t e =
      let (a, b) = told_error s t "Failed to create listen socket" in omega (arith, a, b)
  listen_on-Accounts (some x) false listens t e =
      let (a, b) = told_error s t "Failed to bind listen socket" in omega (arith, a, b)
  listen_on-Accounts (some x) true false t e =
      let (a, b) = told_error s t "Failed to listen on socket" in omega (arith, a, b)
  listen_on-Accounts (some x) true true t e =
      let free = ap (λ o. occurrences s (one o)) e in omega (arith, free)

  connect_to-Accounts :
      (socket : Option ℕ) (connected : Bool) (peer : String) (t : Transport)
      → Accounts s
          (connect_to socket connected peer t).2
          t
          (connect_to socket connected peer t).1
          (one t.client_socket)
  unfolding connect_to
  connect_to-Accounts none connected peer t =
      let (a, b) = told_error s t "Failed to create client socket" in omega (arith, a, b)
  connect_to-Accounts (some x) false peer t =
      let (a, b) = told_error s t "Failed to connect to target host" in omega (arith, a, b)
  connect_to-Accounts (some x) true peer t =
      let (a, b) = told_state s t true peer in omega (arith, a, b)

  accepted-Accounts :
      (socket : Option ℕ) (peer : String) (t : Transport)
      → Accounts s
          (listener_worker socket peer t).1
          t
          (listener_worker socket peer t).0
          (lost_by_accept socket t)
  unfolding listener_worker take_client
  accepted-Accounts none peer t = omega arith
  accepted-Accounts (some x) peer t = on_test (not t.is_running)
    where
      on_test :
          (stopped : Bool)
          → let (after, effects) = take_client x peer t in
            let (end, all) =
              if◌then◌else◌ {A = Transport × List Effect} stopped
                (record t { worker = ended }, opened x ∷ [])
                (after, opened x ∷ effects) in
            Accounts s all t end (if stopped then x ∷ [] else one t.client_socket)
      on_test true = omega arith
      on_test false = let (a, b) = told_state s t true peer in omega (arith, a, b)

  stopped-Accounts :
      (stop : Stop) (t : Transport)
      → Accounts s (stop_receiving stop t).1 t (stop_receiving stop t).0 []
  unfolding stop_receiving
  stopped-Accounts peer_gone t =
      let (a, b) = told_state s t false "Disconnected" in omega (arith, a, b)
  stopped-Accounts frame_too_large t =
      let (a, b) =
        told_error s t
          "Stream security alert: frame payload size exceeds 64KB ceiling. Dropping connection." in
      omega (arith, a, b)
  stopped-Accounts not_connected t = on_test (t.is_running && t.is_connected)
    where
      on_test :
          (goes_on : Bool)
          → let (end, all) =
              if◌then◌else◌ {A = Transport × List Effect} goes_on
                (t, [])
                (record t { worker = ended }, []) in
            Accounts s all t end []
      on_test true = omega arith
      on_test false = omega arith

  pub perform-Accounts :
      (action : Action) (t : Transport)
      → Accounts s (perform action t).1 t (perform action t).0 (lost_at action t)
  unfolding perform start_listener connect
  perform-Accounts (set_listener given) t = omega arith
  perform-Accounts (do_start race socket bound listens) t =
      let (middle, before) = close race t in
      let opening = listen_on socket bound listens middle in
      Accounts-trans s before opening.2 t middle opening.1 (lost_by_close race t) []
        (close-Accounts s race t)
        (listen_on-Accounts socket bound listens middle (close-listen_socket race t))
  perform-Accounts (do_connect race socket connected peer) t =
      let (middle, before) = close race t in
      let opening = connect_to socket connected peer middle in
      Accounts-trans s before opening.2 t middle opening.1 (lost_by_close race t)
        (one middle.client_socket) (close-Accounts s race t)
        (connect_to-Accounts socket connected peer middle)
  perform-Accounts (accept_returns socket peer) t = at_thread t.worker
    where
      at_thread :
          (w : Worker)
          → let r : Transport × List Effect = elim w [
            | accepting ↦ listener_worker socket peer t
            | absent ↦ (t, [])
            | receiving ↦ (t, [])
            | ended ↦ (t, [])
          ] in
            Accounts s r.1 t r.0 (elim w [
              | accepting ↦ lost_by_accept socket t
              | absent ↦ []
              | receiving ↦ []
              | ended ↦ []
            ])
      at_thread accepting = accepted-Accounts socket peer t
      at_thread absent = omega arith
      at_thread receiving = omega arith
      at_thread ended = omega arith
  perform-Accounts (receiving_stops stop) t = at_thread t.worker
    where
      at_thread :
          (w : Worker)
          → let r : Transport × List Effect = elim w [
            | receiving ↦ stop_receiving stop t
            | absent ↦ (t, [])
            | accepting ↦ (t, [])
            | ended ↦ (t, [])
          ] in
            Accounts s r.1 t r.0 []
      at_thread receiving = stopped-Accounts stop t
      at_thread absent = omega arith
      at_thread accepting = omega arith
      at_thread ended = omega arith
  perform-Accounts send_fails t = omega arith
  perform-Accounts (do_close race) t = close-Accounts s race t

  pub live_through-Accounts :
      (actions : List Action) (t : Transport)
      → Accounts s (live_through actions t).1 t (live_through actions t).0 (lost actions t)
  unfolding live_through
  live_through-Accounts [] t = omega arith
  live_through-Accounts (action ∷ actions) t =
      let (middle, effects) = perform action t in
      let (end, later) = live_through actions middle in
      Accounts-trans s effects later t middle end (lost_at action t) (lost actions middle)
        (perform-Accounts action t) (live_through-Accounts actions middle)
