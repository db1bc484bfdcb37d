-- ===== src/Tcp/Calm.antt =====
-- Histories of a transport in which no `Close` meets a returning `accept`.
use Prim.Native.String.{String}
use phonekey.Prelude.{
  ℕ, ◌+◌, ◌≡◌, refl, sym, subst, ap, ap₂, ◌∙◌, arith, Bool, true, false, not, List, [], ◌∷◌, ◌++◌,
  Option, none, some, if◌then◌else◌, ◌&&◌,
}
use phonekey.Prelude.Counting.{one}
use phonekey.Tcp.{
  Effect, Worker, absent, accepting, receiving, ended, Transport, new_transport, Race,
  none_accepted, accepted_late, taken_late, flagged_late, shut, close_accepting, close_at, close,
  take_client, listen_on, start_listener, connect_to, connect, listener_worker, Stop, peer_gone,
  frame_too_large, not_connected, stop_receiving, Action, set_listener, do_start, do_connect,
  accept_returns, receiving_stops, send_fails, do_close, perform, live_through,
}
use phonekey.Tcp.Accounting.{holds, lost_by_close, lost_by_worker}
use phonekey.Tcp.Losses.{lost_by_accept, lost_at, lost}

abbrev pub race_count : Race → ℕ
race_count none_accepted = 0
race_count (accepted_late socket peer) = 1
race_count (taken_late socket peer) = 1
race_count (flagged_late socket peer) = 1

abbrev pub race_at : Action → ℕ
race_at (set_listener given) = 0
race_at (do_start race socket bound listens) = race_count race
race_at (do_connect race socket connected peer) = race_count race
race_at (accept_returns socket peer) = 0
race_at (receiving_stops stop) = 0
race_at send_fails = 0
race_at (do_close race) = race_count race

-- How many calls meet a returning `accept`.
abbrev pub races : List Action → ℕ
races [] = 0
races (action ∷ actions) = race_at action + races actions

-- A thread at `accept` runs and has no client, and a transport that is connected has one.
pub record Ready (t : Transport) : Type 0 where
  pub no_client : t.worker ≡ accepting → (t.client_socket ≡ none) × (t.is_running ≡ true)
  pub has_client : t.is_connected ≡ true → (s : ℕ) × (t.client_socket ≡ some s)

pub new-Ready : Ready new_transport
new-Ready = record { no_client = λ e. cc; has_client = λ e. cc }

pub race_free : (race : Race) → race_count race ≡ 0 → race ≡ none_accepted
race_free none_accepted e = refl
race_free (accepted_late socket peer) e = absurd (omega (arith, e))
race_free (taken_late socket peer) e = absurd (omega (arith, e))
race_free (flagged_late socket peer) e = absurd (omega (arith, e))

pub calm-lost_by_close : (t : Transport) → lost_by_close none_accepted t ≡ []
calm-lost_by_close t = at_worker t.worker
  where
    at_worker : (w : Worker) → lost_by_worker none_accepted w t ≡ []
    at_worker absent = refl
    at_worker accepting = refl
    at_worker receiving = refl
    at_worker ended = refl

calm_close : (t : Transport) → close none_accepted t ≡ shut t
unfolding close close_at close_accepting
calm_close t = at_worker t.worker
  where
    at_worker : (w : Worker) → close_at none_accepted w t ≡ shut t
    at_worker absent = refl
    at_worker accepting = refl
    at_worker receiving = refl
    at_worker ended = refl

pub closed_holds : (s : ℕ) (t : Transport) → holds s (close none_accepted t).0 ≡ 0
unfolding shut
closed_holds s t = ap (λ r. holds s r.0) (calm_close t)

listening-Ready :
    (socket : Option ℕ) (bound listens : Bool) (t : Transport)
    → Ready (listen_on socket bound listens (shut t).0).1
unfolding listen_on shut
listening-Ready none bound listens t = record { no_client = λ e. cc; has_client = λ e. cc }
listening-Ready (some s) false listens t = record { no_client = λ e. cc; has_client = λ e. cc }
listening-Ready (some s) true false t = record { no_client = λ e. cc; has_client = λ e. cc }
listening-Ready (some s) true true t = record {
  no_client = λ e. (refl, refl);
  has_client = λ e. cc;
}

connecting-Ready :
    (socket : Option ℕ) (connected : Bool) (peer : String) (t : Transport)
    → Ready (connect_to socket connected peer (shut t).0).1
unfolding connect_to shut
connecting-Ready none connected peer t = record { no_client = λ e. cc; has_client = λ e. cc }
connecting-Ready (some s) false peer t = record { no_client = λ e. cc; has_client = λ e. cc }
connecting-Ready (some s) true peer t = record { no_client = λ e. cc; has_client = λ e. (s, refl) }

shut-Ready : (t : Transport) → Ready (shut t).0
unfolding shut
shut-Ready t = record { no_client = λ e. cc; has_client = λ e. cc }

by_test {ℓ} :
    {A : Type 0} (P : A → Type ℓ) (b : Bool) (x y : A)
    → (b ≡ true → P x)
    → (b ≡ false → P y)
    → P (if b then x else y)
by_test P true x y hx hy = hx refl
by_test P false x y hx hy = hy refl

accepted-Ready :
    (socket : Option ℕ) (peer : String) (t : Transport)
    → t.client_socket ≡ none
    → t.is_running ≡ true
    → Ready t
    → Ready (listener_worker socket peer t).0 × (lost_by_accept socket t ≡ [])
unfolding listener_worker take_client
accepted-Ready none peer t free running ready =
    (record { no_client = λ e. cc; has_client = ready.has_client }, refl)
accepted-Ready (some s) peer t free running ready = (
  by_test {A = Transport × List Effect} (λ r. Ready r.0) (not t.is_running) _ _ (λ e. cc)
      λ e. record { no_client = λ e'. cc; has_client = λ e'. (s, refl) },
  rw running (ap one free),
)

stopped-Ready : (stop : Stop) (t : Transport) → Ready t → Ready (stop_receiving stop t).0
unfolding stop_receiving
stopped-Ready peer_gone t ready = record { no_client = λ e. cc; has_client = λ e. cc }
stopped-Ready frame_too_large t ready = record { no_client = λ e. cc; has_client = λ e. cc }
stopped-Ready not_connected t ready =
    by_test {A = Transport × List Effect} (λ r. Ready r.0) (t.is_running && t.is_connected) _ _
      (λ e. ready) λ e. record { no_client = λ e'. cc; has_client = ready.has_client }

pub calm_step :
    (action : Action) (t : Transport)
    → race_at action ≡ 0
    → Ready t
    → Ready (perform action t).0 × (lost_at action t ≡ [])
unfolding perform start_listener connect
calm_step (set_listener given) t calm ready =
    (record { no_client = ready.no_client; has_client = ready.has_client }, refl)
calm_step (do_start race socket bound listens) t calm ready =
    let free = race_free race calm in
    (
      subst (λ r. Ready (listen_on socket bound listens r.0).1)
          (sym (ap (λ x. close x t) free ∙ calm_close t)) (listening-Ready socket bound listens t),
      ap (λ x. lost_by_close x t ++ []) free ∙ ap (λ xs. xs ++ []) (calm-lost_by_close t),
    )
calm_step (do_connect race socket connected peer) t calm ready =
    let free = race_free race calm in
    let shuts = ap (λ x. close x t) free ∙ calm_close t in
    (
      subst (λ r. Ready (connect_to socket connected peer r.0).1) (sym shuts)
          (connecting-Ready socket connected peer t),
      ap₂ (λ xs ys. xs ++ ys) (ap (λ x. lost_by_close x t) free ∙ calm-lost_by_close t)
          (ap (λ r. one r.0.client_socket) shuts ∙ (unfold shut in refl)),
    )
calm_step (accept_returns socket peer) t calm ready = at_thread t.worker refl
  where
    at_thread :
        (w : Worker)
        → t.worker ≡ w
        → let r : Transport × List Effect = elim w [
          | accepting ↦ listener_worker socket peer t
          | absent ↦ (t, [])
          | receiving ↦ (t, [])
          | ended ↦ (t, [])
        ] in
          let gone : List ℕ = elim w [
            | accepting ↦ lost_by_accept socket t
            | absent ↦ []
            | receiving ↦ []
            | ended ↦ []
          ] in
          Ready r.0 × (gone ≡ [])
    at_thread accepting e =
        accepted-Ready socket peer t (ready.no_client e).0 (ready.no_client e).1 ready
    at_thread absent e = (ready, refl)
    at_thread receiving e = (ready, refl)
    at_thread ended e = (ready, refl)
calm_step (receiving_stops stop) t calm ready = at_thread t.worker
  where
    at_thread :
        (w : Worker)
        → let r : Transport × List Effect = elim w [
          | receiving ↦ stop_receiving stop t
          | absent ↦ (t, [])
          | accepting ↦ (t, [])
          | ended ↦ (t, [])
        ] in
          Ready r.0 × ◌≡◌ {A = List ℕ} [] []
    at_thread receiving = (stopped-Ready stop t ready, refl)
    at_thread absent = (ready, refl)
    at_thread accepting = (ready, refl)
    at_thread ended = (ready, refl)
calm_step send_fails t calm ready =
    (record { no_client = ready.no_client; has_client = λ e. cc }, refl)
calm_step (do_close race) t calm ready =
    let free = race_free race calm in
    (
      subst (λ r. Ready r.0) (sym (ap (λ x. close x t) free ∙ calm_close t)) (shut-Ready t),
      ap (λ x. lost_by_close x t) free ∙ calm-lost_by_close t,
    )

pub calm_history :
    (actions : List Action) (t : Transport)
    → races actions ≡ 0
    → Ready t
    → Ready (live_through actions t).0 × (lost actions t ≡ [])
unfolding live_through
calm_history [] t calm ready = (ready, refl)
calm_history (action ∷ actions) t calm ready =
    let (after, none_here) = calm_step action t (omega (arith, calm)) ready in
    let (end, none_later) = calm_history actions (perform action t).0 (omega (arith, calm)) after in
    (end, ap₂ (λ xs ys. xs ++ ys) none_here none_later)
