-- ===== src/Tcp/Accounting.antt =====
-- The sockets that a transport opens, holds, closes and loses.
use phonekey.Prelude.{
  ℕ, ◌+◌, ◌≡◌, refl, arith, Bool, true, List, [], ◌∷◌, ◌++◌, Option, none, some, Bool-cases, inl,
  inr,
}
use Prim.Native.String.{String}
use phonekey.Prelude.Counting.{one, occurrences, occurrences-append}
use phonekey.Tcp.{
  Effect, on_error, on_connection_state_changed, opened, closed, Worker, absent, accepting,
  receiving, ended, Transport, tell, close_socket, take_client, listener_worker, Race,
  none_accepted, accepted_late, taken_late, flagged_late, shut, close_accepting, close_at, close,
}

-- The sockets that the system opened, and those that were closed.
abbrev pub sockets_opened : List Effect → List ℕ
sockets_opened [] = []
sockets_opened (on_error text ∷ effects) = sockets_opened effects
sockets_opened (on_connection_state_changed up peer ∷ effects) = sockets_opened effects
sockets_opened (opened s ∷ effects) = s ∷ sockets_opened effects
sockets_opened (closed s ∷ effects) = sockets_opened effects

abbrev pub sockets_closed : List Effect → List ℕ
sockets_closed [] = []
sockets_closed (on_error text ∷ effects) = sockets_closed effects
sockets_closed (on_connection_state_changed up peer ∷ effects) = sockets_closed effects
sockets_closed (opened s ∷ effects) = sockets_closed effects
sockets_closed (closed s ∷ effects) = s ∷ sockets_closed effects

-- How often a socket was opened, and closed.
abbrev pub opens : ℕ → List Effect → ℕ
opens s effects = occurrences s (sockets_opened effects)

abbrev pub closes : ℕ → List Effect → ℕ
closes s effects = occurrences s (sockets_closed effects)

-- How often the members name it.
abbrev pub holds : ℕ → Transport → ℕ
holds s t = occurrences s (one t.listen_socket) + occurrences s (one t.client_socket)

-- The effects lead from one state to another, and lose some sockets.
abbrev pub Accounts : ℕ → List Effect → Transport → Transport → List ℕ → Type 0
Accounts s effects t after lost =
    holds s t + opens s effects ≡ closes s effects + holds s after + occurrences s lost

pub opens-append : (s : ℕ) (xs ys : List Effect) → opens s (xs ++ ys) ≡ opens s xs + opens s ys
opens-append s [] ys = omega arith
opens-append s (on_error text ∷ xs) ys = opens-append s xs ys
opens-append s (on_connection_state_changed up peer ∷ xs) ys = opens-append s xs ys
opens-append s (opened x ∷ xs) ys = omega (arith, opens-append s xs ys)
opens-append s (closed x ∷ xs) ys = opens-append s xs ys

pub closes-append : (s : ℕ) (xs ys : List Effect) → closes s (xs ++ ys) ≡ closes s xs + closes s ys
closes-append s [] ys = omega arith
closes-append s (on_error text ∷ xs) ys = closes-append s xs ys
closes-append s (on_connection_state_changed up peer ∷ xs) ys = closes-append s xs ys
closes-append s (opened x ∷ xs) ys = closes-append s xs ys
closes-append s (closed x ∷ xs) ys = omega (arith, closes-append s xs ys)

pub Accounts-trans :
    (s : ℕ) (xs ys : List Effect) (t middle after : Transport) (lost lost' : List ℕ)
    → Accounts s xs t middle lost
    → Accounts s ys middle after lost'
    → Accounts s (xs ++ ys) t after (lost ++ lost')
Accounts-trans s xs ys t middle after lost lost' a b =
    omega
      (arith, a, b, opens-append s xs ys, closes-append s xs ys, occurrences-append s lost lost')

-- A socket that a peer got after `Close` cleared `m_isRunning` is lost.
abbrev late_socket : Race → List ℕ
late_socket none_accepted = []
late_socket (accepted_late socket peer) = socket ∷ []
late_socket (taken_late socket peer) = []
late_socket (flagged_late socket peer) = []

-- The client that another one takes the place of.
abbrev overwritten : Race → Transport → List ℕ
overwritten none_accepted t = []
overwritten (accepted_late socket peer) t = []
overwritten (taken_late socket peer) t = []
overwritten (flagged_late socket peer) t = one t.client_socket

abbrev pub lost_by_worker : Race → Worker → Transport → List ℕ
lost_by_worker race accepting t = late_socket race ++ overwritten race t
lost_by_worker race absent t = []
lost_by_worker race receiving t = []
lost_by_worker race ended t = []

abbrev pub lost_by_close : Race → Transport → List ℕ
lost_by_close race t = lost_by_worker race t.worker t

module _ (s : ℕ) where
  pub told_state :
      (t : Transport) (up : Bool) (peer : String)
      → (opens s (tell t (on_connection_state_changed up peer)) ≡ 0)
        × (closes s (tell t (on_connection_state_changed up peer)) ≡ 0)
  unfolding tell
  told_state t up peer = elim (Bool-cases t.has_listener) [
    | inl is ↦ rw is (refl, refl)
    | inr isnt ↦ rw isnt (refl, refl)
  ]

  pub told_error :
      (t : Transport) (text : String)
      → (opens s (tell t (on_error text)) ≡ 0) × (closes s (tell t (on_error text)) ≡ 0)
  unfolding tell
  told_error t text = elim (Bool-cases t.has_listener) [
    | inl is ↦ rw is (refl, refl)
    | inr isnt ↦ rw isnt (refl, refl)
  ]

  closed_socket :
      (o : Option ℕ)
      → (opens s (close_socket o) ≡ 0) × (closes s (close_socket o) ≡ occurrences s (one o))
  unfolding close_socket
  closed_socket none = (refl, refl)
  closed_socket (some socket) = (refl, refl)

  -- What `shut` closes.
  closed_both :
      (l c : Option ℕ)
      → (opens s (close_socket l ++ close_socket c) ≡ 0)
        × (closes s (close_socket l ++ close_socket c)
            ≡ occurrences s (one l) + occurrences s (one c))
  closed_both l c =
      let (a, b) = closed_socket l in
      let (d, e) = closed_socket c in
      (
        omega (arith, a, d, opens-append s (close_socket l) (close_socket c)),
        omega (arith, b, e, closes-append s (close_socket l) (close_socket c)),
      )

  -- Beside a thread at `accept`.
  close_accepting-Accounts :
      (race : Race) (t : Transport)
      → Accounts s
          (close_accepting race t).1
          t
          (close_accepting race t).0
          (late_socket race ++ overwritten race t)
  unfolding close_accepting shut listener_worker take_client
  close_accepting-Accounts none_accepted t =
      let (a, b) = closed_both t.listen_socket t.client_socket in omega (arith, a, b)
  close_accepting-Accounts (accepted_late socket peer) t =
      let (a, b) = closed_both t.listen_socket t.client_socket in
      let both = close_socket t.listen_socket ++ close_socket t.client_socket in
      omega (
        arith,
        a,
        b,
        opens-append s both (opened socket ∷ []),
        closes-append s both (opened socket ∷ []),
      )
  close_accepting-Accounts (taken_late socket peer) t =
      let (a, b) = closed_both t.listen_socket t.client_socket in
      let both = close_socket t.listen_socket ++ close_socket t.client_socket in
      let (c, d) = told_state (shut t).0 true peer in
      omega (
        arith,
        a,
        b,
        c,
        d,
        opens-append s both (tell (shut t).0 (on_connection_state_changed true peer)),
        closes-append s both (tell (shut t).0 (on_connection_state_changed true peer)),
      )
  close_accepting-Accounts (flagged_late socket peer) t =
      let (a, b) = closed_both t.listen_socket (some socket) in
      let both = close_socket t.listen_socket ++ close_socket (some socket) in
      let (c, d) = told_state t true peer in
      omega (
        arith,
        a,
        b,
        c,
        d,
        opens-append s both (tell t (on_connection_state_changed true peer)),
        closes-append s both (tell t (on_connection_state_changed true peer)),
      )

  shut-Accounts : (t : Transport) → Accounts s (shut t).1 t (shut t).0 []
  unfolding shut
  shut-Accounts t = let (a, b) = closed_both t.listen_socket t.client_socket in omega (arith, a, b)

  pub close-Accounts :
      (race : Race) (t : Transport)
      → Accounts s (close race t).1 t (close race t).0 (lost_by_close race t)
  unfolding close close_at
  close-Accounts race t = by_worker t.worker
    where
      by_worker :
          (w : Worker)
          → Accounts s (close_at race w t).1 t (close_at race w t).0 (lost_by_worker race w t)
      by_worker accepting = close_accepting-Accounts race t
      by_worker absent = shut-Accounts t
      by_worker receiving = shut-Accounts t
      by_worker ended = shut-Accounts t
