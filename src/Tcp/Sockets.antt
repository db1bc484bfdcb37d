-- ===== src/Tcp/Sockets.antt =====
-- The sockets of a transport over its whole life.
use phonekey.Prelude.{ℕ, ◌+◌, ◌≡◌, subst, ap, arith, true, List, [], ◌++◌, some}
use phonekey.Prelude.Counting.{occurrences}
use phonekey.Tcp.{Effect, Transport, new_transport, none_accepted, close, Action, live_through}
use phonekey.Tcp.Accounting.{opens, closes, holds, opens-append, closes-append, close-Accounts}
use phonekey.Tcp.Losses.{lost, live_through-Accounts}
use phonekey.Tcp.Calm.{races, Ready, new-Ready, calm-lost_by_close, closed_holds, calm_history}

-- In every history of a transport, whatever the system calls return and however Close meets a thread
-- that stands at accept: every socket was opened exactly as often as it was closed, is named by the
-- members, or is one of those that the history loses; and Close, where it meets no returning accept,
-- closes all that are named. Where no Close meets a returning accept, a history loses none, and
-- whenever IsConnected is true there is a client socket.
pub sockets_accounted :
    (actions : List Action) (end : Transport) (effects : List Effect)
    → live_through actions new_transport ≡ (end, effects)
    → ((s : ℕ)
        → (opens s effects
            ≡ closes s effects + holds s end + occurrences s (lost actions new_transport))
          × (opens s (effects ++ (close none_accepted end).1)
              ≡ closes s (effects ++ (close none_accepted end).1)
                + occurrences s (lost actions new_transport)))
      × (races actions ≡ 0
          → (lost actions new_transport ≡ [])
            × (end.is_connected ≡ true → (s : ℕ) × (end.client_socket ≡ some s)))
sockets_accounted actions end effects e = (
  λ s.
      let whole = live_through-Accounts s actions new_transport in
      let o = ap (λ r. opens s r.1) e in
      let c = ap (λ r. closes s r.1) e in
      let h = ap (λ r. holds s r.0) e in
      let last = close-Accounts s none_accepted end in
      let none_late = ap (occurrences s) (calm-lost_by_close end) in
      let none_held = closed_holds s end in
      (
        omega (arith, whole, o, c, h),
        omega (
          arith,
          whole,
          o,
          c,
          h,
          last,
          none_late,
          none_held,
          opens-append s effects (close none_accepted end).1,
          closes-append s effects (close none_accepted end).1,
        ),
      ),
  λ calm.
      let (ready, none_lost) = calm_history actions new_transport calm new-Ready in
      let at_end = subst (λ r. Ready r.0) e ready in (none_lost, at_end.has_client),
)
