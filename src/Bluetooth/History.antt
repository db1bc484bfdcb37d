-- ===== src/Bluetooth/History.antt =====
-- The flags, the counter and the listener of a Bluetooth transport in every history.
use phonekey.Prelude.{
  ℕ, ◌+◌, ◌≤◌, ◌<◌, ◌^◌, ◌%◌, ◌≡◌, refl, sym, ap, ◌∙◌, arith, Bool, true, false, not, not-false,
  List, [], ◌∷◌, ◌++◌, ok, ◌>>=◌, Bool-cases, inl, inr, ltb, if◌then◌else◌, length,
}
use phonekey.Frame.{TransportMessageType, serialize_frame, max_payload_size}
use phonekey.Frame.Layout.{wire, serialize_frame-wire}
use phonekey.Sender.{Sender, next_frame, send_frame}
use phonekey.Sender.Delivery.{send_frame_whole, send_closed}
use phonekey.Tcp.{Effect, on_connection_state_changed}
use phonekey.Bluetooth.{
  Bluetooth, tell_state, switch, start_listening, connect_peer, send_nothing, close_link, LinkCall,
  sets_listener, starts_listening, closes, connects, sends, perform_call, pass,
}

-- Whether the connection is up behind a call.
abbrev up_after : LinkCall → Bool → Bool
up_after (sets_listener given) up = up
up_after starts_listening up = true
up_after closes up = false
up_after (connects address) up = true
up_after (sends kind bytes) up = up

abbrev pub up_behind : List LinkCall → Bool → Bool
up_behind [] up = up
up_behind (c ∷ cs) up = up_behind cs (up_after c up)

-- How many frames are numbered.
abbrev numbered_at : LinkCall → Bool → ℕ
numbered_at (sends kind bytes) true = 1
numbered_at (sends kind bytes) false = 0
numbered_at (sets_listener given) up = 0
numbered_at starts_listening up = 0
numbered_at closes up = 0
numbered_at (connects address) up = 0

abbrev pub numbered : List LinkCall → Bool → ℕ
numbered [] up = 0
numbered (c ∷ cs) up = numbered_at c up + numbered cs (up_after c up)

-- What the listener is told.
abbrev told_at : LinkCall → List Effect
told_at (sets_listener given) = []
told_at starts_listening = on_connection_state_changed true "BLE:Listening" ∷ []
told_at closes = on_connection_state_changed false "BLE:Disconnected" ∷ []
told_at (connects address) = on_connection_state_changed true address ∷ []
told_at (sends kind bytes) = []

abbrev listening_after : LinkCall → Bool → Bool
listening_after (sets_listener given) listening = given
listening_after starts_listening listening = listening
listening_after closes listening = listening
listening_after (connects address) listening = listening
listening_after (sends kind bytes) listening = listening

abbrev pub told : List LinkCall → Bool → List Effect
told [] listening = []
told (c ∷ cs) listening =
    (if listening then told_at c else []) ++ told cs (listening_after c listening)

-- The counter behind some frames.
abbrev pub counted : Bluetooth → ℕ → ℕ
counted b n = (b.sender.sequence_counter + n) % 2 ^ 32

serialized :
    (sender : Sender) (kind : TransportMessageType) (bytes : List ℕ)
    → (xs : List ℕ) × (serialize_frame (next_frame sender kind bytes) ≡ ok xs)
serialized sender kind bytes =
    let whole = serialize_frame-wire (next_frame sender kind bytes) in
    elim (Bool-cases (ltb max_payload_size (length bytes))) [
      | inl big ↦ ([], whole ∙ rw big refl)
      | inr fits ↦ (wire (next_frame sender kind bytes), whole ∙ rw fits refl)
    ]

abbrev bumped : Bluetooth → Bluetooth
bumped b = record b { sender = record b.sender { sequence_counter = counted b 1 } }

module _ (b : Bluetooth) (kind : TransportMessageType) (bytes : List ℕ) where
  send_nothing_up :
      not b.sender.is_connected ≡ false → send_nothing b kind bytes ≡ ok (true, bumped b)
  unfolding send_nothing
  send_nothing_up up = let (xs, e) = serialized b.sender kind bytes in rw (up, e, send_nothing) refl

  send_nothing_down : not b.sender.is_connected ≡ true → send_nothing b kind bytes ≡ ok (false, b)
  unfolding send_nothing
  send_nothing_down down = rw (down, send_nothing) refl

-- A call that returns, with what it leaves.
record Step (c : LinkCall) (b : Bluetooth) : Type 0 where
  after : Bluetooth
  returns : perform_call c b ≡ ok (after, if b.has_listener then told_at c else [])
  up : after.sender.is_connected ≡ up_after c b.sender.is_connected
  running : after.is_running ≡ up_after c b.is_running
  counter : after.sender.sequence_counter ≡ counted b (numbered_at c b.sender.is_connected)
  listening : after.has_listener ≡ listening_after c b.has_listener

silent : (b : Bool) → ◌≡◌ {A = List Effect} (if b then [] else []) []
silent true = refl
silent false = refl

call-Step : (c : LinkCall) (b : Bluetooth) → b.sender.sequence_counter < 2 ^ 32 → Step c b
unfolding perform_call start_listening connect_peer close_link tell_state
call-Step (sets_listener given) b small = record {
  after = record b { has_listener = given };
  returns = ap (λ xs. ok (record b { has_listener = given }, xs)) (sym (silent b.has_listener));
  up = refl;
  running = refl;
  counter = omega arith;
  listening = refl;
}
call-Step starts_listening b small = record {
  after = switch true b;
  returns = refl;
  up = refl;
  running = refl;
  counter = omega arith;
  listening = refl;
}
call-Step closes b small = record {
  after = switch false b;
  returns = refl;
  up = refl;
  running = refl;
  counter = omega arith;
  listening = refl;
}
call-Step (connects address) b small = record {
  after = switch true b;
  returns = refl;
  up = refl;
  running = refl;
  counter = omega arith;
  listening = refl;
}
call-Step (sends kind bytes) b small = elim (Bool-cases (not b.sender.is_connected)) [
  | inl down ↦
      let off : b.sender.is_connected ≡ false = not-true b.sender.is_connected down in
      record {
        after = b;
        returns =
            ap (λ r. r >>= λ answered. ok (answered.1, [])) (send_nothing_down b kind bytes down)
            ∙ ap (λ xs. ok (b, xs)) (sym (silent b.has_listener));
        up = refl;
        running = refl;
        counter =
            let none_numbered = ap (numbered_at (sends kind bytes)) off in
            omega (arith, none_numbered, small);
        listening = refl;
      }
  | inr up ↦
      let on : b.sender.is_connected ≡ true = not-false b.sender.is_connected up in
      record {
        after = bumped b;
        returns =
            ap (λ r. r >>= λ answered. ok (answered.1, [])) (send_nothing_up b kind bytes up)
            ∙ ap (λ xs. ok (bumped b, xs)) (sym (silent b.has_listener));
        up = refl;
        running = refl;
        counter = ap (λ n. counted b n) (sym (ap (numbered_at (sends kind bytes)) on));
        listening = refl;
      }
]
  where
    not-true : (b : Bool) → not b ≡ true → b ≡ false
    not-true true e = cc
    not-true false e = refl

-- In every history of a Bluetooth transport every call returns: m_isConnected and m_isRunning are true
-- exactly if the last call of StartListener, Connect and Close was not Close, and what they were where
-- there was none; the counter has moved on by one, modulo
-- 2^32, for each SendFrame while it was up; and the listener that was set at the time is told of each
-- StartListener, Connect and Close, in their order, and of nothing else.
pub pass_history :
    (calls : List LinkCall) (b : Bluetooth)
    → b.sender.sequence_counter < 2 ^ 32
    → (end : Bluetooth) × (pass calls b ≡ ok (end, told calls b.has_listener))
      × (end.sender.is_connected ≡ up_behind calls b.sender.is_connected)
      × (end.is_running ≡ up_behind calls b.is_running)
      × (end.sender.sequence_counter ≡ counted b (numbered calls b.sender.is_connected))
unfolding pass
pass_history [] b small = (b, refl, refl, refl, omega arith)
pass_history (c ∷ cs) b small =
    let s = call-Step c b small in
    let (end, rest, up, running, count) = pass_history cs s.after (omega (arith, s.counter)) in
    let here = if b.has_listener then told_at c else [] in
    let up' = ap (up_behind cs) s.up in
    let count' = ap (numbered cs) s.up in
    let told' = ap (told cs) s.listening in
    (
      end,
      ap (λ r. r >>= λ first. pass cs first.0 >>= λ there. ok (there.0, first.1 ++ there.1))
            s.returns
          ∙ ap (λ r. r >>= λ there. ok (there.0, here ++ there.1)) rest
          ∙ ap (λ xs. ok (end, here ++ xs)) told',
      up ∙ up',
      running ∙ ap (up_behind cs) s.running,
      omega (arith, count, count', s.counter),
    )

-- A Bluetooth transport answers a frame of at most 64 KB, and numbers it, as a TCP transport does whose
-- socket takes the whole frame.
send_nothing-send_frame :
    (b : Bluetooth) (kind : TransportMessageType) (bytes : List ℕ) (n : ℕ)
    → length bytes ≤ max_payload_size
    → 18 + length bytes ≤ n
    → (answer : Bool) × (after : Sender) × (sent : List ℕ) × (send_frame b.sender kind bytes
          (n ∷ [])
        ≡ ok (answer, after, sent))
      × (send_nothing b kind bytes ≡ ok (answer, record b { sender = after }))
send_nothing-send_frame b kind bytes n small room = elim (Bool-cases (not b.sender.is_connected)) [
  | inl down ↦ (
    false,
    b.sender,
    [],
    send_closed b.sender kind bytes (n ∷ []) down,
    send_nothing_down b kind bytes down,
  )
  | inr up ↦
      let on = not-false b.sender.is_connected up in
      (
        true,
        record { is_connected = true; sequence_counter = counted b 1 },
        wire (next_frame b.sender kind bytes),
        send_frame_whole b.sender kind bytes n on small room,
        send_nothing_up b kind bytes up
            ∙ ap
                (λ c. ok (
                  true,
                  record b { sender = record { is_connected = c; sequence_counter = counted b 1 } },
                ))
                on,
      )
]
