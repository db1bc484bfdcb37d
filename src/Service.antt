-- ===== src/Service.antt =====
-- windows/agent/AgentService.cpp: the life of the agent, from its constructor through `Start` and
-- `Stop` to its destructor, with its engine (Engine) and its transport (Tcp).
pub mod Accounts
pub mod Releases
pub mod Program
use phonekey.Prelude.{ℕ, Bool, true, false, List, [], ◌∷◌, ◌++◌, Option, if◌then◌else◌}
use Prim.Native.String.{String}
use phonekey.Tcp.{
  Transport, Effect, Action, Race, none_accepted, new_transport, close, start_listener, perform,
}
use phonekey.Engine.{
  CryptoEngine, HandleEffect, new_engine, initialize, hash_payload, destroy_engine,
}

-- `m_cryptoEngine` and `m_transport`.
pub record Service : Type 0 where
  pub engine : CryptoEngine
  pub transport : Transport

-- `AgentService::AgentService`: the transport is made, and its listener is the agent.
abbrev pub new_service : Service
new_service = record {
  engine = new_engine;
  transport = record new_transport { has_listener = true };
}

-- The service, with what happened to sockets and to handles.
abbrev pub Lived : Type 0
Lived = Service × List Effect × List HandleEffect

-- `Start`: what it returns, and the rest. The arguments are the results of the system calls.
unfoldable pub start :
    Race → Option ℕ → Option ℕ → Option ℕ → Option ℕ → Bool → Bool → Service → Bool × Lived
start race ecdsa rng sha socket bound listens service =
    let (ready, engine, handles) = initialize ecdsa rng sha service.engine in
    let (listening, transport, sockets) =
      start_listener race socket bound listens service.transport in
    if ready
    then (listening, (record { engine = engine; transport = transport }, sockets, handles))
    else (false, (record service { engine = engine }, [], handles))

-- `Stop`
unfoldable pub stop : Race → Service → Service × List Effect
stop race service =
    let (transport, sockets) = close race service.transport in
    (record service { transport = transport }, sockets)

-- `~AgentService`: `Stop`, then the destructors of the members, last declared first. The one of the
-- transport calls `Close`, when the thread has been joined, and the one of the engine closes the providers.
unfoldable pub destroy_service : Race → Service → List Effect × List HandleEffect
destroy_service race service =
    let (stopped, sockets) = stop race service in
    let (transport, more) = close none_accepted stopped.transport in
    (sockets ++ more, destroy_engine service.engine)

-- What can happen to a service: a call, a step of the transport's thread, or the hash of a signature
-- that is verified.
pub data Happening : Type 0 where
  starts : Race → Option ℕ → Option ℕ → Option ℕ → Option ℕ → Bool → Bool → Happening
  stops : Race → Happening
  transport_acts : Action → Happening
  hashes : Option ℕ → Bool → Option (List ℕ) → Happening

unfoldable pub happen : Happening → Service → Lived
happen (starts race ecdsa rng sha socket bound listens) service =
    (start race ecdsa rng sha socket bound listens service).1
happen (stops race) service = let (after, sockets) = stop race service in (after, sockets, [])
happen (transport_acts action) service =
    let (transport, sockets) = perform action service.transport in
    (record service { transport = transport }, sockets, [])
happen (hashes created hashed digest) service =
    (service, [], (hash_payload created hashed digest).1)

-- A life of the service.
unfoldable pub live : List Happening → Service → Lived
live [] service = (service, [], [])
live (h ∷ hs) service =
    let (after, sockets, handles) = happen h service in
    let (end, more_sockets, more_handles) = live hs after in
    (end, sockets ++ more_sockets, handles ++ more_handles)

-- `main` of PhoneKeyAgent.cpp: the exit code, and what happened to sockets and handles. While it
-- waits for the ENTER key, the transport's thread runs and signatures are verified; at `Stop` a peer
-- may be accepted. Where `Close` is called before and after that, no thread stands at `accept`.
unfoldable pub main_program :
    Option ℕ
    → Option ℕ
    → Option ℕ
    → Option ℕ
    → Bool
    → Bool
    → List Happening
    → Race
    → ℕ × List Effect × List HandleEffect
main_program ecdsa rng sha socket bound listens waiting race =
    let (started, first) = start none_accepted ecdsa rng sha socket bound listens new_service in
    let (begun, sockets, handles) = first in
    let (end, more_sockets, more_handles) = live (waiting ++ (stops race ∷ [])) begun in
    let (last_sockets, last_handles) = destroy_service none_accepted end in
    let (failed_sockets, failed_handles) = destroy_service none_accepted begun in
    if started
    then (0, (sockets ++ more_sockets) ++ last_sockets, (handles ++ more_handles) ++ last_handles)
    else (1, sockets ++ failed_sockets, handles ++ failed_handles)
