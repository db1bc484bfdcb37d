-- ===== src/Examples/Logon.antt =====
-- Examples for the pipe and the logon screen.
use phonekey.Prelude.{
  ℕ, ◌≡◌, refl, arith, Bool, true, false, List, [], ◌∷◌, Option, none, some, ltb, le→ltb, lt→ltb,
  if◌then◌else◌, length, ok,
}
use phonekey.Pipe.{
  IpcPacket, Handler, respond, Attempt, not_stopped, handle_kept, send_ipc_request, encode_packet,
  PipeEffect, pipe_opened, pipe_written, pipe_closed, ipc_max_buffer_size,
}
use phonekey.Pipe.Exchange.{IsPacket, Transfers, seen, reply_to, send_ipc_request-serve_request}
use phonekey.Logon.{
  s_ok, get_serialization, unlock_request, granted_outputs, get_credential_at, create_instance,
  dll_get_class_object,
}
use phonekey.Logon.Credentials.{logon_through_pipe}
use phonekey.Logon.Tile.{new_provider}
use phonekey.Logon.Events.{
  Balanced, EventCall, call_advise, call_un_advise, call_all, call_all_credential, overwritten,
  references-Balanced,
}
use phonekey.Logon.Fields.{
  asks_checkbox, call_method, given_places, places, copy_fails, call_method-places,
}
use phonekey.Logon.Lifetime.{HandedOut, handed_out}

abbrev pipe_of_messages : List ℕ → Option (List ℕ)
pipe_of_messages m = if ltb ipc_max_buffer_size (length m) then none else some m

pipe_of_messages-Transfers : Transfers pipe_of_messages
pipe_of_messages-Transfers = record {
  fits = λ m h. rw (le→ltb ipc_max_buffer_size (length m) h) refl;
  too_long = λ m h. rw (lt→ltb ipc_max_buffer_size (length m) h) refl;
}

-- An agent that answers every request with three bytes.
abbrev agent_handler : Handler
agent_handler = some λ request. (record { kind = 4; status_code = 0; payload = 7 ∷ 8 ∷ 9 ∷ [] })

answer-IsPacket : IsPacket (respond agent_handler unlock_request)
unfolding respond
answer-IsPacket = record { kind_fits = omega arith; status_fits = omega arith }

abbrev fresh : IpcPacket
fresh = record { kind = 0; status_code = 0; payload = [] }

send_ipc_request-serve_request_example :
    send_ipc_request true
      (some 1)
      true
      (reply_to pipe_of_messages agent_handler (encode_packet unlock_request))
      unlock_request
      fresh
    ≡ ok (
      true,
      seen (respond agent_handler unlock_request) [],
      pipe_opened 1 ∷ pipe_written (encode_packet unlock_request) ∷ pipe_closed 1 ∷ [],
    )
unfolding respond
send_ipc_request-serve_request_example =
    send_ipc_request-serve_request pipe_of_messages agent_handler unlock_request
      pipe_of_messages-Transfers 1 fresh
      (record { kind_fits = omega arith; status_fits = omega arith }) answer-IsPacket

logon_through_pipe_example :
    (ipc_ok : Bool) × (resp : IpcPacket) × (effects : List PipeEffect) × (send_ipc_request true
        (some 1)
        true
        (reply_to pipe_of_messages agent_handler (encode_packet unlock_request))
        unlock_request
        fresh
      ≡ ok (ipc_ok, resp, effects))
    × (get_serialization true true true true (ipc_ok, resp) true
        ≡ (s_ok, granted_outputs true true (7 ∷ 8 ∷ 9 ∷ [])))
unfolding respond
logon_through_pipe_example =
    logon_through_pipe pipe_of_messages agent_handler 1 0 0 true true pipe_of_messages-Transfers
      answer-IsPacket

abbrev attempts : List Attempt
attempts =
    record { pipe = none; connected = false; stopping = not_stopped; reading = none }
    ∷ record {
      pipe = some 3;
      connected = true;
      stopping = not_stopped;
      reading = some (0 ∷ 3 ∷ 0 ∷ 0 ∷ []);
    }
    ∷ record { pipe = some 3; connected = true; stopping = not_stopped; reading = some (0 ∷ []) }
    ∷ record { pipe = some 4; connected = true; stopping = handle_kept; reading = none }
    ∷ []

handed_out_example :
    HandedOut (get_credential_at 0 true true s_ok)
    × HandedOut (create_instance false true s_ok)
    × HandedOut (dll_get_class_object true true s_ok)
handed_out_example = handed_out 0 true false true true s_ok

-- An object is put in place of another, whose reference is lost.
abbrev event_calls : List EventCall
event_calls = call_advise (some 1) 0 ∷ call_advise (some 2) 0 ∷ call_un_advise ∷ []

references-Balanced_example :
    Balanced 2 new_provider.events
      (call_all event_calls new_provider).1
      (call_all event_calls new_provider).0.events
      (overwritten event_calls new_provider.events)
    × Balanced 2 new_provider.events
        (call_all_credential event_calls new_provider.events).1
        (call_all_credential event_calls new_provider.events).0
        (overwritten event_calls new_provider.events)
references-Balanced_example = references-Balanced 2 event_calls new_provider

call_method-places_example : places (call_method (asks_checkbox true false)).1 ≡ (
    if copy_fails (asks_checkbox true false) then [] else given_places (asks_checkbox true false))
call_method-places_example = call_method-places (asks_checkbox true false)
