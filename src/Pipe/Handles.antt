-- ===== src/Pipe/Handles.antt =====
-- The handles of both ends of the pipe.
use phonekey.Prelude.{
  ℕ, ◌≡◌, Bool, true, false, List, [], ◌∷◌, Option, none, some, if◌then◌else◌, ◌==◌, Result, ok,
  ◌>>=◌,
}
use phonekey.Pipe.{
  NoPacket, PipeEffect, invalid_closed, Stopping, not_stopped, flag_cleared, handle_reset,
  handle_kept, runs_on, pipe_opened, pipe_closed, pipe_written, Attempt,
}

-- The handle that is open after some effects; there is none when a handle is opened beside another,
-- or when one is written to or closed that is not open.
unfoldable pub handle_after : List PipeEffect → Option ℕ → Option (Option ℕ)
handle_after [] held = some held
handle_after (pipe_opened h ∷ effects) none = handle_after effects (some h)
handle_after (pipe_opened h ∷ effects) (some k) = none
handle_after (pipe_written bytes ∷ effects) none = none
handle_after (pipe_written bytes ∷ effects) (some k) = handle_after effects (some k)
handle_after (invalid_closed ∷ effects) held = handle_after effects held
handle_after (pipe_closed h ∷ effects) none = none
handle_after (pipe_closed h ∷ effects) (some k) =
    let rest = handle_after effects none in if k == h then rest else none

-- Whether `Stop` and the thread close the same handle.
abbrev twice_at : Stopping → Option ℕ → Bool
twice_at not_stopped pipe = false
twice_at flag_cleared pipe = false
twice_at handle_reset pipe = false
twice_at handle_kept none = false
twice_at handle_kept (some handle) = true

abbrev pub closed_twice : List Attempt → Bool
closed_twice [] = false
closed_twice (attempt ∷ attempts) =
    let rest = closed_twice attempts in
    if runs_on attempt.stopping then rest else twice_at attempt.stopping attempt.pipe

abbrev pub handles_left : Bool → Option (Option ℕ)
handles_left twice = if twice then none else some none

-- A part of the thread's life reads nothing outside its buffers, and closes its pipes.
abbrev Closes : Bool → Result NoPacket (List PipeEffect) → Type 0
Closes twice r =
    (effects : List PipeEffect) × (r ≡ ok effects)
    × (handle_after effects none ≡ handles_left twice)
