-- ===== src/Logon/Credentials.antt =====
-- What the logon screen gets from `GetSerialization`.
use phonekey.Prelude.{
  ◌↔◌, ℕ, suc, ◌≡◌, ◌≢◌, refl, sym, ap, ◌∙◌, arith, Bool, true, false, not, ◌&&◌, List, [], ◌∷◌,
  Option, some, some_injective, ◌==◌, leb, if◌then◌else◌, length, ok, Bool-cases, inl, inr,
}
use phonekey.Prelude.Words.{u32}
use phonekey.Pipe.{
  IpcPacket, Handler, respond, send_ipc_request, encode_packet, PipeEffect, pipe_opened,
  pipe_written, pipe_closed,
}
use phonekey.Pipe.Exchange.{
  IsPacket, Transfers, seen_afresh, reply_to, send_ipc_request-serve_request,
}
use phonekey.Logon.{
  s_ok, refused_outputs, granted_outputs, get_serialization, unlock_request, Serialization,
}

granted_iff :
    (wants_text wants_icon allocated : Bool) (kind status : ℕ) (payload : List ℕ)
    (s : Serialization)
    → (status == 0) ≡ true
    → ((get_serialization true true wants_text wants_icon
          (true, record { kind = kind; status_code = status; payload = payload })
          allocated).1.serialization
        ≡ some s)
      ↔ (◌≡◌ {A = Bool} true true
          × ◌≡◌ {A = Bool} true true
          × ◌≡◌ {A = Bool} true true
          × (status ≡ 0)
          × (payload ≢ [])
          × (allocated ≡ true)
          × (s ≡ record { size = u32 (length payload); bytes = payload }))
unfolding get_serialization
granted_iff wants_text wants_icon allocated kind status [] s grants =
    rw grants ((λ e. cc), λ h. absurd (h.4 refl))
granted_iff wants_text wants_icon false kind status (x ∷ xs) s grants =
    let more : (suc (length xs) == 0) ≡ false = ground arith in
    rw (grants, more) ((λ e. cc), λ h. cc)
granted_iff wants_text wants_icon true kind status (x ∷ xs) s grants =
    let more : (suc (length xs) == 0) ≡ false = ground arith in
    let zero : status ≡ 0 = ground (arith, grants) in
    rw (grants, more)
      (
        (λ e. (refl, refl, refl, zero, (λ p. cc), refl, sym (some_injective e))),
        λ h. ap some (sym h.6),
      )

answered_iff :
    (wants_text wants_icon allocated : Bool) (kind status : ℕ) (payload : List ℕ)
    (s : Serialization)
    → ((get_serialization true true wants_text wants_icon
          (true, record { kind = kind; status_code = status; payload = payload })
          allocated).1.serialization
        ≡ some s)
      ↔ (◌≡◌ {A = Bool} true true
          × ◌≡◌ {A = Bool} true true
          × ◌≡◌ {A = Bool} true true
          × (status ≡ 0)
          × (payload ≢ [])
          × (allocated ≡ true)
          × (s ≡ record { size = u32 (length payload); bytes = payload }))
unfolding get_serialization
answered_iff wants_text wants_icon allocated kind status payload s =
    elim (Bool-cases (status == 0)) [
      | inr refuses ↦
          rw refuses
            ((λ e. cc), λ h. (let e : status ≡ 0 = h.3 in absurd (ground (arith, refuses, e))))
      | inl grants ↦ granted_iff wants_text wants_icon allocated kind status payload s grants
    ]

-- GetSerialization hands out a credential exactly if both required pointers are given, the request
-- came through, the agent answered with status 0 and a payload, and the buffer could be allocated;
-- the credential is the payload.
get_serialization_iff :
    (has_response has_serialization wants_text wants_icon allocated ipc_ok : Bool)
    (resp : IpcPacket) (s : Serialization)
    → ((get_serialization has_response has_serialization wants_text wants_icon
          (ipc_ok, resp)
          allocated).1.serialization
        ≡ some s)
      ↔ ((has_response ≡ true)
          × (has_serialization ≡ true)
          × (ipc_ok ≡ true)
          × (resp.status_code ≡ 0)
          × (resp.payload ≢ [])
          × (allocated ≡ true)
          × (s ≡ record { size = u32 (length resp.payload); bytes = resp.payload }))
unfolding get_serialization
get_serialization_iff false has_serialization wants_text wants_icon allocated ipc_ok resp s =
    ((λ e. cc), (λ h. cc))
get_serialization_iff true false wants_text wants_icon allocated ipc_ok resp s =
    ((λ e. cc), (λ h. cc))
get_serialization_iff true true wants_text wants_icon allocated false resp s =
    ((λ e. cc), (λ h. cc))
get_serialization_iff true true wants_text wants_icon allocated true resp s =
    answered_iff wants_text wants_icon allocated resp.kind resp.status_code resp.payload s

-- What the agent's answer means: status 0, and a payload that is not empty and fits a message.
abbrev pub grants_logon : IpcPacket → Bool
grants_logon answer =
    (answer.status_code == 0)
    && (not (length answer.payload == 0) && leb (length answer.payload) 4092)

of_answer :
    (wants_text wants_icon fits : Bool) (answer fresh : IpcPacket)
    → get_serialization true true wants_text wants_icon (fits, if fits then answer else fresh) true
      ≡ (
        s_ok,
        if (answer.status_code == 0) && (not (length answer.payload == 0) && fits)
            then granted_outputs wants_text wants_icon answer.payload
            else refused_outputs wants_text wants_icon,
      )
unfolding get_serialization
of_answer wants_text wants_icon false answer fresh = elim (Bool-cases (answer.status_code == 0)) [
  | inr refuses ↦ rw refuses refl
  | inl grants ↦ elim (Bool-cases (length answer.payload == 0)) [
    | inl empty ↦ rw (grants, empty) refl
    | inr filled ↦ rw (grants, filled) refl
  ]
]
of_answer wants_text wants_icon true answer fresh = elim (Bool-cases (answer.status_code == 0)) [
  | inr refuses ↦ rw refuses refl
  | inl grants ↦ elim (Bool-cases (length answer.payload == 0)) [
    | inl empty ↦ rw (grants, empty) refl
    | inr filled ↦ rw (grants, filled) refl
  ]
]

-- From the button of the logon screen to the agent and back: over a pipe whose ReadFile refuses more
-- than 4096 bytes, to a server with some handler, and with memory for the buffer, GetSerialization
-- hands out the payload of the handler's answer to REQ_UNLOCK exactly if its status is 0 and the
-- payload has between 1 and 4092 bytes, and else reports that there is no credential.
pub logon_through_pipe :
    (transfer : List ℕ → Option (List ℕ)) (handler : Handler) (handle kind status : ℕ)
    (wants_text wants_icon : Bool)
    → Transfers transfer
    → IsPacket (respond handler unlock_request)
    → (ipc_ok : Bool) × (resp : IpcPacket) × (effects : List PipeEffect) × (send_ipc_request true
          (some handle)
          true
          (reply_to transfer handler (encode_packet unlock_request))
          unlock_request
          (record { kind = kind; status_code = status; payload = [] })
        ≡ ok (ipc_ok, resp, effects))
      × (get_serialization true true wants_text wants_icon (ipc_ok, resp) true ≡ (
        s_ok,
        if grants_logon (respond handler unlock_request)
            then granted_outputs wants_text wants_icon (respond handler unlock_request).payload
            else refused_outputs wants_text wants_icon,
      ))
logon_through_pipe transfer handler handle kind status wants_text wants_icon t v =
    let answer = respond handler unlock_request in
    let fresh : IpcPacket = record { kind = kind; status_code = status; payload = [] } in
    let done : List PipeEffect =
      pipe_opened handle ∷ pipe_written (encode_packet unlock_request) ∷ pipe_closed handle ∷ [] in
    (
      leb (length answer.payload) 4092,
      (if leb (length answer.payload) 4092 then answer else fresh),
      done,
      send_ipc_request-serve_request transfer handler unlock_request t handle fresh
            (record { kind_fits = omega arith; status_fits = omega arith }) v
          ∙ ap
              (λ p. ok (
                leb (length answer.payload) 4092,
                (if leb (length answer.payload) 4092 then p else fresh),
                done,
              ))
              (seen_afresh answer),
      of_answer wants_text wants_icon (leb (length answer.payload) 4092) answer fresh,
    )
