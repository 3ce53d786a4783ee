-- ===== src/Telnet/Input/Delivery.antt =====
-- A subnegotiation frame on its way through the receiving machine of src/telnet.c.
use modembridge.Prelude.{
  ℕ, ◌+◌, ◌≤◌, ◌<◌, ◌≡◌, refl, sym, ap, ◌∙◌, List, [], ◌∷◌, ◌++◌, append-nil, append_assoc, arith,
  length, length-append, ◌==◌, Bool-cases, inl, inr,
}
use modembridge.Common.{buffer_size}
use modembridge.Telnet.State.{TelnetState, data_state, sb_state, sb_iac_state, Os, Telnet}
use modembridge.Telnet.Output.Escape.{escaped, escape}
use modembridge.Telnet.Subnegotiate.{handle_subnegotiation, frame}
use modembridge.Telnet.Subnegotiate.Frame.{frame-escape}
use modembridge.Telnet.Input.{
  in_state, accumulate, sb_command, iac_command, step, step_out, process_from, process_input,
}
use modembridge.Telnet.Input.RoundTrip.{in_state_self}
use modembridge.Telnet.Byte

-- The client inside a subnegotiation, with what it has gathered.
abbrev gathering : Telnet → List ℕ → Telnet
gathering tn got = record tn { state = sb_state; sb_buffer = got }

accumulate_room :
    (tn : Telnet) (got : List ℕ) (s : TelnetState) (c : ℕ)
    → length got < buffer_size
    → accumulate (record tn { state = s; sb_buffer = got }) c
      ≡ record tn { state = s; sb_buffer = got ++ c ∷ [] }
unfolding accumulate
accumulate_room tn got s c h = ground arith

module _ (os : Os) (size : ℕ) (tn : Telnet) where
  payload_byte :
      (got : List ℕ) (c : ℕ) (rest : List ℕ)
      → length got < buffer_size
      → process_from os size (gathering tn got) [] (escaped c ++ rest)
        ≡ process_from os size (gathering tn (got ++ c ∷ [])) [] rest
  unfolding process_from step step_out sb_command
  payload_byte got c rest h = elim (Bool-cases (c == Byte.iac)) [
    | inl special ↦
        let e : c ≡ Byte.iac = ground arith in
        rw special (rw e (rw (accumulate_room tn got sb_iac_state Byte.iac h)))
    | inr plain ↦ rw plain (rw plain (rw (accumulate_room tn got sb_state c h)))
  ]

  whole_payload :
      (payload got rest : List ℕ)
      → length got + length payload ≤ buffer_size
      → process_from os size (gathering tn got) [] (escape payload ++ rest)
        ≡ process_from os size (gathering tn (got ++ payload)) [] rest
  unfolding escape
  whole_payload [] got rest h =
      ap (λ g. process_from os size (gathering tn g) [] rest) (sym (append-nil got))
  whole_payload (c ∷ cs) got rest h =
      ap (process_from os size (gathering tn got) []) (append_assoc (escaped c) (escape cs) rest)
      ∙ payload_byte got c (escape cs ++ rest) (omega arith)
      ∙ whole_payload cs (got ++ c ∷ []) rest (omega (arith, length-append got (c ∷ [])))
      ∙ ap (λ g. process_from os size (gathering tn g) [] rest) (append_assoc got (c ∷ []) cs)

-- The client when the whole payload is gathered, at the closing IAC SE.
abbrev pub delivered : Telnet → List ℕ → Telnet
delivered tn payload = record tn { state = sb_iac_state; sb_buffer = payload }

-- In state DATA, a frame that a peer builds as `telnet_send_subnegotiation` does, around a payload
-- of at most 2046 bytes, is handled as exactly that payload, IACs included, gives no output,
-- whatever room the output has, and leaves the client in state DATA with an empty subnegotiation
-- buffer.
pub process_input-frame :
    (os : Os) (tn : Telnet) (payload : List ℕ) (size : ℕ)
    → tn.state ≡ data_state
    → length payload ≤ 2046
    → process_input os tn (frame payload) size ≡ (
      [],
      record (handle_subnegotiation os (delivered tn payload)).1 {
        sb_buffer = [];
        state = data_state;
      },
    )
unfolding process_input
process_input-frame os tn payload size s h =
    let f = frame-escape payload h in
    let run = process_from os size in
    let opened : run (in_state tn data_state) []
          (Byte.iac ∷ Byte.sb ∷ escape payload ++ Byte.iac ∷ Byte.se ∷ [])
        ≡ run (gathering tn []) [] (escape payload ++ Byte.iac ∷ Byte.se ∷ []) =
      unfold process_from step step_out iac_command in refl in
    ap (λ t. run t [] (frame payload)) (in_state_self tn s)
    ∙ ap (run (in_state tn data_state) []) f.0
    ∙ opened
    ∙ whole_payload os size tn payload [] (Byte.iac ∷ Byte.se ∷ []) (omega arith)
    ∙ unfold process_from step step_out sb_command in refl
