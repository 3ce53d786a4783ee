-- ===== src/Tests/TelnetTests.antt =====
-- The telnet client of src/telnet.c at concrete inputs.
use modembridge.Prelude.{ℕ, ◌≡◌, refl, some, true, List, [], ◌∷◌, ◌++◌, arith, length}
use modembridge.Text.Utf8.{is_utf8_start, utf8_sequence_length}
use modembridge.Telnet.State.{Os, Telnet, sent, init, data_state}
use modembridge.Telnet.Negotiate.{handle_negotiate}
use modembridge.Telnet.Negotiate.Answers.{will_req, byte, Settles, handle_negotiate-Settles}
use modembridge.Telnet.Negotiate.Modes.{init-ModesAgree}
use modembridge.Telnet.Output.{prepare_output}
use modembridge.Telnet.Output.Escape.{IsLongest, prepare_output-IsLongest}
use modembridge.Telnet.Subnegotiate.{frame, handle_subnegotiation}
use modembridge.Telnet.Input.{process_input}
use modembridge.Telnet.Input.Bounds.{process_input_splits}
use modembridge.Telnet.Input.Sound.{IsSound, process_input-IsSound}
use modembridge.Telnet.Input.Stream.{process_input-append}
use modembridge.Telnet.Input.RoundTrip.{process_input-prepare_output}
use modembridge.Telnet.Input.Delivery.{process_input-frame, delivered}

-- A system that takes whatever it is sent, at time 1000.
abbrev os : Os
os = record { send = λ log buf. sent (length buf); time = λ log. 1000 }

-- A client on an open connection.
abbrev online : Telnet
online = record (init 0) { fd = some 5; is_connected = true }

-- "a", IAC WILL ECHO, "b".
abbrev some_input : List ℕ
some_input = b'a' ∷ 255 ∷ 251 ∷ 1 ∷ b'b' ∷ []

plain_text :
    process_input os online some_input 100 ≡ (b'a' ∷ b'b' ∷ [], handle_negotiate os online 251 1)
unfolding process_input modembridge.Telnet.Input.process_from modembridge.Telnet.Input.step
    modembridge.Telnet.Input.step_out modembridge.Telnet.Input.iac_command
    modembridge.Telnet.Input.put handle_negotiate modembridge.Telnet.Negotiate.handle_will
    modembridge.Telnet.Negotiate.send_negotiate modembridge.Telnet.Negotiate.send_control
    modembridge.Telnet.Negotiate.update_mode is_utf8_start utf8_sequence_length
plain_text = refl

init-IsSound : IsSound (init 0)
init-IsSound = record { modes = init-ModesAgree 0; sb_in = omega arith }

process_input-IsSound_example : IsSound (process_input os (init 0) some_input 100).1
process_input-IsSound_example = process_input-IsSound os (init 0) some_input 100 init-IsSound

process_input-prepare_output_example :
    process_input os online (prepare_output (7 ∷ 255 ∷ 9 ∷ []) 6) 9 ≡ (7 ∷ 255 ∷ 9 ∷ [], online)
process_input-prepare_output_example =
    process_input-prepare_output os online (7 ∷ 255 ∷ 9 ∷ []) 6 9 refl (omega arith) (omega arith)

handle_negotiate-Settles_example :
    Settles will_req 1 online (handle_negotiate os online (byte will_req) 1)
handle_negotiate-Settles_example = handle_negotiate-Settles os online will_req 1 refl

process_input-append_example :
    let (out, tn') = process_input os online (b'a' ∷ 255 ∷ []) 100 in
    let (out', tn'') = process_input os tn' (251 ∷ 1 ∷ b'b' ∷ []) 100 in
    process_input os online some_input 100 ≡ (out ++ out', tn'')
process_input-append_example =
    process_input-append os online (b'a' ∷ 255 ∷ []) (251 ∷ 1 ∷ b'b' ∷ []) 100 (omega arith)

process_input-frame_example : process_input os online (frame (24 ∷ 1 ∷ 255 ∷ [])) 4096 ≡ (
  [],
  record (handle_subnegotiation os (delivered online (24 ∷ 1 ∷ 255 ∷ []))).1 {
    sb_buffer = [];
    state = data_state;
  },
)
process_input-frame_example =
    process_input-frame os online (24 ∷ 1 ∷ 255 ∷ []) 4096 refl (omega arith)

prepare_output-IsLongest_example :
    (k : ℕ) × IsLongest 3 [] (7 ∷ 255 ∷ 255 ∷ []) (prepare_output (7 ∷ 255 ∷ 255 ∷ []) 3) k
prepare_output-IsLongest_example = prepare_output-IsLongest (7 ∷ 255 ∷ 255 ∷ []) 3

-- "ab" and the first two bytes of a three-byte character, into an output of four bytes.
process_input_splits_example :
    (process_input os online ((b'a' ∷ b'b' ∷ []) ++ 0xe2 ∷ 0x82 ∷ []) 4).0
    ≡ (b'a' ∷ b'b' ∷ []) ++ 0x82 ∷ []
unfolding is_utf8_start utf8_sequence_length process_input modembridge.Telnet.Input.process_from
    modembridge.Telnet.Input.step modembridge.Telnet.Input.step_out modembridge.Telnet.Input.put
process_input_splits_example =
    process_input_splits os online (b'a' ∷ b'b' ∷ []) 0xe2 0x82 4 refl refl refl refl refl
      (omega arith) (omega arith)
