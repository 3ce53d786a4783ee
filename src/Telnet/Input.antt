-- ===== src/Telnet/Input.antt =====
-- `telnet_process_input` of src/telnet.c: the receiving state machine.
pub mod Bounds
pub mod Sound
pub mod Stream
pub mod RoundTrip
pub mod Delivery
use modembridge.Prelude.{ℕ, ◌+◌, ◌&&◌, List, [], ◌∷◌, ◌++◌, ltb, ◌==◌, length, if◌then◌else◌}
use modembridge.Common.{buffer_size}
use modembridge.Text.Utf8.{is_utf8_start, utf8_sequence_length}
use modembridge.Telnet.State.{
  TelnetState, data_state, iac_state, will_state, wont_state, do_state, dont_state, sb_state,
  sb_iac_state, Os, Telnet,
}
use modembridge.Telnet.Negotiate.{handle_negotiate}
use modembridge.Telnet.Subnegotiate.{handle_subnegotiation}
use modembridge.Telnet.Send.{send}
use modembridge.Telnet.Byte

-- "\r\n[ModemBridge: Yes, I'm here]\r\n".
abbrev pub here : List ℕ
here =
    b'\r' ∷ b'\n' ∷ b'[' ∷ b'M' ∷ b'o' ∷ b'd' ∷ b'e' ∷ b'm' ∷ b'B' ∷ b'r' ∷ b'i' ∷ b'd' ∷ b'g'
    ∷ b'e' ∷ b':' ∷ b' ' ∷ b'Y' ∷ b'e' ∷ b's' ∷ b',' ∷ b' ' ∷ b'I' ∷ 39 ∷ b'm' ∷ b' ' ∷ b'h' ∷ b'e'
    ∷ b'r' ∷ b'e' ∷ b']' ∷ b'\r' ∷ b'\n' ∷ []

abbrev pub in_state : Telnet → TelnetState → Telnet
in_state tn s = record tn { state = s }

-- A data byte behind the output so far. The `break`s of the source leave its `switch`, not its
-- loop: the byte is dropped, and the loop goes on.
unfoldable pub put : ℕ → List ℕ → ℕ → List ℕ
put output_size out c =
    if ltb (length out) output_size
    then (if is_utf8_start c && ltb output_size (length out + utf8_sequence_length c)
        then out
        else out ++ c ∷ [])
    else out

-- `case TELNET_STATE_IAC`: the client. GA, NOP, IP, AO, BREAK, EL, EC, DM, EOR and unknown commands
-- are logged only.
unfoldable pub iac_command : Os → Telnet → ℕ → Telnet
iac_command os tn c =
    if c == Byte.iac
    then in_state tn data_state
    else if c == Byte.will
    then in_state tn will_state
    else if c == Byte.wont
    then in_state tn wont_state
    else if c == Byte.do_it
    then in_state tn do_state
    else if c == Byte.dont
    then in_state tn dont_state
    else if c == Byte.sb
    then record tn { state = sb_state; sb_buffer = [] }
    else if c == Byte.ayt
    then in_state (send os tn here).1 data_state
    else in_state tn data_state

-- A byte of a subnegotiation, kept while there is room.
unfoldable pub accumulate : Telnet → ℕ → Telnet
accumulate tn c =
    if ltb (length tn.sb_buffer) buffer_size
    then record tn { sb_buffer = tn.sb_buffer ++ c ∷ [] }
    else tn

-- `case TELNET_STATE_SB_IAC`.
unfoldable pub sb_command : Os → Telnet → ℕ → Telnet
sb_command os tn c =
    if c == Byte.se
    then record (handle_subnegotiation os tn).1 { sb_buffer = []; state = data_state }
    else if c == Byte.iac
    then in_state (accumulate tn Byte.iac) sb_state
    else in_state (accumulate tn c) sb_state

-- One byte: the client.
unfoldable pub step : Os → TelnetState → Telnet → ℕ → Telnet
step os data_state tn c = if c == Byte.iac then in_state tn iac_state else tn
step os iac_state tn c = iac_command os tn c
step os will_state tn c = in_state (handle_negotiate os tn Byte.will c) data_state
step os wont_state tn c = in_state (handle_negotiate os tn Byte.wont c) data_state
step os do_state tn c = in_state (handle_negotiate os tn Byte.do_it c) data_state
step os dont_state tn c = in_state (handle_negotiate os tn Byte.dont c) data_state
step os sb_state tn c = if c == Byte.iac then in_state tn sb_iac_state else accumulate tn c
step os sb_iac_state tn c = sb_command os tn c

-- One byte: the output.
unfoldable pub step_out : ℕ → TelnetState → List ℕ → ℕ → List ℕ
step_out output_size data_state out c = if c == Byte.iac then out else put output_size out c
step_out output_size iac_state out c =
    if c == Byte.iac
    then (if ltb (length out) output_size then out ++ Byte.iac ∷ [] else out)
    else out
step_out output_size _ out c = out

-- The loop over the input.
unfoldable pub process_from : Os → ℕ → Telnet → List ℕ → List ℕ → List ℕ × Telnet
process_from os output_size tn out [] = (out, tn)
process_from os output_size tn out (c ∷ cs) =
    process_from os output_size (step os tn.state tn c) (step_out output_size tn.state out c) cs

-- The output, whose length is `*output_len`, and the client.
unfoldable pub process_input : Os → Telnet → List ℕ → ℕ → List ℕ × Telnet
process_input os tn input output_size = process_from os output_size tn [] input
