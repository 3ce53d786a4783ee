-- ===== src/Telnet/Subnegotiate.antt =====
-- Subnegotiation of src/telnet.c: `telnet_send_subnegotiation` and
-- `telnet_handle_subnegotiation`, for the terminal type (RFC 1091) and LINEMODE (RFC 1184).
pub mod Modes
pub mod Frame
use modembridge.Prelude.{
  ℕ, ◌+◌, ◌-◌, Bool, not, ◌||◌, List, [], ◌∷◌, ◌++◌, bit_and, ltb, ◌==◌, if◌then◌else◌,
}
use modembridge.Common.{Status, success, error_invalid_arg, buffer_size}
use modembridge.Telnet.State.{Os, Telnet, is_open}
use modembridge.Telnet.Negotiate.{send_control, update_mode}
use modembridge.Telnet.Byte
use modembridge.Telnet.Telopt

-- TTYPE_IS, TTYPE_SEND, LM_MODE, MODE_EDIT and MODE_ACK.
abbrev pub ttype_is : ℕ
ttype_is = 0

abbrev pub ttype_send : ℕ
ttype_send = 1

abbrev pub lm_mode : ℕ
lm_mode = 1

abbrev pub mode_edit : ℕ
mode_edit = 0x01

abbrev pub mode_ack : ℕ
mode_ack = 0x04

-- The loop over the data, from buffer position `pos` on: what it writes.
unfoldable pub frame_body : ℕ → List ℕ → List ℕ
frame_body pos [] = []
frame_body pos (c ∷ cs) =
    let escaped = Byte.iac ∷ Byte.iac ∷ frame_body (pos + 2) cs in
    let plain = c ∷ frame_body (pos + 1) cs in
    if ltb pos (buffer_size - 2) then (if c == Byte.iac then escaped else plain) else []

-- The frame that is built in `buf`.
unfoldable pub frame : List ℕ → List ℕ
unfolding frame_body
frame payload = Byte.iac ∷ Byte.sb ∷ (frame_body 2 payload ++ Byte.iac ∷ Byte.se ∷ [])

unfoldable pub send_subnegotiation : Os → Telnet → List ℕ → Status × Telnet
unfolding send_control
send_subnegotiation os tn [] = (error_invalid_arg, tn)
send_subnegotiation os tn (c ∷ cs) =
    if is_open tn.fd then send_control os tn (frame (c ∷ cs)) else (error_invalid_arg, tn)

-- `case TELOPT_TTYPE`; the list is `sb_buffer` from index 1 on.
unfoldable pub handle_ttype : Os → Telnet → List ℕ → Telnet
handle_ttype os tn [] = tn
handle_ttype os tn (code ∷ _) =
    if code == ttype_send
    then (send_subnegotiation os tn (Telopt.ttype ∷ ttype_is ∷ tn.terminal_type)).1
    else tn

abbrev pub has_bit : ℕ → ℕ → Bool
has_bit mode bit = not (bit_and mode bit == 0)

abbrev pub same_bool : Bool → Bool → Bool
same_bool a b = if a then b else not b

-- A MODE subnegotiation.
unfoldable pub handle_mode : Os → Telnet → ℕ → Telnet
handle_mode os tn mode =
    let t1 = record tn { linemode_edit = has_bit mode mode_edit } in
    let t2 =
      if has_bit mode mode_ack
      then (send_subnegotiation os t1 (Telopt.linemode ∷ lm_mode ∷ mode ∷ [])).1
      else t1 in
    if same_bool tn.linemode_edit t2.linemode_edit then t2 else update_mode t2

-- `case TELOPT_LINEMODE`; FORWARDMASK and SLC are only logged.
unfoldable pub handle_linemode : Os → Telnet → List ℕ → Telnet
unfolding handle_mode
handle_linemode os tn (code ∷ mode ∷ _) = if code == lm_mode then handle_mode os tn mode else tn
handle_linemode os tn _ = tn

-- The switch of `telnet_handle_subnegotiation`.
unfoldable pub handle_option : Os → Telnet → ℕ → List ℕ → Telnet
handle_option os tn option rest =
    if option == Telopt.ttype
    then handle_ttype os tn rest
    else if option == Telopt.linemode
    then handle_linemode os tn rest
    else tn

-- The list is `sb_buffer`.
unfoldable pub handle_subnegotiation_of : Os → Telnet → List ℕ → Status × Telnet
unfolding handle_option
handle_subnegotiation_of os tn [] = (error_invalid_arg, tn)
handle_subnegotiation_of os tn (option ∷ rest) = (success, handle_option os tn option rest)

unfoldable pub handle_subnegotiation : Os → Telnet → Status × Telnet
unfolding handle_subnegotiation_of
handle_subnegotiation os tn = handle_subnegotiation_of os tn tn.sb_buffer
