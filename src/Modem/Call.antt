-- ===== src/Modem/Call.antt =====
-- The modem's calls of src/modem.c: `modem_go_online`, `modem_go_offline`, `modem_hangup`,
-- `modem_answer`, `modem_set_carrier`, `modem_get_sreg` and `modem_set_sreg`, and
-- `modem_show_configuration`. The functions that always succeed return the modem alone.
use modembridge.Prelude.{
  ℕ, zero, suc, ◌+◌, ◌-◌, Bool, true, false, List, [], ◌∷◌, ◌++◌, leb, if◌then◌else◌, take, length,
}
use modembridge.Common.{Status, success, error_invalid_arg}
use modembridge.Modem.State.{
  Modem, command_mode, online_mode, connecting, disconnected, Settings, Serial, Action, flush_input,
  flush_output, disable_carrier_detect, dtr_drop_hangup, at_command, set_dtr, set_rts, ring_count,
  put_sreg,
}
use modembridge.Modem.Response.{send_response, decimal}

-- `modem_get_sreg`.
unfoldable pub get_sreg : Modem → ℕ → ℕ
get_sreg modem reg = if leb reg 255 then modem.settings.s_registers reg else 0

-- `modem_set_sreg`.
unfoldable pub set_sreg : ℕ → ℕ → Modem → Status × Modem
set_sreg reg value modem =
    if leb reg 255 then (success, put_sreg reg value modem) else (error_invalid_arg, modem)

-- `modem_go_online`.
unfoldable pub go_online : Modem → Modem
go_online modem = record modem {
  state = online_mode;
  online = true;
  carrier = true;
  escape_count = 0;
  last_escape_time = 0;
  actions = set_rts true ∷ set_dtr true ∷ modem.actions;
}

-- `modem_go_offline`, which keeps the carrier.
unfoldable pub go_offline : Modem → Modem
go_offline modem = record modem {
  state = command_mode;
  online = false;
  escape_count = 0;
  last_escape_time = 0;
  cmd_buffer = [];
}

-- The calls of the serial port in `modem_hangup`, the newest first.
abbrev pub hangup_actions : List Action
hangup_actions =
    flush_output
    ∷ flush_input
    ∷ dtr_drop_hangup
    ∷ at_command (b'A' ∷ b'T' ∷ b'H' ∷ [])
    ∷ disable_carrier_detect
    ∷ flush_output
    ∷ flush_input
    ∷ []

-- `modem_hangup`; what the `ATH` and the drop of DTR answer is only logged.
unfoldable pub hangup : Serial → Modem → Modem
hangup serial modem =
    let dropped = record modem { state = disconnected; online = false; carrier = false } in
    let quiet = put_sreg ring_count 0 dropped in
    if serial.is_open modem.actions
    then record quiet { actions = hangup_actions ++ modem.actions }
    else quiet

-- `modem_answer`.
unfoldable pub answer : Modem → Modem
answer modem = put_sreg ring_count 0 (record modem { state = connecting })

-- `modem_set_carrier`.
unfoldable pub set_carrier : Modem → Bool → Modem
set_carrier modem state = record modem { carrier = state }

-- A flag as `%d` prints it.
unfoldable pub flag : Bool → List ℕ
flag true = b'1' ∷ []
flag false = b'0' ∷ []

-- The lines of the settings in `modem_show_configuration`.
unfoldable pub basic_line : Settings → List ℕ
basic_line s =
    (b'E' ∷ flag s.echo)
    ++ ((b' ' ∷ b'Q' ∷ flag s.quiet)
        ++ ((b' ' ∷ b'V' ∷ flag s.verbose) ++ (b' ' ∷ b'X' ∷ decimal s.result_mode)))

unfoldable pub signal_line : Settings → List ℕ
signal_line s =
    (b'&' ∷ b'C' ∷ decimal s.dcd_mode)
    ++ ((b' ' ∷ b'&' ∷ b'D' ∷ decimal s.dtr_mode) ++ (b' ' ∷ b'&' ∷ b'S' ∷ decimal s.dsr_mode))

unfoldable pub other_line : Settings → List ℕ
other_line s =
    (b'B' ∷ decimal s.bell_mode)
    ++ ((b' ' ∷ b'L' ∷ decimal s.speaker_volume)
        ++ ((b' ' ∷ b'M' ∷ decimal s.speaker_control)
            ++ (b' ' ∷ b'\\' ∷ b'N' ∷ decimal s.error_correction)))

-- `%0<width>d`.
unfoldable pub pad : ℕ → List ℕ → List ℕ
pad zero text = text
pad (suc n) text = b'0' ∷ pad n text

unfoldable pub padded : ℕ → ℕ → List ℕ
padded width n = pad (width - length (decimal n)) (decimal n)

-- One register as `S%02d:%03d `, cut to the 20 bytes of `reg_str`.
unfoldable pub register_text : Settings → ℕ → List ℕ
register_text s i =
    take 19 (b'S' ∷ (padded 2 i ++ (b':' ∷ (padded 3 (s.s_registers i) ++ (b' ' ∷ [])))))

-- Four registers from the one given on.
unfoldable pub register_line : Settings → ℕ → List ℕ
register_line s i =
    register_text s i
    ++ (register_text s (i + 1) ++ (register_text s (i + 2) ++ register_text s (i + 3)))

abbrev pub active_profile_text : List ℕ
active_profile_text =
    b'A' ∷ b'C' ∷ b'T' ∷ b'I' ∷ b'V' ∷ b'E' ∷ b' ' ∷ b'P' ∷ b'R' ∷ b'O' ∷ b'F' ∷ b'I' ∷ b'L' ∷ b'E'
    ∷ b':' ∷ []

abbrev pub s_registers_text : List ℕ
s_registers_text =
    b'S' ∷ b'-' ∷ b'R' ∷ b'E' ∷ b'G' ∷ b'I' ∷ b'S' ∷ b'T' ∷ b'E' ∷ b'R' ∷ b'S' ∷ b':' ∷ []

-- The lines that `modem_show_configuration` sends before the last response.
unfoldable pub configuration_lines : Settings → List (List ℕ)
configuration_lines s =
    active_profile_text
    ∷ basic_line s
    ∷ signal_line s
    ∷ other_line s
    ∷ []
    ∷ s_registers_text
    ∷ register_line s 0
    ∷ register_line s 4
    ∷ register_line s 8
    ∷ register_line s 12
    ∷ []

-- Responses whose results nobody looks at.
unfoldable pub send_lines : Serial → List (List ℕ) → Modem → Modem
send_lines serial [] modem = modem
send_lines serial (line ∷ lines) modem = send_lines serial lines (send_response serial line modem).1

-- `modem_show_configuration` up to the last response, which is `OK`.
unfoldable pub show_configuration : Serial → Modem → Modem
show_configuration serial modem = send_lines serial (configuration_lines modem.settings) modem
