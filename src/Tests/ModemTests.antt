-- ===== src/Tests/ModemTests.antt =====
-- Runs of the modem's model, and its theorems at concrete inputs.
use modembridge.Modem.Carrier.{process_dcd_change, is_online_state}
use modembridge.Modem.Carrier.Sound.{IsSound}
use modembridge.Modem.Hardware.Signals.{Signal, dcd_changed, signal, signals, signals-IsSound}
use modembridge.Prelude.{
  ℕ, ◌≡◌, ◌≢◌, refl, true, false, List, [], ◌∷◌, ◌++◌, arith, length, replicate, some, ◌⊎◌, ◌≤◌,
}
use modembridge.Common.{Status}
use modembridge.Modem.State.{
  Modem, Serial, command_mode, default_settings, default_registers, reset, write,
}
use modembridge.Modem.Response.{decimal, send_response, serial_write, ok_text}
use modembridge.Modem.Response.Spoken.{line}
use modembridge.Modem.Call.{set_sreg, go_online, get_sreg}
use modembridge.Modem.Command.{process_command, returned, out_of_fuel, to_upper}
use modembridge.Modem.Command.Ends.{process_command_terminates}
use modembridge.Modem.Command.Bounds.{IsValid, reset-IsValid}
use modembridge.Modem.Command.Registers.{assignment, query, process_command_registers}
use modembridge.Modem.Escape.{get_escape_guard_time, get_escape_character}
use modembridge.Modem.Escape.Detects.{has_three}
use modembridge.Modem.Input.{
  process_input, filter_hayes_data, starts_with_any, starts_with, prefix_length, process_chars,
  process_char, is_backspace, char_is, handle_command_echo, add_char, consumed_all,
}
use modembridge.Modem.Input.Valid.{process_input-IsValid}
use modembridge.Modem.Input.Online.{Passes, Escapes, process_input_online}

abbrev zeroed : Modem
zeroed = record {
  state = command_mode;
  settings = default_settings;
  cmd_buffer = [];
  online = false;
  carrier = false;
  escape_count = 0;
  last_escape_time = 0;
  hw_msg_buffer = [];
  hw_msg_last_time = 0;
  dcd_monitoring_enabled = false;
  last_dcd_state = false;
  last_dcd_check_time = 0;
  has_dcd_callback = false;
  actions = [];
}

-- A port that is open and takes every write.
abbrev serial : Serial
serial = record { written = λ log. some 9; is_open = λ log. true }

-- What the array of a command line holds before: "H", for one.
abbrev junk : List ℕ
junk = b'H' ∷ 0 ∷ replicate 30 b'x'

abbrev fresh : Modem
fresh = reset zeroed

abbrev with_s12 : Modem
with_s12 = (send_response serial ok_text (set_sreg 12 40 fresh).1).1

abbrev typed_a : List ℕ
typed_a = b'A' ∷ []

abbrev after_a : Modem
after_a = record fresh { cmd_buffer = typed_a; actions = write typed_a ∷ [] }

takes_a : process_input serial (λ n. junk) 100 typed_a fresh ≡ some (1, after_a)
unfolding process_input filter_hayes_data starts_with_any starts_with prefix_length process_chars
    process_char is_backspace char_is handle_command_echo add_char serial_write consumed_all reset
    to_upper default_registers
takes_a = refl

abbrev plus_data : List ℕ
plus_data = b'+' ∷ b'+' ∷ b'+' ∷ b'A' ∷ []

abbrev online_modem : Modem
online_modem = go_online fresh

online_guard : get_escape_guard_time online_modem ≡ some 2500
unfolding get_escape_guard_time get_sreg go_online reset default_registers
online_guard = refl

process_command_terminates_example : process_command serial junk (b'Z' ∷ []) fresh ≢ out_of_fuel
process_command_terminates_example = process_command_terminates serial junk (b'Z' ∷ []) fresh

fresh_speaks : (fresh.settings.quiet ≡ false) × (fresh.settings.verbose ≡ true)
unfolding reset
fresh_speaks = (refl, refl)

process_command_registers_example :
    let ok = line (b'O' ∷ b'K' ∷ []) in
    (status status' : Status) × (m' m'' : Modem) × (process_command serial junk
        (assignment 12 40)
        fresh
      ≡ returned (status, m'))
    × (process_command serial junk (query 12) m' ≡ returned (status', m''))
    × (m'.actions ≡ ok ∷ fresh.actions)
    × (m''.actions ≡ ok ∷ line (decimal 40) ∷ m'.actions)
process_command_registers_example =
    process_command_registers serial junk junk 12 40 fresh (omega arith) (omega arith) (omega arith)
      (omega arith) fresh_speaks.0 fresh_speaks.1

process_input-IsValid_example : (1 ≤ length typed_a) × IsValid after_a
process_input-IsValid_example =
    process_input-IsValid serial (λ n. junk) 100 typed_a fresh after_a 1 (reset-IsValid zeroed)
      takes_a

process_input_online_example :
    let e = get_escape_character online_modem in
    let found = has_three e (replicate online_modem.escape_count e ++ plus_data) in
    let r = process_input serial (λ n. junk) 100 plus_data online_modem in
    ((found ≡ false) × Passes (length plus_data) online_modem r)
    ⊎ ((found ≡ true) × Escapes (length plus_data) online_modem r)
process_input_online_example =
    process_input_online serial (λ n. junk) 100 2500 plus_data online_modem
      (unfold go_online in refl) online_guard (unfold go_online in omega arith)
      (unfold go_online in refl)

-- DCD rises and falls.
abbrev history : List Signal
history = dcd_changed true ∷ dcd_changed false ∷ []

abbrev after_history : Modem
after_history = process_dcd_change serial false (process_dcd_change serial true fresh)

runs_history : signals serial length history (some fresh) ≡ some after_history
unfolding signals signal
runs_history = refl

fresh-IsSound : IsSound fresh
unfolding reset is_online_state
fresh-IsSound = record { online_is = refl; message_fits = omega arith }

signals-IsSound_example :
    IsSound after_history × ((process_dcd_change serial false after_history).online ≡ false)
signals-IsSound_example =
    signals-IsSound serial length history fresh after_history fresh-IsSound runs_history
