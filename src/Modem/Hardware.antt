-- ===== src/Modem/Hardware.antt =====
-- `modem_process_hardware_message` of src/modem.c, with `modem_baudrate_to_speed_t`.
pub mod Agrees
pub mod Signals
use modembridge.Prelude.{
  ℕ, zero, suc, ◌+◌, ◌-◌, Bool, true, false, not, ◌&&◌, ◌||◌, Option, none, some, List, [], ◌∷◌,
  ◌++◌, ltb, leb, ◌==◌, if◌then◌else◌, take, length,
}
use modembridge.Modem.State.{
  Modem, ModemState, online_mode, connecting, disconnected, Serial, set_baudrate, ring_count,
  auto_answer, int_bound, put_sreg,
}
use modembridge.Modem.Response.{
  connect_text, no_carrier_text, ring_text, no_dialtone_text, busy_text, serial_write,
}
use modembridge.Modem.Input.{starts_with}
use modembridge.Modem.Carrier.{
  is_online_state, call, process_dcd_change, handle_no_carrier_termination,
}

-- The bytes before the first NUL.
unfoldable pub c_string : List ℕ → List ℕ
c_string [] = []
c_string (c ∷ bytes) = if c == 0 then [] else c ∷ c_string bytes

-- `strstr`: what stands from the first place of the text on.
unfoldable pub find : List ℕ → List ℕ → Option (List ℕ)
find text [] = if starts_with text [] then some [] else none
find text (c ∷ bytes) =
    let later = find text bytes in if starts_with text (c ∷ bytes) then some (c ∷ bytes) else later

unfoldable pub is_some : Option (List ℕ) → Bool
is_some none = false
is_some (some bytes) = true

unfoldable pub contains : List ℕ → List ℕ → Bool
contains text bytes = is_some (find text bytes)

unfoldable pub has_line_end : List ℕ → Bool
has_line_end bytes = contains (13 ∷ []) bytes || contains (10 ∷ []) bytes

-- The texts that the hardware modem sends when a line drops.
unfoldable pub has_disconnection : List ℕ → Bool
has_disconnection message =
    contains no_carrier_text message
    || (contains no_dialtone_text message || contains busy_text message)

-- As much of the bytes as the buffer takes, beside its NUL.
unfoldable pub append_message : ℕ → List ℕ → Modem → Modem
append_message now bytes modem =
    let space = 1023 - length modem.hw_msg_buffer in
    if space == 0 then modem else record modem {
      hw_msg_buffer = modem.hw_msg_buffer ++ take space bytes;
      hw_msg_last_time = now;
    }

unfoldable pub clear_message : Modem → Modem
clear_message modem = record modem { hw_msg_buffer = [] }

-- A disconnection seen online.
unfoldable pub dropped : Serial → Modem → Modem
dropped serial modem = record (process_dcd_change serial false modem) {
  state = disconnected;
  online = false;
  carrier = false;
}

-- The message in the state ONLINE, with the bytes in the buffer.
unfoldable pub watch_online : Serial → Modem → Bool × Modem
watch_online serial modem =
    let message = c_string modem.hw_msg_buffer in
    if has_line_end message || ltb 64 (length modem.hw_msg_buffer)
    then if has_disconnection message
      then (true, clear_message (dropped serial modem))
      else (false, clear_message modem)
    else (false, modem)

-- A message that waited for more than 20 seconds is dropped.
unfoldable pub expire_message : ℕ → Modem → Modem
expire_message now modem =
    if ltb 0 (length modem.hw_msg_buffer) && ltb (modem.hw_msg_last_time + 20) now
    then clear_message modem
    else modem

-- `"ATA\r\n"`.
abbrev pub ata_cmd : List ℕ
ata_cmd = b'A' ∷ b'T' ∷ b'A' ∷ 13 ∷ 10 ∷ []

-- `sent > 0`.
unfoldable pub is_sent : Option ℕ → Bool
is_sent none = false
is_sent (some n) = ltb 0 n

-- The call is being answered.
unfoldable pub answering : Modem → Modem
answering modem = put_sreg ring_count 0 (record modem { state = connecting })

-- A RING, of a modem whose ring counter has counted it.
unfoldable pub ring : Serial → Modem → Modem
ring serial modem =
    let rings = modem.settings.s_registers ring_count in
    let threshold = modem.settings.s_registers auto_answer in
    let asked = serial_write ata_cmd modem in
    if ltb 0 threshold && leb threshold rings
    then answering modem
    else if threshold == 0 && leb 2 rings
    then if is_sent (serial.written asked.actions) then answering asked else asked
    else modem

-- `modem_baudrate_to_speed_t`, by the baud rate that the constant names.
unfoldable pub baudrate_to_speed_t : ℕ → ℕ
baudrate_to_speed_t baudrate =
    if baudrate == 300
      || (baudrate == 1200
          || (baudrate == 2400
              || (baudrate == 4800
                  || (baudrate == 9600
                      || (baudrate == 19200
                          || (baudrate == 38400
                              || (baudrate == 57600
                                  || (baudrate == 115200 || baudrate == 230400))))))))
    then baudrate
    else 9600

-- The number behind the first space, by `atoi`, which is 0 where the number is negative.
unfoldable pub speed_after : (List ℕ → ℕ) → Option (List ℕ) → ℕ
speed_after atoi none = 0
speed_after atoi (some []) = 0
speed_after atoi (some (space ∷ bytes)) = atoi bytes

-- A complete CONNECT, from its place on.
unfoldable pub connected : Serial → (List ℕ → ℕ) → List ℕ → Modem → Modem
connected serial atoi message modem =
    let baudrate = speed_after atoi (find (b' ' ∷ []) message) in
    let adjusted =
      if ltb 0 baudrate then call (set_baudrate (baudrate_to_speed_t baudrate)) modem else modem in
    process_dcd_change serial true
      (record adjusted { state = online_mode; online = true; carrier = true })

unfoldable pub ends_line : List ℕ → Bool
ends_line [] = false
ends_line (c ∷ []) = false
ends_line (c ∷ d ∷ []) = c == 13 && d == 10
ends_line (c ∷ d ∷ e ∷ bytes) = ends_line (d ∷ e ∷ bytes)

-- A complete line that begins none of the messages.
unfoldable pub is_unknown : List ℕ → Bool
is_unknown message =
    ends_line message
    && not (
        leb (length message) 3
        || (contains (b'C' ∷ b'O' ∷ b'N' ∷ []) message
            || (contains (b'R' ∷ b'I' ∷ b'N' ∷ []) message
                || contains (b'N' ∷ b'O' ∷ b' ' ∷ []) message)))

-- The message behind a CONNECT, if there is one, and else the others.
unfoldable pub other_message :
    Serial → (List ℕ → ℕ) → List ℕ → Option (List ℕ) → Modem → Bool × Modem
other_message serial atoi message (some from_connect) modem =
    if has_line_end from_connect
    then (true, clear_message (connected serial atoi from_connect modem))
    else (false, modem)
other_message serial atoi message none modem =
    if contains no_carrier_text message
      || contains (b'N' ∷ b'O' ∷ b' ' ∷ b'C' ∷ b'A' ∷ b'R' ∷ []) message
    then (true, clear_message (handle_no_carrier_termination serial modem))
    else if is_unknown message
    then (false, clear_message modem)
    else (false, modem)

-- The ring counter counts on, within the `int`.
unfoldable pub count_ring : Modem → Option Modem
count_ring modem =
    let rings = modem.settings.s_registers ring_count in
    if ltb (rings + 1) int_bound then some (put_sreg ring_count (rings + 1) modem) else none

unfoldable pub rung : Serial → Option Modem → Option (Bool × Modem)
rung serial none = none
rung serial (some modem) = some (true, clear_message (ring serial modem))

-- The messages in the other states, with the bytes in the buffer.
unfoldable pub read_message : Serial → (List ℕ → ℕ) → Modem → Option (Bool × Modem)
read_message serial atoi modem =
    let message = c_string modem.hw_msg_buffer in
    if contains ring_text message
    then rung serial (count_ring modem)
    else some (other_message serial atoi message (find connect_text message) modem)

-- `modem_process_hardware_message`, at one time: whether it was a message, and the modem.
unfoldable pub process_hardware_message :
    Serial → (List ℕ → ℕ) → ℕ → List ℕ → Modem → Option (Bool × Modem)
process_hardware_message serial atoi now bytes modem =
    if length bytes == 0
    then some (false, modem)
    else if is_online_state modem.state
    then some (watch_online serial (append_message now bytes modem))
    else read_message serial atoi (append_message now bytes (expire_message now modem))
