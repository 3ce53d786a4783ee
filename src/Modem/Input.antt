-- ===== src/Modem/Input.antt =====
-- `modem_process_input` of src/modem.c, with `modem_filter_hayes_data` and
-- `modem_handle_command_echo`. A `char` is signed: a byte above 127 equals no register.
pub mod Valid
pub mod Online
use modembridge.Prelude.{
  ℕ, suc, ◌+◌, ◌-◌, Bool, true, false, ◌&&◌, ◌||◌, Option, none, some, List, [], ◌∷◌, ◌++◌, ltb,
  leb, ◌==◌, if◌then◌else◌, take, drop, length, map,
}
use modembridge.Modem.State.{Modem, Serial, cr_char, bs_char}
use modembridge.Modem.Response.{
  ok_text, error_text, connect_text, no_carrier_text, ring_text, no_dialtone_text, busy_text,
  no_answer_text, send_response, serial_write,
}
use modembridge.Modem.Call.{go_offline, answer}
use modembridge.Modem.Command.{to_upper, Outcome, returned, undefined, out_of_fuel, process_command}
use modembridge.Modem.Escape.{check_escape_sequence}

-- `strncmp` with the length of the text.
unfoldable pub starts_with : List ℕ → List ℕ → Bool
starts_with [] bytes = true
starts_with (x ∷ text) [] = false
starts_with (x ∷ text) (c ∷ bytes) = c == x && starts_with text bytes

-- Whether the bytes start with one of the texts.
unfoldable pub starts_with_any : List (List ℕ) → List ℕ → Bool
starts_with_any [] bytes = false
starts_with_any (text ∷ texts) bytes = starts_with text bytes || starts_with_any texts bytes

-- The length of the first text that the bytes start with in any case of letters.
unfoldable pub prefix_length : List (List ℕ) → List ℕ → ℕ
prefix_length [] bytes = 0
prefix_length (text ∷ texts) bytes =
    let more = prefix_length texts bytes in
    if starts_with text (map to_upper bytes) then length text else more

abbrev pub hayes_prefixes : List (List ℕ)
hayes_prefixes = ok_text ∷ error_text ∷ connect_text ∷ no_carrier_text ∷ ring_text ∷ []

abbrev pub hayes_responses : List (List ℕ)
hayes_responses = hayes_prefixes ++ (no_dialtone_text ∷ busy_text ∷ no_answer_text ∷ [])

-- `modem_filter_hayes_data`.
unfoldable pub filter_hayes_data : List ℕ → Bool → ℕ
filter_hayes_data bytes is_command_mode =
    if is_command_mode
    then if starts_with_any hayes_responses bytes
      then length bytes
      else prefix_length hayes_prefixes bytes
    else 0

-- A `char` against an `int` that is not negative.
unfoldable pub char_is : ℕ → ℕ → Bool
char_is c v = ltb c 128 && c == v

-- `"\b \b"`.
abbrev pub bs_seq : List ℕ
bs_seq = 8 ∷ b' ' ∷ 8 ∷ []

-- Whether the byte erases the one before.
unfoldable pub is_backspace : ℕ → Modem → Bool
is_backspace c modem = char_is c (modem.settings.s_registers bs_char) || c == 127

-- `modem_handle_command_echo`, of one byte.
unfoldable pub handle_command_echo : ℕ → Modem → Modem
handle_command_echo c modem =
    if modem.settings.echo
    then serial_write (if is_backspace c modem then bs_seq else c ∷ []) modem
    else modem

-- The command buffer without its last byte.
unfoldable pub drop_last : List ℕ → List ℕ
drop_last [] = []
drop_last (c ∷ []) = []
drop_last (c ∷ d ∷ bytes) = c ∷ drop_last (d ∷ bytes)

unfoldable pub backspace : Modem → Modem
backspace modem =
    let shorter = record modem { cmd_buffer = drop_last modem.cmd_buffer } in
    if length modem.cmd_buffer == 0
    then modem
    else if modem.settings.echo
    then serial_write bs_seq shorter
    else shorter

-- A defined outcome's modem.
unfoldable pub outcome_modem : Outcome → Option Modem
outcome_modem (returned r) = some r.1
outcome_modem undefined = none
outcome_modem out_of_fuel = none

-- The line in the command buffer, which is not empty.
unfoldable pub execute : Serial → List ℕ → List ℕ → Modem → Option Modem
execute serial before [] modem = some modem
execute serial before (a ∷ []) modem =
    some (if to_upper a == b'A' then answer modem else (send_response serial error_text modem).1)
execute serial before (a ∷ t ∷ command) modem =
    if to_upper a == b'A' && to_upper t == b'T'
    then outcome_modem (process_command serial before command modem)
    else some (send_response serial error_text modem).1

-- The modem without the line.
unfoldable pub cleared_line : Option Modem → Option Modem
cleared_line none = none
cleared_line (some modem) = some (record modem { cmd_buffer = [] })

unfoldable pub end_line : Serial → List ℕ → Modem → Option Modem
end_line serial before modem =
    if length modem.cmd_buffer == 0
    then some (send_response serial ok_text modem).1
    else cleared_line (execute serial before modem.cmd_buffer modem)

unfoldable pub add_char : Serial → ℕ → Modem → Modem
add_char serial c modem =
    if ltb (length modem.cmd_buffer) 1023
    then record modem { cmd_buffer = modem.cmd_buffer ++ (c ∷ []) }
    else (send_response serial error_text (record modem { cmd_buffer = [] })).1

-- One byte in command mode; `before` is what the array of `modem_process_command` holds.
unfoldable pub process_char : Serial → List ℕ → ℕ → Modem → Option Modem
process_char serial before c modem =
    let echoed = if c == 0 then modem else handle_command_echo c modem in
    if is_backspace c modem
    then some (backspace echoed)
    else if char_is c (modem.settings.s_registers cr_char) || c == 10
    then end_line serial before echoed
    else some (add_char serial c echoed)

-- The bytes in command mode; `stack` gives the array's content at each byte, by the number of bytes
-- behind it.
unfoldable pub process_chars : Serial → (ℕ → List ℕ) → List ℕ → Option Modem → Option Modem
process_chars serial stack bytes none = none
process_chars serial stack [] (some modem) = some modem
process_chars serial stack (c ∷ bytes) (some modem) =
    process_chars serial stack bytes (process_char serial (stack (length bytes)) c modem)

-- The answer to a found escape sequence, and what is consumed.
unfoldable pub escaped : Serial → ℕ → Option (Bool × ℕ × Modem) → Option (ℕ × Modem)
escaped serial len none = none
escaped serial len (some (detected, consumed, modem)) = some (
    if detected
    then (consumed, (send_response serial ok_text (go_offline modem)).1)
    else (len, modem))

-- In command mode every byte is consumed.
unfoldable pub consumed_all : ℕ → Option Modem → Option (ℕ × Modem)
consumed_all len none = none
consumed_all len (some modem) = some (len, modem)

-- `modem_process_input`: the number of bytes consumed, and the modem.
unfoldable pub process_input : Serial → (ℕ → List ℕ) → ℕ → List ℕ → Modem → Option (ℕ × Modem)
process_input serial stack now bytes modem =
    if modem.online
    then escaped serial (length bytes) (check_escape_sequence now bytes modem)
    else consumed_all (length bytes)
        (process_chars serial stack (drop (filter_hayes_data bytes true) bytes) (some modem))
