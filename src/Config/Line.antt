-- ===== src/Config/Line.antt =====
-- `parse_config_line` and `config_load` of src/config.c, with `trim_whitespace` of src/common.c. What
-- `atoi` answers is a parameter.
pub mod Ranges
pub mod Trim
pub mod Layout
use modembridge.Prelude.{
  ℕ, zero, suc, ◌+◌, ◌-◌, Bool, true, false, not, ◌&&◌, ◌||◌, Option, none, some, List, [], ◌∷◌,
  ◌++◌, ltb, leb, ◌==◌, if◌then◌else◌, take, length,
}
use modembridge.Common.{Status, success, error_config}
use modembridge.Config.Words.{
  serial_port_key, comport_key, baudrate_key, bit_parity_key, bit_data_key, bit_stop_key, flow_key,
  modem_init_key, autoanswer_mode_key, autoanswer_software_key, autoanswer_hardware_key,
  autoanswer_key, modem_command_key, modem_health_key, telnet_host_key, telnet_port_key,
  data_log_enabled_key, data_log_file_key, echo_enabled_key, echo_immediate_key,
  echo_first_delay_key, echo_min_interval_key, echo_prefix_key,
}
use modembridge.Config.State.{
  ℤ, pos, negsuc, Config, is_int, same_nocase, baudrate_to_speed, str_to_parity, str_to_flow,
}

-- `isspace`.
unfoldable pub is_space : ℕ → Bool
is_space c = c == b' ' || leb 9 c && leb c 13

-- The bytes before the first such byte.
unfoldable pub before : ℕ → List ℕ → List ℕ
before stop [] = []
before stop (c ∷ line) = if c == stop then [] else c ∷ before stop line

-- The bytes behind the first such byte.
unfoldable pub behind : ℕ → List ℕ → Option (List ℕ)
behind stop [] = none
behind stop (c ∷ line) = let later = behind stop line in if c == stop then some line else later

unfoldable pub trim_left : List ℕ → List ℕ
trim_left [] = []
trim_left (c ∷ text) = let rest = trim_left text in if is_space c then rest else c ∷ text

-- The text without the blanks at its end: a blank stays where something else follows.
unfoldable pub trim_right : List ℕ → List ℕ
trim_right [] = []
trim_right (c ∷ text) =
    let rest = trim_right text in if is_space c && length rest == 0 then [] else c ∷ rest

-- `trim_whitespace`.
unfoldable pub trim_whitespace : List ℕ → List ℕ
trim_whitespace text = trim_right (trim_left text)

-- The text without a quote at its end.
unfoldable pub without_last : List ℕ → Option (List ℕ)
without_last [] = none
without_last (c ∷ []) = if c == 34 then some [] else none
without_last (c ∷ d ∷ text) = elim (without_last (d ∷ text)) [
  | none ↦ none
  | some rest ↦ some (c ∷ rest)
]

-- The value, of its first byte, the others, and the others without a quote at their end.
unfoldable pub unquoted : ℕ → List ℕ → Option (List ℕ) → List ℕ
unquoted c text none = c ∷ text
unquoted c text (some rest) = if c == 34 then rest else c ∷ text

-- The value without its quotes; a single quote is both the first and the last.
unfoldable pub unquote : List ℕ → List ℕ
unquote [] = []
unquote (c ∷ []) = if c == 34 then [] else c ∷ []
unquote (c ∷ d ∷ text) = unquoted c (d ∷ text) (without_last (d ∷ text))

-- One of two numbers, and else the default.
unfoldable pub one_of : ℕ → ℕ → ℤ → ℤ → ℤ
one_of a b default n = if is_int a n || is_int b n then n else default

unfoldable pub at_least : ℕ → ℤ → ℤ
at_least low (pos n) = if ltb n low then pos low else pos n
at_least low (negsuc n) = pos low

-- The baud rate: one that is not listed, unless it is 0, gives the default.
unfoldable pub set_baudrate : ℤ → Config → Config
set_baudrate n cfg =
    let speed = baudrate_to_speed n in
    if speed == 0 && not (is_int 0 n)
    then record cfg { baudrate = 57600; baudrate_value = pos 57600 }
    else record cfg { baudrate = speed; baudrate_value = n }

-- The keys from MODEM_HEALTH_COMMAND on. An unknown key changes nothing.
unfoldable pub assign_late : (List ℕ → ℤ) → List ℕ → List ℕ → Config → Config
assign_late atoi key value cfg =
    if same_nocase key modem_health_key
    then record cfg { modem_command = take 1023 value }
    else if same_nocase key telnet_host_key
    then record cfg { telnet_host = take 255 value }
    else if same_nocase key telnet_port_key
    then record cfg { telnet_port = atoi value }
    else if same_nocase key data_log_enabled_key
    then record cfg { data_log_enabled = not (is_int 0 (atoi value)) }
    else if same_nocase key data_log_file_key
    then record cfg { data_log_file = take 255 value }
    else if same_nocase key echo_enabled_key
    then record cfg { echo_enabled = not (is_int 0 (atoi value)) }
    else if same_nocase key echo_immediate_key
    then record cfg { echo_immediate = not (is_int 0 (atoi value)) }
    else if same_nocase key echo_first_delay_key
    then record cfg { echo_first_delay = at_least 0 (atoi value) }
    else if same_nocase key echo_min_interval_key
    then record cfg { echo_min_interval = at_least 1 (atoi value) }
    else if same_nocase key echo_prefix_key
    then record cfg { echo_prefix = take 63 value }
    else cfg

-- The setting of a key.
unfoldable pub assign : (List ℕ → ℤ) → List ℕ → List ℕ → Config → Config
assign atoi key value cfg =
    if same_nocase key serial_port_key || same_nocase key comport_key
    then record cfg { serial_port = take 255 value }
    else if same_nocase key baudrate_key
    then set_baudrate (atoi value) cfg
    else if same_nocase key bit_parity_key
    then record cfg { parity = str_to_parity value }
    else if same_nocase key bit_data_key
    then record cfg { data_bits = one_of 7 8 (pos 8) (atoi value) }
    else if same_nocase key bit_stop_key
    then record cfg { stop_bits = one_of 1 2 (pos 1) (atoi value) }
    else if same_nocase key flow_key
    then record cfg { flow_control = str_to_flow value }
    else if same_nocase key modem_init_key
    then record cfg { modem_init_command = take 1023 value }
    else if same_nocase key autoanswer_mode_key
    then record cfg { modem_autoanswer_mode = one_of 0 1 (pos 0) (atoi value) }
    else if same_nocase key autoanswer_software_key
    then record cfg { modem_autoanswer_software_command = take 1023 value }
    else if same_nocase key autoanswer_hardware_key
    then record cfg { modem_autoanswer_hardware_command = take 1023 value }
    else if same_nocase key autoanswer_key
    then record cfg { modem_autoanswer_software_command = take 1023 value }
    else if same_nocase key modem_command_key
    then record cfg { modem_init_command = take 1023 value }
    else assign_late atoi key value cfg

-- The line from its first byte that is no blank on, before any comment.
unfoldable pub parse_trimmed : (List ℕ → ℤ) → List ℕ → Option (List ℕ) → Config → Status × Config
parse_trimmed atoi line none cfg = if length line == 0 then (success, cfg) else (error_config, cfg)
parse_trimmed atoi line (some value) cfg = (
  success,
  assign atoi (trim_whitespace (before b'=' line)) (unquote (trim_whitespace value)) cfg,
)

-- `parse_config_line`.
unfoldable pub parse_config_line : (List ℕ → ℤ) → List ℕ → Config → Status × Config
parse_config_line atoi line cfg =
    let trimmed = trim_whitespace (before b'#' line) in
    parse_trimmed atoi trimmed (behind b'=' trimmed) cfg

-- `config_load`, of the lines that `fgets` gives, without their line ends. A line that is refused
-- changes nothing and is only logged.
unfoldable pub load : (List ℕ → ℤ) → List (List ℕ) → Config → Config
load atoi [] cfg = cfg
load atoi (line ∷ lines) cfg = load atoi lines (parse_config_line atoi line cfg).1
