-- ===== src/Config/State.antt =====
-- The settings of include/config.h (`config_t`), and `config_init`, `config_validate` and the
-- conversions of src/config.c.
use modembridge.Prelude.{
  ℕ, Bool, true, false, not, ◌&&◌, List, [], ◌∷◌, map, ltb, leb, ◌==◌, if◌then◌else◌, length,
}
use modembridge.Common.{Status, success, error_config}
use modembridge.Config.Words.{
  none_word, even_word, odd_word, xon_word, rts_word, both_word, default_serial_text,
  default_host_text, default_pid_text, default_log_text, default_prefix_text,
}
use modembridge.Modem.Response.{same}
use modembridge.Modem.Command.{to_upper}

-- An `int`.
pub data ℤ : Type 0 where
  pos : ℕ → ℤ
  negsuc : ℕ → ℤ

-- `parity_t` and `flow_control_t`.
pub data Parity : Type 0 where
  parity_none parity_even parity_odd : Parity

pub data FlowControl : Type 0 where
  flow_none flow_xonxoff flow_rtscts flow_both : FlowControl

-- `config_t`. A text is the bytes before its NUL; `baudrate` is the rate that the constant names, 0
-- for `B0`.
pub record Config : Type 0 where
  pub serial_port : List ℕ
  pub baudrate : ℕ
  pub baudrate_value : ℤ
  pub parity : Parity
  pub data_bits : ℤ
  pub stop_bits : ℤ
  pub flow_control : FlowControl
  pub modem_init_command : List ℕ
  pub modem_autoanswer_mode : ℤ
  pub modem_autoanswer_software_command : List ℕ
  pub modem_autoanswer_hardware_command : List ℕ
  pub modem_command : List ℕ
  pub telnet_host : List ℕ
  pub telnet_port : ℤ
  pub daemon_mode : Bool
  pub pid_file : List ℕ
  pub data_log_enabled : Bool
  pub data_log_file : List ℕ
  pub echo_enabled : Bool
  pub echo_immediate : Bool
  pub echo_first_delay : ℤ
  pub echo_min_interval : ℤ
  pub echo_prefix : List ℕ

-- `config_init`, without the log level.
abbrev pub init : Config
init = record {
  serial_port = default_serial_text;
  baudrate = 57600;
  baudrate_value = pos 57600;
  parity = parity_none;
  data_bits = pos 8;
  stop_bits = pos 1;
  flow_control = flow_rtscts;
  modem_init_command = [];
  modem_autoanswer_mode = pos 0;
  modem_autoanswer_software_command = [];
  modem_autoanswer_hardware_command = [];
  modem_command = [];
  telnet_host = default_host_text;
  telnet_port = pos 23;
  daemon_mode = false;
  pid_file = default_pid_text;
  data_log_enabled = false;
  data_log_file = default_log_text;
  echo_enabled = false;
  echo_immediate = true;
  echo_first_delay = pos 5;
  echo_min_interval = pos 2;
  echo_prefix = default_prefix_text;
}

-- An `int` against a number.
unfoldable pub is_int : ℕ → ℤ → Bool
is_int n (pos k) = k == n
is_int n (negsuc k) = false

-- `strcasecmp(a, b) == 0`.
unfoldable pub same_nocase : List ℕ → List ℕ → Bool
same_nocase a b = same (map to_upper a) (map to_upper b)

-- `config_baudrate_to_speed`, over the rates of `baudrate_map`.
unfoldable pub listed_rate : List ℕ → ℕ → ℕ
listed_rate [] n = 0
listed_rate (rate ∷ rates) n = if rate == n then rate else listed_rate rates n

abbrev pub baudrate_map : List ℕ
baudrate_map = 300 ∷ 1200 ∷ 2400 ∷ 4800 ∷ 9600 ∷ 19200 ∷ 38400 ∷ 57600 ∷ 115200 ∷ 230400 ∷ []

unfoldable pub baudrate_to_speed : ℤ → ℕ
baudrate_to_speed (pos n) = listed_rate baudrate_map n
baudrate_to_speed (negsuc n) = 0

-- `config_str_to_parity` and `config_parity_to_str`.
unfoldable pub str_to_parity : List ℕ → Parity
str_to_parity text =
    if same_nocase text none_word
    then parity_none
    else if same_nocase text even_word
    then parity_even
    else if same_nocase text odd_word
    then parity_odd
    else parity_none

unfoldable pub parity_to_str : Parity → List ℕ
parity_to_str parity_none = none_word
parity_to_str parity_even = even_word
parity_to_str parity_odd = odd_word

-- `config_str_to_flow` and `config_flow_to_str`.
unfoldable pub str_to_flow : List ℕ → FlowControl
str_to_flow text =
    if same_nocase text none_word
    then flow_none
    else if same_nocase text xon_word
    then flow_xonxoff
    else if same_nocase text rts_word
    then flow_rtscts
    else if same_nocase text both_word
    then flow_both
    else flow_none

unfoldable pub flow_to_str : FlowControl → List ℕ
flow_to_str flow_none = none_word
flow_to_str flow_xonxoff = xon_word
flow_to_str flow_rtscts = rts_word
flow_to_str flow_both = both_word

-- A port of TCP.
unfoldable pub is_port : ℤ → Bool
is_port (pos n) = ltb 0 n && leb n 65535
is_port (negsuc n) = false

-- `config_validate`.
unfoldable pub validate : Config → Status
validate cfg =
    if length cfg.serial_port == 0
    then error_config
    else if cfg.baudrate == 0
    then error_config
    else if not (is_int 7 cfg.data_bits) && not (is_int 8 cfg.data_bits)
    then error_config
    else if not (is_int 1 cfg.stop_bits) && not (is_int 2 cfg.stop_bits)
    then error_config
    else if length cfg.telnet_host == 0
    then error_config
    else if not (is_port cfg.telnet_port)
    then error_config
    else success
