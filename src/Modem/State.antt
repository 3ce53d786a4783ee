-- ===== src/Modem/State.antt =====
-- The modem of include/modem.h (`modem_t`, `modem_settings_t`), what it asks of the serial port, and
-- `modem_init` and `modem_reset` of src/modem.c. A character is its byte, an `int` that the code never
-- makes negative is its value.
use modembridge.Prelude.{ℕ, Bool, true, false, List, [], ◌==◌, if◌then◌else◌, Option}

-- `modem_state_t`.
pub data ModemState : Type 0 where
  command_mode online_mode ringing connecting disconnected : ModemState

-- The calls of src/serial.c that the modem makes; `notify_dcd` is the callback for DCD events, and
-- `at_command` is `modem_send_at_command`, which
-- changes nothing in the modem.
pub data Action : Type 0 where
  write : List ℕ → Action
  flush_input flush_output disable_carrier_detect enable_carrier_detect dtr_drop_hangup : Action
  at_command : List ℕ → Action
  set_dtr : Bool → Action
  set_rts : Bool → Action
  set_baudrate : ℕ → Action
  notify_dcd : Bool → Action

-- What the serial port answers after the calls so far, the newest first: how many bytes the last
-- write took, or an error, and whether there is an open port.
pub record Serial : Type 0 where
  pub written : List Action → Option ℕ
  pub is_open : List Action → Bool

-- `modem_settings_t`. The registers are numbered up to 255.
pub record Settings : Type 0 where
  pub echo : Bool
  pub verbose : Bool
  pub quiet : Bool
  pub s_registers : ℕ → ℕ
  pub dcd_mode : ℕ
  pub dtr_mode : ℕ
  pub bell_mode : ℕ
  pub result_mode : ℕ
  pub speaker_volume : ℕ
  pub speaker_control : ℕ
  pub error_correction : ℕ
  pub dsr_mode : ℕ
  pub profile_saved : ℕ → Bool

-- `modem_t`. `cmd_buffer` is the first `cmd_len` bytes of the array, and `hw_msg_buffer` the first
-- `hw_msg_len`; `actions` are the calls of the serial port so far, the newest first.
pub record Modem : Type 0 where
  pub state : ModemState
  pub settings : Settings
  pub cmd_buffer : List ℕ
  pub online : Bool
  pub carrier : Bool
  pub escape_count : ℕ
  pub last_escape_time : ℕ
  pub hw_msg_buffer : List ℕ
  pub hw_msg_last_time : ℕ
  pub dcd_monitoring_enabled : Bool
  pub last_dcd_state : Bool
  pub last_dcd_check_time : ℕ
  pub has_dcd_callback : Bool
  pub actions : List Action

-- The registers' numbers, and a bound on an `int`.
abbrev pub auto_answer : ℕ
auto_answer = 0

abbrev pub ring_count : ℕ
ring_count = 1

abbrev pub cr_char : ℕ
cr_char = 3

abbrev pub bs_char : ℕ
bs_char = 5

abbrev pub escape_guard_time : ℕ
escape_guard_time = 12

abbrev pub escape_code : ℕ
escape_code = 43

abbrev pub int_bound : ℕ
int_bound = 2147483648

-- The registers after `modem_reset`.
unfoldable pub default_registers : ℕ → ℕ
default_registers i =
    if i == 2
    then b'+'
    else if i == cr_char
    then 13
    else if i == 4
    then 10
    else if i == bs_char
    then 8
    else if i == escape_guard_time
    then 50
    else if i == escape_code
    then b'+'
    else 0

abbrev pub default_settings : Settings
default_settings = record {
  echo = true;
  verbose = true;
  quiet = false;
  s_registers = default_registers;
  dcd_mode = 1;
  dtr_mode = 2;
  bell_mode = 0;
  result_mode = 4;
  speaker_volume = 2;
  speaker_control = 1;
  error_correction = 3;
  dsr_mode = 0;
  profile_saved = λ i. false;
}

-- `modem_reset`, which leaves the carrier as it is.
unfoldable pub reset : Modem → Modem
reset modem = record {
  state = command_mode;
  settings = default_settings;
  cmd_buffer = [];
  online = false;
  carrier = modem.carrier;
  escape_count = 0;
  last_escape_time = 0;
  hw_msg_buffer = [];
  hw_msg_last_time = 0;
  dcd_monitoring_enabled = false;
  last_dcd_state = false;
  last_dcd_check_time = 0;
  has_dcd_callback = false;
  actions = modem.actions;
}

-- `modem_init`: the fields that `modem_reset` sets are only zeroed here.
unfoldable pub init : Modem → Modem
init modem = reset (record modem { carrier = false; actions = [] })

-- One register changed.
unfoldable pub put_register : ℕ → ℕ → (ℕ → ℕ) → ℕ → ℕ
put_register reg value registers i = if i == reg then value else registers i

unfoldable pub put_sreg : ℕ → ℕ → Modem → Modem
put_sreg reg value modem = record modem {
  settings = record modem.settings {
    s_registers = put_register reg value modem.settings.s_registers;
  };
}
