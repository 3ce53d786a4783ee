-- ===== src/Telnet/State.antt =====
-- `telnet_t` of include/telnet.h, its constants, and the calls of the operating system that
-- src/telnet.c makes.
use modembridge.Prelude.{
  ℕ, Bool, true, false, Option, none, some, List, [], ◌∷◌, ◌==◌, if◌then◌else◌,
}
use modembridge.Telnet.Telopt

-- `telnet_state_t`.
pub data TelnetState : Type 0 where
  data_state iac_state will_state wont_state do_state dont_state sb_state sb_iac_state : TelnetState

-- What `send` answers: a number of bytes, EAGAIN or EWOULDBLOCK, or another error.
pub data SendResult : Type 0 where
  sent : ℕ → SendResult
  would_block failed : SendResult

-- The operating system: its answers may depend on all that was handed to `send` before.
pub record Os : Type 0 where
  pub send : List (List ℕ) → List ℕ → SendResult
  pub time : List (List ℕ) → ℕ

-- `telnet_t`. A negative descriptor is `none`. `sb_buffer`, `read_buf` and `write_buf` are the parts
-- of these arrays that are in use, so their lengths are `sb_len`, `read_len` and `write_len`.
-- `requests` is no field of the source: it lists the buffers that were handed to `send`, in order.
pub record Telnet : Type 0 where
  pub fd : Option ℕ
  pub epoll_fd : Option ℕ
  pub is_connected : Bool
  pub is_connecting : Bool
  pub state : TelnetState
  pub sb_buffer : List ℕ
  pub local_options : ℕ → Bool
  pub remote_options : ℕ → Bool
  pub binary_local : Bool
  pub binary_remote : Bool
  pub echo_local : Bool
  pub echo_remote : Bool
  pub sga_local : Bool
  pub sga_remote : Bool
  pub linemode_active : Bool
  pub linemode_edit : Bool
  pub binary_mode : Bool
  pub echo_mode : Bool
  pub sga_mode : Bool
  pub linemode : Bool
  pub terminal_type : List ℕ
  pub can_read : Bool
  pub can_write : Bool
  pub has_error : Bool
  pub event_count : ℕ
  pub read_buf : List ℕ
  pub read_pos : ℕ
  pub write_buf : List ℕ
  pub write_pos : ℕ
  pub last_activity : ℕ
  pub last_ping : ℕ
  pub ping_interval : ℕ
  pub connection_timeout : ℕ
  pub keep_alive_enabled : Bool
  pub consecutive_errors : ℕ
  pub max_consecutive_errors : ℕ
  pub last_error_time : ℕ
  pub auto_reconnect : Bool
  pub reconnect_interval : ℕ
  pub requests : List (List ℕ)

abbrev pub is_open : Option ℕ → Bool
is_open none = false
is_open (some _) = true

-- An assignment to one element of an array of options.
abbrev pub assign : (ℕ → Bool) → ℕ → Bool → ℕ → Bool
assign options option value o = if o == option then value else options o

-- `telnet_init`; `now` is what `time(NULL)` gives. The terminal type is "ANSI".
abbrev pub init : ℕ → Telnet
init now = record {
  fd = none;
  epoll_fd = none;
  is_connected = false;
  is_connecting = false;
  state = data_state;
  sb_buffer = [];
  local_options = assign (assign (λ _. false) Telopt.binary true) Telopt.sga true;
  remote_options = λ _. false;
  binary_local = false;
  binary_remote = false;
  echo_local = false;
  echo_remote = false;
  sga_local = false;
  sga_remote = false;
  linemode_active = false;
  linemode_edit = false;
  binary_mode = false;
  echo_mode = false;
  sga_mode = false;
  linemode = true;
  terminal_type = b'A' ∷ b'N' ∷ b'S' ∷ b'I' ∷ [];
  can_read = false;
  can_write = false;
  has_error = false;
  event_count = 0;
  read_buf = [];
  read_pos = 0;
  write_buf = [];
  write_pos = 0;
  last_activity = now;
  last_ping = 0;
  ping_interval = 30;
  connection_timeout = 120;
  keep_alive_enabled = true;
  consecutive_errors = 0;
  max_consecutive_errors = 3;
  last_error_time = 0;
  auto_reconnect = true;
  reconnect_interval = 10;
  requests = [];
}
