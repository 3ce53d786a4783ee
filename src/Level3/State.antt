-- ===== src/Level3/State.antt =====
-- `l3_context_t` of include/level3.h, as far as the state machine of src/level3.c reads it.
use modembridge.Prelude.{ℕ, Bool, false, ◌||◌, ◌==◌}
use modembridge.Telnet.State.{Telnet}
use modembridge.Level3.DoubleBuffer.{DoubleBuffer}

-- `l3_system_state_t`.
pub data SystemState : Type 0 where
  uninitialized initializing ready connecting negotiating : SystemState
  data_transfer flushing shutting_down terminated error : SystemState

-- The place of a state in the enumeration.
abbrev pub number : SystemState → ℕ
number uninitialized = 0
number initializing = 1
number ready = 2
number connecting = 3
number negotiating = 4
number data_transfer = 5
number flushing = 6
number shutting_down = 7
number terminated = 8
number error = 9

abbrev pub same_state : SystemState → SystemState → Bool
same_state s t = number s == number t

-- LEVEL3_CONNECT_TIMEOUT and LEVEL3_SHUTDOWN_TIMEOUT.
abbrev pub connect_timeout : ℕ
connect_timeout = 30

abbrev pub shutdown_timeout : ℕ
shutdown_timeout = 10

-- The results of the functions of the state machine.
pub data Result : Type 0 where
  l3_success invalid_state : Result

-- `l3_context_t`. `mutex_held` says whether the running thread holds `state_mutex`;
-- `in_online_mode` is the flag of the Hayes filter of the pipeline from serial to telnet. The
-- fields behind `telnet_buffers` are globals of src/level3.c.
pub record Level3 : Type 0 where
  pub mutex_held : Bool
  pub system_state : SystemState
  pub previous_state : SystemState
  pub state_change_time : ℕ
  pub state_timeout : ℕ
  pub state_transitions : ℕ
  pub dcd_state : Bool
  pub dcd_rising_detected : Bool
  pub level1_ready : Bool
  pub level2_ready : Bool
  pub negotiation_complete : Bool
  pub level3_active : Bool
  pub thread_running : Bool
  pub shutdown_requested : Bool
  pub in_online_mode : Bool
  pub serial_ready : Bool
  pub modem_ready : Bool
  pub telnet : Telnet
  pub serial_buffers : DoubleBuffer
  pub telnet_buffers : DoubleBuffer
  pub connection_attempted : Bool
  pub last_attempt : ℕ
  pub transition_logged : Bool

-- `l3_is_valid_state_transition`.
unfoldable pub is_valid_state_transition : SystemState → SystemState → Bool
is_valid_state_transition uninitialized t = same_state t initializing
is_valid_state_transition initializing t = same_state t ready || same_state t error
is_valid_state_transition ready t =
    same_state t connecting || same_state t shutting_down || same_state t error
is_valid_state_transition connecting t =
    same_state t negotiating
    || same_state t data_transfer
    || same_state t ready
    || same_state t error
is_valid_state_transition negotiating t =
    same_state t data_transfer || same_state t connecting || same_state t error
is_valid_state_transition data_transfer t =
    same_state t flushing || same_state t shutting_down || same_state t error
is_valid_state_transition flushing t =
    same_state t terminated || same_state t shutting_down || same_state t error
is_valid_state_transition shutting_down t = same_state t terminated || same_state t error
is_valid_state_transition terminated t = false
is_valid_state_transition error t =
    same_state t ready || same_state t shutting_down || same_state t terminated
