-- ===== src/Level3/Machine.antt =====
-- `l3_set_system_state`, `l3_handle_state_timeout`, `l3_process_state_machine` and the DCD events
-- of src/level3.c. `now` is what `time(NULL)` gives throughout one call. The thread that runs here
-- is the only one: where the source gives the mutex up for a moment, nobody else changes the
-- context.
pub mod Locking
pub mod Steps
pub mod Cycle
pub mod Connects
use modembridge.Prelude.{ℕ, ◌+◌, Bool, true, false, not, ◌&&◌, ◌||◌, ltb, leb, ◌==◌, if◌then◌else◌}
use modembridge.Telnet.State.{Os}
use modembridge.Telnet.Send.{is_connected}
use modembridge.Telnet.Connect.{Network, connect}
use modembridge.Level3.DoubleBuffer.{available}
use modembridge.Level3.State.{
  SystemState, uninitialized, initializing, ready, connecting, negotiating, data_transfer, flushing,
  shutting_down, terminated, error, same_state, connect_timeout, shutdown_timeout, Result,
  l3_success, invalid_state, Level3, is_valid_state_transition,
}
use modembridge.Level3.Monad.{
  Outcome, done, relocks, M, ◌>>=◌, ◌>>◌, return, get, modify, lock, unlock,
}

-- The assignments of `l3_set_system_state` on a transition that is valid.
unfoldable pub enter : ℕ → SystemState → ℕ → Level3 → Level3
enter now new_state timeout c =
    let moved = record c {
      previous_state = c.system_state;
      system_state = new_state;
      state_change_time = now;
      state_timeout = timeout;
      state_transitions = c.state_transitions + 1;
    } in
    if same_state new_state data_transfer
    then record moved { in_online_mode = true }
    else if same_state c.system_state data_transfer
        && (same_state new_state flushing || same_state new_state shutting_down)
    then record moved { in_online_mode = false }
    else moved

-- `l3_set_system_state`.
unfoldable pub set_system_state : ℕ → SystemState → ℕ → M Result
unfolding enter
set_system_state now new_state timeout = do
  lock
  c ← get
  if is_valid_state_transition c.system_state new_state
      then (do modify (enter now new_state timeout); unlock; return l3_success)
      else (do unlock; return invalid_state)

-- `l3_is_state_timed_out`.
unfoldable pub is_state_timed_out : ℕ → Level3 → Bool
is_state_timed_out now c = ltb 0 c.state_timeout && leb (c.state_change_time + c.state_timeout) now

-- The switch of `l3_handle_state_timeout`.
unfoldable pub timeout_of : ℕ → SystemState → M Result
timeout_of now initializing = set_system_state now ready 0
timeout_of now connecting = set_system_state now ready 0
timeout_of now negotiating = do
  modify (λ c. record c { negotiation_complete = true })
  set_system_state now data_transfer 0
timeout_of now flushing = set_system_state now shutting_down 5
timeout_of now shutting_down = set_system_state now terminated 0
timeout_of now _ = set_system_state now error 0

unfoldable pub handle_state_timeout : ℕ → M Result
unfolding timeout_of
handle_state_timeout now c = timeout_of now c.system_state c

-- A call of `l3_set_system_state` between an unlock and a lock of the mutex.
unfoldable pub transition : ℕ → SystemState → ℕ → M Result
unfolding set_system_state
transition now new_state timeout = do
  unlock
  r ← set_system_state now new_state timeout
  lock
  return r

module _ (os : Os) (net : Network) (now : ℕ) where
  unfoldable pub process_initializing : M Result
  unfolding transition is_connected
  process_initializing = do
    modify (λ c. record c {
      level1_ready = c.serial_ready && c.modem_ready;
      level2_ready = is_connected c.telnet;
    })
    c ← get
    if c.level1_ready then transition now ready 0 else return l3_success

  unfoldable pub process_ready : M Result
  unfolding transition is_connected
  process_ready = do
    modify (λ c. record c { level2_ready = is_connected c.telnet })
    c ← get
    if c.dcd_rising_detected
        then (do
          modify (λ c. record c {
            dcd_rising_detected = false;
            connection_attempted = false;
            transition_logged = false;
          })
          transition now connecting connect_timeout)
        else return l3_success

  -- The attempt to connect: at first, and then every two seconds.
  unfoldable pub attempt : Level3 → Level3
  unfolding is_connected
  attempt c =
      if not (is_connected c.telnet) && (not c.connection_attempted || leb (c.last_attempt + 2) now)
      then record c {
        telnet = (connect os net c.telnet).1;
        connection_attempted = true;
        last_attempt = now;
      }
      else c

  unfoldable pub process_connecting : M Result
  unfolding transition is_connected attempt
  process_connecting = do
    modify attempt
    modify (λ c. record c { level2_ready = is_connected c.telnet })
    c ← get
    if c.level2_ready
        then (do
          modify (λ c. record c {
            transition_logged = true;
            negotiation_complete = true;
            level3_active = true;
          })
          transition now data_transfer 0)
        else return l3_success

  unfoldable pub process_negotiating : M Result
  unfolding transition
  process_negotiating = do
    c ← get
    if c.negotiation_complete
        then (do modify (λ c. record c { level3_active = true }); transition now data_transfer 0)
        else return l3_success

  unfoldable pub process_data_transfer : M Result
  unfolding transition
  process_data_transfer = do
    c ← get
    if not c.dcd_state then transition now flushing shutdown_timeout else return l3_success

  unfoldable pub process_flushing : M Result
  unfolding transition available
  process_flushing = do
    c ← get
    if available c.serial_buffers == 0 && available c.telnet_buffers == 0
        then transition now shutting_down 5
        else return l3_success

  unfoldable pub process_shutting_down : M Result
  unfolding transition
  process_shutting_down = do
    modify (λ c. record c { level3_active = false })
    transition now terminated 0

  unfoldable pub process_terminated : M Result
  process_terminated = do
    c ← get
    if c.shutdown_requested
        then (do modify (λ c. record c { thread_running = false }); return l3_success)
        else return l3_success

  -- The switch of `l3_process_state_machine`; `default` serves UNINITIALIZED.
  unfoldable pub process_state : SystemState → M Result
  unfolding transition process_initializing process_ready process_connecting process_negotiating
      process_data_transfer process_flushing process_shutting_down process_terminated
  process_state initializing = process_initializing
  process_state ready = process_ready
  process_state connecting = process_connecting
  process_state negotiating = process_negotiating
  process_state data_transfer = process_data_transfer
  process_state flushing = process_flushing
  process_state shutting_down = process_shutting_down
  process_state terminated = process_terminated
  process_state error = transition now ready 0
  process_state uninitialized = transition now error 0

  -- What follows the call of `l3_handle_state_timeout`: only a success goes on to the switch.
  unfoldable pub after_timeout : SystemState → Result → M Result
  unfolding process_state
  after_timeout s l3_success = do r ← process_state s; unlock; return r
  after_timeout s invalid_state = do unlock; return invalid_state

  -- `l3_process_state_machine`.
  unfoldable pub process_state_machine : M Result
  unfolding after_timeout
  process_state_machine = do
    lock
    c ← get
    r ← if is_state_timed_out now c then handle_state_timeout now else return l3_success
    after_timeout c.system_state r

-- `l3_on_dcd_rising`. Where the mutex is busy (`pthread_mutex_trylock` fails) the flags are set all
-- the same.
unfoldable pub on_dcd_rising : M Result
on_dcd_rising = do
  modify (λ c. record c { dcd_state = true; dcd_rising_detected = true })
  return l3_success

-- The branches of `l3_on_dcd_falling`.
unfoldable pub fall : ℕ → SystemState → M Result
unfolding set_system_state
fall now data_transfer = set_system_state now flushing shutdown_timeout
fall now connecting = set_system_state now ready 0
fall now negotiating = set_system_state now ready 0
fall now _ = return l3_success

-- `l3_on_dcd_falling`, which answers L3_SUCCESS whatever the transition answers.
unfoldable pub on_dcd_falling : ℕ → M Result
unfolding fall
on_dcd_falling now = do
  lock
  modify (λ c. record c { dcd_state = false; dcd_rising_detected = false })
  c ← get
  r ← fall now c.system_state
  unlock
  return l3_success
