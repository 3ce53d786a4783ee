-- ===== src/Tests/Level3Tests.antt =====
-- The state machine and the double buffer of src/level3.c at concrete inputs.
use modembridge.Prelude.{◌≡◌, refl, true, false, some, List, [], ◌∷◌, arith, length}
use modembridge.Telnet.State.{Os, Telnet, sent}
use modembridge.Telnet.Connect.{Network, at_once}
use modembridge.Level3.DoubleBuffer.{DoubleBuffer, pipeline_buffer_size, write, free}
use modembridge.Level3.DoubleBuffer.Lost.{
  Call, write_call, read_call, switch_call, delivered, delivered_nothing,
}
use modembridge.Level3.State.{ready, connecting, Level3}
use modembridge.Level3.Monad.{◌>>=◌}
use modembridge.Level3.Machine.Connects.{Reachable, IsTransferring, process_state_machine_connects}
use modembridge.Level3.Machine.{process_state_machine, on_dcd_falling}
use modembridge.Level3.Machine.Locking.{
  Relocks, process_state_machine_timed_out, on_dcd_falling-Falls, Falls,
}
use modembridge.Level3.Machine.Steps.{Finishes, next_state}
use modembridge.Level3.Machine.Cycle.{Serves, process_state_machine-Serves}

abbrev os : Os
os = record { send = λ log buf. sent (length buf); time = λ log. 1000 }

-- A server that takes the connection at once.
abbrev net : Network
net = record { socket = some 5; resolves = true; connects = at_once; epoll = some 6; adds = true }

-- READY, with the modem and the serial port open and no connection.
abbrev waiting : Level3
waiting = record {
  mutex_held = false;
  system_state = ready;
  previous_state = ready;
  state_change_time = 900;
  state_timeout = 0;
  state_transitions = 2;
  dcd_state = true;
  dcd_rising_detected = true;
  level1_ready = true;
  level2_ready = false;
  negotiation_complete = false;
  level3_active = false;
  thread_running = true;
  shutdown_requested = false;
  in_online_mode = false;
  serial_ready = true;
  modem_ready = true;
  telnet = modembridge.Telnet.State.init 0;
  serial_buffers = modembridge.Level3.DoubleBuffer.init;
  telnet_buffers = modembridge.Level3.DoubleBuffer.init;
  connection_attempted = false;
  last_attempt = 0;
  transition_logged = false;
}

-- CONNECTING, for a hundred seconds, of thirty.
abbrev late : Level3
late = record waiting { system_state = connecting; state_timeout = 30 }

calls : List Call
calls = write_call 1 (7 ∷ 8 ∷ []) ∷ switch_call ∷ read_call 2 10 ∷ switch_call ∷ read_call 3 10 ∷ []

process_state_machine-Serves_example :
    Finishes
      (process_state_machine os net 1000 waiting)
      (Serves (next_state os net 1000 ready waiting) waiting)
process_state_machine-Serves_example =
    process_state_machine-Serves os net 1000 waiting refl
      (unfold modembridge.Level3.Machine.is_state_timed_out in refl) (λ e. cc)

net-Reachable : Reachable net
net-Reachable = record {
  fd = 5;
  epoll_fd = 6;
  socket_is = refl;
  resolves_is = refl;
  connects_is = refl;
  epoll_is = refl;
  adds_is = refl;
}

process_state_machine_connects_example :
    Finishes
      ((process_state_machine os net 1000 >>= λ _. process_state_machine os net 1001) waiting)
      (λ r c'. IsTransferring c')
process_state_machine_connects_example =
    process_state_machine_connects os net net 1000 1001 waiting refl refl refl
      (unfold modembridge.Level3.Machine.is_state_timed_out in refl) (omega arith) net-Reachable

process_state_machine_timed_out_example : Relocks (process_state_machine os net 1000 late)
process_state_machine_timed_out_example =
    process_state_machine_timed_out os net 1000 late refl
      (unfold modembridge.Level3.Machine.is_state_timed_out in refl)

on_dcd_falling-Falls_example : Falls true 1000 late
on_dcd_falling-Falls_example = on_dcd_falling-Falls 1000 late refl

delivered_nothing_example : delivered calls modembridge.Level3.DoubleBuffer.init ≡ []
delivered_nothing_example = delivered_nothing calls
