-- ===== src/Modem/Carrier.antt =====
-- The signals of the line in src/modem.c: `modem_process_dcd_change`, `modem_monitor_dcd_signal`,
-- `modem_set_dcd_monitoring`, `modem_handle_dtr_change`, `modem_handle_no_carrier_termination`,
-- `modem_handle_dcd_falling_cleanup`, `modem_go_offline_enhanced`, `modem_process_dtr_dcd_transitions`
-- and `modem_set_dcd_event_callback`. The callback's result is only logged.
pub mod Sound
pub mod Agrees
use modembridge.Prelude.{
  ℕ, ◌+◌, ◌-◌, Bool, true, false, not, ◌&&◌, ◌||◌, Option, none, some, List, [], ◌∷◌, ltb, leb,
  ◌==◌, if◌then◌else◌,
}
use modembridge.Common.{Status, success, error_io}
use modembridge.Modem.State.{
  Modem, ModemState, command_mode, online_mode, ringing, connecting, disconnected, Serial, Action,
  flush_input, flush_output, enable_carrier_detect, set_dtr, notify_dcd, ring_count, put_sreg,
  reset,
}
use modembridge.Modem.Response.{send_no_carrier}
use modembridge.Modem.Call.{set_carrier, go_offline, hangup}

-- `state == MODEM_STATE_ONLINE` and `state == MODEM_STATE_CONNECTING`.
unfoldable pub is_online_state : ModemState → Bool
is_online_state online_mode = true
is_online_state command_mode = false
is_online_state ringing = false
is_online_state connecting = false
is_online_state disconnected = false

unfoldable pub is_connecting : ModemState → Bool
is_connecting connecting = true
is_connecting command_mode = false
is_connecting online_mode = false
is_connecting ringing = false
is_connecting disconnected = false

-- One more call.
unfoldable pub call : Action → Modem → Modem
call action modem = record modem { actions = action ∷ modem.actions }

-- Both flushes, if the port is open.
unfoldable pub flush_if_open : Serial → Modem → Modem
flush_if_open serial modem =
    if serial.is_open modem.actions then call flush_output (call flush_input modem) else modem

-- A state without connection and carrier, with the ring counter reset.
unfoldable pub ended : ModemState → Modem → Modem
ended state modem =
    put_sreg ring_count 0 (record modem { state = state; online = false; carrier = false })

-- No command and no escape sequence begun.
unfoldable pub cleared : Modem → Modem
cleared modem = record modem { cmd_buffer = []; escape_count = 0; last_escape_time = 0 }

-- `modem_handle_dcd_falling_cleanup`, by the state at the call.
unfoldable pub cleanup_from : ModemState → Serial → Modem → Modem
cleanup_from online_mode serial modem =
    (send_no_carrier serial (flush_if_open serial (cleared (ended command_mode modem)))).1
cleanup_from connecting serial modem = (send_no_carrier serial (ended disconnected modem)).1
cleanup_from ringing serial modem = (send_no_carrier serial (ended disconnected modem)).1
cleanup_from command_mode serial modem = modem
cleanup_from disconnected serial modem = modem

unfoldable pub handle_dcd_falling_cleanup : Serial → Modem → Modem
handle_dcd_falling_cleanup serial modem = cleanup_from modem.state serial modem

-- The carrier follows DCD where the `&C` setting is 1.
unfoldable pub follow : Bool → Modem → Modem
follow dcd modem = if modem.settings.dcd_mode == 1 then set_carrier modem dcd else modem

-- A rising DCD, by the state at the call.
unfoldable pub rise_from : ModemState → Serial → Modem → Modem
rise_from disconnected serial modem =
    if serial.is_open modem.actions then record modem { state = connecting } else modem
rise_from command_mode serial modem =
    if serial.is_open modem.actions then record modem { state = connecting } else modem
rise_from connecting serial modem = record modem { state = online_mode; online = true }
rise_from ringing serial modem = record modem { state = online_mode; online = true }
rise_from online_mode serial modem = modem

-- The flushes after a fall, in the modes `&D2` and `&D3`.
unfoldable pub flush_fallen : ModemState → Serial → Modem → Modem
flush_fallen online_mode serial modem =
    if modem.settings.dtr_mode == 2 || modem.settings.dtr_mode == 3
    then flush_if_open serial modem
    else modem
flush_fallen ringing serial modem = modem
flush_fallen connecting serial modem = modem
flush_fallen command_mode serial modem = modem
flush_fallen disconnected serial modem = modem

unfoldable pub change_state : Bool → Serial → Modem → Modem
change_state true serial modem = rise_from modem.state serial (follow true modem)
change_state false serial modem =
    flush_fallen modem.state serial (handle_dcd_falling_cleanup serial (follow false modem))

-- `modem_process_dcd_change`.
unfoldable pub process_dcd_change : Serial → Bool → Modem → Modem
process_dcd_change serial dcd modem =
    let changed = change_state dcd serial (record modem { last_dcd_state = dcd }) in
    if changed.has_dcd_callback then call (notify_dcd dcd) changed else changed

-- `modem_monitor_dcd_signal`, at one time; `dcd` is what `serial_get_dcd` answers.
unfoldable pub monitor_dcd_signal : Serial → ℕ → Option Bool → Modem → Status × Modem
monitor_dcd_signal serial now none modem =
    if not modem.dcd_monitoring_enabled
    then (success, modem)
    else if not (serial.is_open modem.actions)
    then (error_io, modem)
    else if leb now modem.last_dcd_check_time
    then (success, modem)
    else (error_io, modem)
monitor_dcd_signal serial now (some dcd) modem =
    let checked = record modem { last_dcd_check_time = now } in
    if not modem.dcd_monitoring_enabled
    then (success, modem)
    else if not (serial.is_open modem.actions)
    then (error_io, modem)
    else if leb now modem.last_dcd_check_time
    then (success, modem)
    else if (if dcd then modem.last_dcd_state else not modem.last_dcd_state)
    then (success, checked)
    else (success, process_dcd_change serial dcd checked)

-- `modem_set_dcd_monitoring`, at one time; `dcd` is what `serial_get_dcd` answers.
unfoldable pub set_dcd_monitoring : Serial → ℕ → Option Bool → Bool → Modem → Status × Modem
set_dcd_monitoring serial now none enabled modem =
    let set = record modem { dcd_monitoring_enabled = enabled } in
    if enabled && serial.is_open modem.actions then (error_io, set) else (success, set)
set_dcd_monitoring serial now (some dcd) enabled modem =
    let set = record modem { dcd_monitoring_enabled = enabled } in
    if enabled && serial.is_open modem.actions
    then (
      success,
      call enable_carrier_detect (record set { last_dcd_state = dcd; last_dcd_check_time = now }),
    )
    else (success, set)

-- `modem_process_dtr_dcd_transitions`, which always succeeds.
unfoldable pub process_dtr_dcd_transitions : Serial → ℕ → Option Bool → Modem → Modem
process_dtr_dcd_transitions serial now dcd modem =
    if serial.is_open modem.actions && modem.dcd_monitoring_enabled
    then (monitor_dcd_signal serial now dcd modem).1
    else modem

-- `modem_set_dcd_event_callback`, with whether the callback is not NULL.
unfoldable pub set_dcd_event_callback : Bool → Modem → Modem
set_dcd_event_callback has_callback modem = record modem { has_dcd_callback = has_callback }

-- A falling DTR, by the `&D` setting.
unfoldable pub dtr_fell : Serial → Modem → Modem
dtr_fell serial modem =
    let mode = modem.settings.dtr_mode in
    if mode == 1
    then if modem.online then record modem { state = command_mode; online = false } else modem
    else if mode == 2
    then if modem.online || is_connecting modem.state
      then (send_no_carrier serial
          (hangup serial (record modem { state = disconnected; online = false }))).1
      else modem
    else if mode == 3
    then (send_no_carrier serial (reset modem)).1
    else modem

-- A rising DTR.
unfoldable pub dtr_rose : ModemState → Modem → Modem
dtr_rose disconnected modem = record modem { state = command_mode }
dtr_rose command_mode modem = modem
dtr_rose online_mode modem = modem
dtr_rose ringing modem = modem
dtr_rose connecting modem = modem

-- `modem_handle_dtr_change`.
unfoldable pub handle_dtr_change : Serial → Bool → Modem → Modem
handle_dtr_change serial dtr modem =
    if dtr then dtr_rose modem.state modem else dtr_fell serial modem

-- `modem_handle_no_carrier_termination`.
unfoldable pub handle_no_carrier_termination : Serial → Modem → Modem
handle_no_carrier_termination serial modem =
    if modem.online || is_online_state modem.state
    then process_dcd_change serial false (cleared (ended command_mode modem))
    else if is_connecting modem.state
    then process_dcd_change serial false (ended disconnected modem)
    else modem

-- The drop of DTR and of the carrier after `modem_go_offline`, by the state before it.
unfoldable pub offline_from : ModemState → Serial → Modem → Modem
offline_from online_mode serial modem =
    set_carrier (if serial.is_open modem.actions then call (set_dtr false) modem else modem) false
offline_from command_mode serial modem = modem
offline_from ringing serial modem = modem
offline_from connecting serial modem = modem
offline_from disconnected serial modem = modem

-- `modem_go_offline_enhanced`.
unfoldable pub go_offline_enhanced : Serial → Modem → Modem
go_offline_enhanced serial modem = offline_from modem.state serial (go_offline modem)
