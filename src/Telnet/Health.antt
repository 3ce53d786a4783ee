-- ===== src/Telnet/Health.antt =====
-- Keep-alive and error handling of src/telnet.c: `telnet_set_keepalive`,
-- `telnet_check_connection_health`, `telnet_reset_error_state`, `telnet_set_error_handling`,
-- `telnet_handle_error` and `telnet_should_reconnect`. `now` is what `time(NULL)` gives in one call.
pub mod Recovery
pub mod KeepAlive
use modembridge.Prelude.{
  ℕ, ◌+◌, ◌-◌, Bool, true, false, not, ◌&&◌, ◌||◌, ltb, leb, ◌==◌, if◌then◌else◌,
}
use modembridge.Common.{Status, success, error_invalid_arg, error_connection}
use modembridge.Telnet.State.{Os, Telnet, is_open}
use modembridge.Telnet.Send.{send_command, update_activity}
use modembridge.Telnet.Byte

-- A setting that is given as 0 or less (here, 0) is replaced by the usual one.
abbrev pub or_default : ℕ → ℕ → ℕ
or_default given usual = if ltb 0 given then given else usual

-- `telnet_set_keepalive`.
unfoldable pub set_keepalive : Telnet → Bool → ℕ → ℕ → Telnet
set_keepalive tn enabled ping_interval connection_timeout = record tn {
  keep_alive_enabled = enabled;
  ping_interval = or_default ping_interval 30;
  connection_timeout = or_default connection_timeout 120;
}

-- What follows the NOP of `telnet_check_connection_health`.
unfoldable pub after_ping : Os → ℕ → Status → Telnet → Status × Telnet
unfolding update_activity
after_ping os now success tn = (success, update_activity os (record tn { last_ping = now }))
after_ping os now result tn = (result, tn)

-- `telnet_check_connection_health`. A time that lies `connection_timeout` seconds back is compared
-- by a sum, since the difference of the source may be negative.
unfoldable pub check_connection_health : Os → ℕ → Telnet → Status × Telnet
unfolding after_ping send_command
check_connection_health os now tn =
    if not (is_open tn.fd)
    then (error_invalid_arg, tn)
    else if not tn.is_connected || not tn.keep_alive_enabled
    then (success, tn)
    else if ltb (tn.last_activity + tn.connection_timeout) now
    then (error_connection, record tn { has_error = true })
    else if leb (tn.last_ping + tn.ping_interval) now
    then (let (result, t) = send_command os tn Byte.nop in after_ping os now result t)
    else (success, tn)

-- `telnet_reset_error_state`.
unfoldable pub reset_error_state : Telnet → Telnet
reset_error_state tn = record tn { consecutive_errors = 0; last_error_time = 0 }

-- `telnet_set_error_handling`.
unfoldable pub set_error_handling : Telnet → Bool → ℕ → ℕ → Telnet
set_error_handling tn auto_reconnect max_consecutive_errors reconnect_interval = record tn {
  auto_reconnect = auto_reconnect;
  max_consecutive_errors = or_default max_consecutive_errors 3;
  reconnect_interval = or_default reconnect_interval 10;
}

-- `errno`: EAGAIN or EWOULDBLOCK; ECONNRESET, EPIPE or ETIMEDOUT; another error.
pub data Errno : Type 0 where
  again broken other_errno : Errno

-- The end of `telnet_handle_error`, by `errno`.
unfoldable pub by_errno : Errno → Status → Telnet → Status × Telnet
by_errno again code tn = (success, record tn { consecutive_errors = tn.consecutive_errors - 1 })
by_errno broken code tn = (error_connection, record tn { is_connected = false; has_error = true })
by_errno other_errno code tn = (code, tn)

-- `telnet_handle_error`.
unfoldable pub handle_error : ℕ → Errno → Status → Telnet → Status × Telnet
unfolding by_errno
handle_error now errno code tn =
    let t = record tn { consecutive_errors = tn.consecutive_errors + 1; last_error_time = now } in
    if t.auto_reconnect && leb t.max_consecutive_errors t.consecutive_errors
    then (error_connection, record t { has_error = true; is_connected = false })
    else by_errno errno code t

-- `telnet_should_reconnect`.
unfoldable pub should_reconnect : ℕ → Telnet → Bool
should_reconnect now tn =
    if not tn.auto_reconnect || tn.is_connected
    then false
    else if ltb 0 tn.last_error_time && ltb now (tn.last_error_time + tn.reconnect_interval)
    then false
    else tn.last_error_time == 0 || leb tn.max_consecutive_errors tn.consecutive_errors
