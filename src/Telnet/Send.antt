-- ===== src/Telnet/Send.antt =====
-- `telnet_send`, `telnet_recv`, `telnet_send_command`, `telnet_update_activity` and the queries of
-- src/telnet.c.
use modembridge.Prelude.{
  ℕ, Bool, false, ◌&&◌, ◌||◌, not, List, [], ◌∷◌, ◌++◌, ltb, length, if◌then◌else◌,
}
use modembridge.Common.{Status, error_invalid_arg, error_io, error_connection}
use modembridge.Telnet.State.{SendResult, sent, would_block, failed, Os, Telnet, is_open}
use modembridge.Telnet.Negotiate.{send_control}
use modembridge.Telnet.Byte

-- A `ssize_t`: a number of bytes, or an error code.
pub data Count : Type 0 where
  bytes : ℕ → Count
  code : Status → Count

unfoldable pub update_activity : Os → Telnet → Telnet
update_activity os tn = record tn { last_activity = os.time tn.requests }

-- `telnet_send_command`.
unfoldable pub send_command : Os → Telnet → ℕ → Status × Telnet
unfolding send_control
send_command os tn command =
    if is_open tn.fd then send_control os tn (Byte.iac ∷ command ∷ []) else (error_invalid_arg, tn)

-- The answer of `send`, in `telnet_send`.
unfoldable pub after_send : Os → Telnet → SendResult → Count × Telnet
unfolding update_activity
after_send os tn (sent n) = (bytes n, (if ltb 0 n then update_activity os tn else tn))
after_send os tn would_block = (bytes 0, tn)
after_send os tn failed = (code error_io, tn)

-- `telnet_send`.
unfoldable pub send : Os → Telnet → List ℕ → Count × Telnet
unfolding after_send
send os tn payload =
    if not (is_open tn.fd)
    then (code error_invalid_arg, tn)
    else if not tn.is_connected
    then (code error_connection, tn)
    else after_send os (record tn { requests = tn.requests ++ payload ∷ [] })
        (os.send tn.requests payload)

-- What `recv` answers: at least one byte, the end of the stream, EAGAIN, or another error.
pub data RecvResult : Type 0 where
  received : ℕ → List ℕ → RecvResult
  closed no_data recv_failed : RecvResult

-- `telnet_recv`, with what `recv` answers; the list is what stands in the caller's buffer.
unfoldable pub recv : Os → Telnet → RecvResult → Count × List ℕ × Telnet
unfolding update_activity
recv os tn answer =
    if not (is_open tn.fd)
    then (code error_invalid_arg, [], tn)
    else if not tn.is_connected
    then (code error_connection, [], tn)
    else elim answer [
      | received c cs ↦ (bytes (length (c ∷ cs)), c ∷ cs, update_activity os tn)
      | closed ↦ (bytes 0, [], record tn { is_connected = false })
      | no_data ↦ (bytes 0, [], tn)
      | recv_failed ↦ (code error_io, [], tn)
    ]

unfoldable pub is_connected : Telnet → Bool
is_connected tn = tn.is_connected && is_open tn.fd

unfoldable pub can_read : Telnet → Bool
can_read tn = tn.can_read && tn.is_connected

unfoldable pub can_write : Telnet → Bool
can_write tn = tn.can_write && tn.is_connected

unfoldable pub has_error : Telnet → Bool
has_error tn = tn.has_error || not tn.is_connected
