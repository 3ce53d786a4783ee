-- ===== src/Telnet/Queue.antt =====
-- The write buffer of src/telnet.c: `telnet_queue_write` and `telnet_flush_writes`.
pub mod Order
use modembridge.Prelude.{
  ℕ, ◌+◌, ◌-◌, not, ◌||◌, List, [], ◌∷◌, ◌++◌, ltb, leb, ◌==◌, length, drop, if◌then◌else◌,
}
use modembridge.Common.{
  Status, success, error_invalid_arg, error_io, error_connection, error_buffer_full, buffer_size,
}
use modembridge.Telnet.State.{SendResult, sent, would_block, failed, Os, Telnet, is_open}
use modembridge.Telnet.Send.{update_activity}

-- `sizeof(tn->write_buf)`.
abbrev pub write_buf_size : ℕ
write_buf_size = 8192

-- `telnet_queue_write`.
unfoldable pub queue_write : Telnet → List ℕ → Status × Telnet
queue_write tn payload =
    if not (is_open tn.fd)
    then (error_invalid_arg, tn)
    else if not tn.is_connected
    then (error_connection, tn)
    else if length payload == 0
    then (success, tn)
    else if ltb (write_buf_size - length tn.write_buf) (length payload)
    then (error_buffer_full, tn)
    else (success, record tn { write_buf = tn.write_buf ++ payload })

-- The bytes that were taken leave the buffer, and the others move to its beginning.
unfoldable pub settle : Telnet → Telnet
settle tn =
    if leb (length tn.write_buf) tn.write_pos
    then record tn { write_pos = 0; write_buf = [] }
    else if ltb 0 tn.write_pos
    then record tn { write_buf = drop tn.write_pos tn.write_buf; write_pos = 0 }
    else tn

-- What follows the call of `send`.
unfoldable pub after_flush : Os → Telnet → SendResult → Status × Telnet
unfolding settle update_activity
after_flush os tn (sent n) =
    let t = record tn { write_pos = tn.write_pos + n } in
    (success, settle (if ltb 0 n then update_activity os t else t))
after_flush os tn would_block = (success, tn)
after_flush os tn failed = (error_io, tn)

-- `telnet_flush_writes`.
unfoldable pub flush_writes : Os → Telnet → Status × Telnet
unfolding after_flush
flush_writes os tn =
    if not (is_open tn.fd)
    then (error_invalid_arg, tn)
    else if not tn.can_write || length tn.write_buf == 0
    then (success, tn)
    else (let pending = drop tn.write_pos tn.write_buf in
        after_flush os (record tn { requests = tn.requests ++ pending ∷ [] })
          (os.send tn.requests pending))
