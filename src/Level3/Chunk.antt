-- ===== src/Level3/Chunk.antt =====
-- `l3_process_serial_to_telnet_chunk` of src/level3.c: the bytes from the modem are echoed to it,
-- gathered to lines, filtered, and sent to the telnet server.
pub mod Echo
pub mod Characters
pub mod Broken
pub mod Bytes
pub mod Server
pub mod Forward
use modembridge.Prelude.{
  ℕ, zero, suc, ◌+◌, Bool, true, false, not, ◌&&◌, ◌||◌, List, [], ◌∷◌, ◌++◌, ltb, leb, ◌==◌,
  if◌then◌else◌, length,
}
use modembridge.Common.{Status, success}
use modembridge.Cbuf.{CircularBuffer, write, read}
use modembridge.Telnet.State.{Os, Telnet}
use modembridge.Telnet.Queue.{queue_write, flush_writes}
use modembridge.Level3.HayesFilter.{HayesFilter, is_line_end, filter_hayes_commands}
use modembridge.Level3.Multibyte.{is_multibyte_start, get_multibyte_length, is_multibyte_complete}

-- L3_MAX_BURST_SIZE.
abbrev pub max_burst_size : ℕ
max_burst_size = 512

-- The static variables of the function, what it reaches through the context, and the counters of
-- the pipeline that it updates. `line` and `multibyte` are the parts of the arrays in use;
-- `source` is `ts_serial_to_telnet_buf`, and `echo` is `ts_telnet_to_serial_buf`.
pub record Chunk : Type 0 where
  pub line : List ℕ
  pub line_start_time : ℕ
  pub multibyte : List ℕ
  pub multibyte_expected : ℕ
  pub multibyte_start_time : ℕ
  pub source : CircularBuffer
  pub echo : CircularBuffer
  pub hayes : HayesFilter
  pub telnet : Telnet
  pub total_bytes_processed : ℕ
  pub bytes_in_timeslice : ℕ
  pub last_activity : ℕ

-- `l3_echo_to_modem`.
unfoldable pub echo_to_modem : List ℕ → Chunk → Chunk
echo_to_modem bytes k = record k { echo = (write k.echo bytes).1 }

-- The multibyte buffer is emptied.
abbrev reset_multibyte : Chunk → Chunk
reset_multibyte k = record k { multibyte = []; multibyte_expected = 0 }

-- The buffer has taken a byte: a complete character is echoed.
unfoldable pub after_byte : List ℕ → Chunk → Chunk
unfolding echo_to_modem
after_byte [] k = k
after_byte (first ∷ rest) k =
    if is_multibyte_complete first rest k.multibyte_expected
    then reset_multibyte (echo_to_modem (first ∷ rest) k)
    else record k { multibyte = first ∷ rest }

-- The echo of one byte, by the bytes of a character that are there.
unfoldable pub echo_byte : List ℕ → ℕ → ℕ → Chunk → Chunk
unfolding after_byte echo_to_modem
echo_byte [] now c k =
    if is_multibyte_start c
    then record k {
      multibyte = c ∷ [];
      multibyte_expected = get_multibyte_length c;
      multibyte_start_time = now;
    }
    else echo_to_modem (c ∷ []) k
echo_byte (first ∷ rest) now c k =
    after_byte (if ltb (suc (length rest)) 6 then first ∷ (rest ++ c ∷ []) else first ∷ rest) k

-- What follows the call of `telnet_queue_write`.
unfoldable pub after_queue : Os → Status → Telnet → Telnet
after_queue os success tn = (flush_writes os tn).1
after_queue os _ tn = tn

-- The bytes that the filter has left go to the telnet server.
unfoldable pub send_filtered : Os → List ℕ → Telnet → Telnet
unfolding after_queue
send_filtered os [] tn = tn
send_filtered os (c ∷ cs) tn =
    let queued = queue_write tn (c ∷ cs) in after_queue os queued.0 queued.1

-- A line goes through the filter, at the time `ms` in milliseconds.
unfoldable pub process_line : Os → ℕ → Chunk → Chunk
unfolding send_filtered
process_line os ms k =
    let (filtered, hayes') = filter_hayes_commands max_burst_size ms k.hayes k.line in
    record k { line = []; hayes = hayes'; telnet = send_filtered os filtered k.telnet }

-- The line buffer takes one byte. A byte that fills the buffer starts the next line, too.
unfoldable pub line_byte : Os → ℕ → ℕ → ℕ → Chunk → Chunk
unfolding process_line
line_byte os now ms c k =
    let added = if ltb (length k.line) 1023 then record k { line = k.line ++ c ∷ [] } else k in
    if is_line_end c
    then process_line os ms added
    else if leb 1023 (length added.line)
    then record (process_line os ms added) { line = c ∷ []; line_start_time = now }
    else added

-- One round of the loop.
unfoldable pub chunk_byte : Os → ℕ → ℕ → ℕ → Chunk → Chunk
unfolding echo_byte line_byte
chunk_byte os now ms c k =
    let started = record k {
      line_start_time = if length k.line == 0 then now else k.line_start_time;
    } in
    line_byte os now ms c (echo_byte started.multibyte now c started)

-- The loop; `ms` is the clock, by the bytes that are left.
unfoldable pub chunk_bytes : Os → ℕ → (List ℕ → ℕ) → List ℕ → Chunk → Chunk
unfolding chunk_byte
chunk_bytes os now ms [] k = k
chunk_bytes os now ms (c ∷ cs) k = chunk_bytes os now ms cs (chunk_byte os now (ms cs) c k)

-- Old bytes of a line, after 20 seconds, are dropped; those of a character, after one, are echoed.
unfoldable pub expire : ℕ → Chunk → Chunk
unfolding echo_to_modem
expire now k =
    let k' =
      if ltb 0 (length k.line) && ltb (k.line_start_time + 20) now
      then record k { line = [] }
      else k in
    if ltb 0 (length k'.multibyte) && ltb (k'.multibyte_start_time + 1) now
    then reset_multibyte (echo_to_modem k'.multibyte k')
    else k'

-- `l3_process_serial_to_telnet_chunk` at the time `now` in seconds.
unfoldable pub process_chunk : Os → ℕ → (List ℕ → ℕ) → Chunk → Chunk
unfolding expire chunk_bytes
process_chunk os now ms k =
    let (serial_len, serial_buf, source') = read k.source max_burst_size in
    let k' = record k { source = source' } in
    if ltb 0 serial_len
    then record (chunk_bytes os now ms serial_buf (expire now k')) {
      total_bytes_processed = k.total_bytes_processed + serial_len;
      bytes_in_timeslice = k.bytes_in_timeslice + serial_len;
      last_activity = now;
    }
    else k'
