-- ===== src/Cbuf.antt =====
-- The circular buffer of src/bridge.c (`cbuf_*`), which carries bytes between the serial side and
-- the telnet side. A function that updates `*buf` returns the new buffer beside its result.
pub mod Invariant
pub mod Fifo
pub mod Trace
use modembridge.Common.{buffer_size}
use modembridge.Prelude.{
  ℕ, zero, suc, ◌+◌, ◌-◌, ◌%◌, Bool, List, [], ◌∷◌, ◌++◌, ltb, leb, ◌==◌, if◌then◌else◌, set,
  get_or, replicate,
}

-- `circular_buffer_t`; `bytes` is its array `data`.
pub record CircularBuffer : Type 0 where
  pub bytes : List ℕ
  pub read_pos : ℕ
  pub write_pos : ℕ
  pub count : ℕ

abbrev pub init : CircularBuffer
init = record { bytes = replicate buffer_size 0; read_pos = 0; write_pos = 0; count = 0 }

-- One round of the loop of `cbuf_write`.
unfoldable pub put : CircularBuffer → ℕ → CircularBuffer
put b c = record b {
  bytes = set b.bytes b.write_pos c;
  write_pos = (b.write_pos + 1) % buffer_size;
  count = b.count + 1;
}

-- The loop of `cbuf_write`; the list is what is left of `data`, from index `written` on.
unfoldable pub write_from : CircularBuffer → List ℕ → ℕ → ℕ × CircularBuffer
write_from b [] written = (written, b)
write_from b (c ∷ cs) written =
    let rest = write_from (put b c) cs (written + 1) in
    if ltb b.count buffer_size then rest else (written, b)

unfoldable pub write : CircularBuffer → List ℕ → ℕ × CircularBuffer
write b cs = write_from b cs 0

-- What one round of the loop of `cbuf_read` leaves behind.
unfoldable pub take_one : CircularBuffer → CircularBuffer
take_one b = record b { read_pos = (b.read_pos + 1) % buffer_size; count = b.count - 1 }

-- The loop of `cbuf_read`, with the rounds left of `len`. The parts of the result are the number
-- of bytes read, what stands in the caller's array, and the buffer.
unfoldable pub read_from : CircularBuffer → ℕ → ℕ → List ℕ → ℕ × List ℕ × CircularBuffer
read_from b zero read_count out = (read_count, out, b)
read_from b (suc len) read_count out =
    let rest =
      read_from (take_one b) len (read_count + 1) (out ++ get_or b.bytes b.read_pos 0 ∷ []) in
    if ltb 0 b.count then rest else (read_count, out, b)

unfoldable pub read : CircularBuffer → ℕ → ℕ × List ℕ × CircularBuffer
read b len = read_from b len 0 []

unfoldable pub available : CircularBuffer → ℕ
available b = b.count

unfoldable pub free : CircularBuffer → ℕ
free b = buffer_size - b.count

unfoldable pub is_empty : CircularBuffer → Bool
is_empty b = b.count == 0

unfoldable pub is_full : CircularBuffer → Bool
is_full b = leb buffer_size b.count

unfoldable pub clear : CircularBuffer → CircularBuffer
clear b = record b { read_pos = 0; write_pos = 0; count = 0 }
