-- ===== src/Level3/DoubleBuffer.antt =====
-- The double buffer of src/level3.c (`l3_double_buffer_t` and `l3_pipeline_switch_buffers`).
pub mod Lost
use modembridge.Prelude.{
  ℕ, zero, ◌+◌, ◌-◌, Bool, true, not, List, [], ◌∷◌, ◌++◌, ltb, length, take, drop, if◌then◌else◌,
}

-- L3_PIPELINE_BUFFER_SIZE.
abbrev pub pipeline_buffer_size : ℕ
pipeline_buffer_size = 512

-- `main_bytes` and `sub_bytes` are the parts of the arrays `main_data` and `sub_data` in use, so
-- their lengths are `main_len` and `sub_len`.
pub record DoubleBuffer : Type 0 where
  pub main_bytes : List ℕ
  pub main_pos : ℕ
  pub sub_bytes : List ℕ
  pub main_active : Bool
  pub bytes_processed : ℕ
  pub bytes_dropped : ℕ
  pub last_activity : ℕ

-- `l3_double_buffer_init`, where `pthread_mutex_init` succeeds.
abbrev pub init : DoubleBuffer
init = record {
  main_bytes = [];
  main_pos = 0;
  sub_bytes = [];
  main_active = true;
  bytes_processed = 0;
  bytes_dropped = 0;
  last_activity = 0;
}

abbrev pub at_most : ℕ → ℕ → ℕ
at_most len room = if ltb len room then len else room

-- `l3_double_buffer_write` at the time `now`: the number of bytes taken, and the buffer.
unfoldable pub write : DoubleBuffer → ℕ → List ℕ → ℕ × DoubleBuffer
write d now [] = (0, d)
write d now (c ∷ cs) =
    let payload = c ∷ cs in
    let to_write = at_most (length payload) (pipeline_buffer_size - length d.sub_bytes) in
    if ltb 0 to_write
    then (
      to_write,
      record d { sub_bytes = d.sub_bytes ++ take to_write payload; last_activity = now },
    )
    else (to_write, record d { bytes_dropped = d.bytes_dropped + length payload })

unfoldable pub available : DoubleBuffer → ℕ
available d = length d.main_bytes - d.main_pos

unfoldable pub free : DoubleBuffer → ℕ
free d = pipeline_buffer_size - length d.sub_bytes

-- `l3_double_buffer_read`: the bytes handed out, and the buffer.
unfoldable pub read : DoubleBuffer → ℕ → ℕ → List ℕ × DoubleBuffer
unfolding available
read d now len =
    let to_read = at_most len (available d) in
    if ltb 0 to_read
    then (
      take to_read (drop d.main_pos d.main_bytes),
      record d {
        main_pos = d.main_pos + to_read;
        bytes_processed = d.bytes_processed + to_read;
        last_activity = now;
      },
    )
    else ([], d)

-- `l3_pipeline_switch_buffers`, whose branches do the same.
unfoldable pub switch_buffers : DoubleBuffer → DoubleBuffer
switch_buffers d = record d { main_active = not d.main_active; main_pos = 0; sub_bytes = [] }
