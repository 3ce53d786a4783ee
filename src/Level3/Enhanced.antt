-- ===== src/Level3/Enhanced.antt =====
-- The enhanced double buffer of src/level3.c (`l3_enhanced_double_buffer_t`): watermarks,
-- backpressure and resizing. The ratios of `double` are compared as fractions; the average of the
-- fill ratio is only reported and has no part here.
pub mod Silent
use modembridge.Prelude.{
  ℕ, zero, suc, ◌+◌, ◌-◌, ◌*◌, ◌/◌, Bool, true, false, not, ◌&&◌, ◌||◌, Option, none, some, List,
  [], ◌∷◌, ◌++◌, ◌^◌, ltb, leb, ◌==◌, if◌then◌else◌, length, take, drop,
}

-- `l3_watermark_level_t`.
pub data Watermark : Type 0 where
  critical high normal low empty : Watermark

-- The place of a level in the enumeration.
abbrev pub number : Watermark → ℕ
number critical = 0
number high = 1
number normal = 2
number low = 3
number empty = 4

-- The results of the functions.
pub data Result : Type 0 where
  buffer_success invalid_param no_memory thread_error : Result

-- `l3_enhanced_double_buffer_t`. `main_bytes` and `sub_bytes` are the parts of the arrays in use, so
-- their lengths are `main_len` and `sub_len`.
pub record Enhanced : Type 0 where
  pub main_bytes : List ℕ
  pub main_pos : ℕ
  pub sub_bytes : List ℕ
  pub buffer_size : ℕ
  pub min_buffer_size : ℕ
  pub max_buffer_size : ℕ
  pub growth_step_size : ℕ
  pub shrink_step_size : ℕ
  pub adaptive_sizing_enabled : Bool
  pub backpressure_enabled : Bool
  pub current_usage : ℕ
  pub peak_usage : ℕ
  pub min_free_space : ℕ
  pub current_level : Watermark
  pub peak_level : Watermark
  pub time_at_peak_level : ℕ
  pub overflow_events : ℕ
  pub underflow_events : ℕ
  pub bytes_dropped : ℕ
  pub bytes_processed : ℕ
  pub last_activity : ℕ
  pub metrics_last_activity : ℕ
  pub current_watermark : Watermark
  pub watermark_change_time : ℕ
  pub backpressure_active : Bool
  pub last_resize_time : ℕ
  pub consecutive_overflows : ℕ
  pub consecutive_underflows : ℕ

-- `l3_enhanced_double_buffer_init` at the time `now`, where the sizes are accepted and the memory
-- and the mutex are there.
unfoldable pub init : ℕ → ℕ → ℕ → ℕ → Enhanced
init now initial_size min_size max_size = record {
  main_bytes = [];
  main_pos = 0;
  sub_bytes = [];
  buffer_size = initial_size;
  min_buffer_size = min_size;
  max_buffer_size = max_size;
  growth_step_size = 1024;
  shrink_step_size = 512;
  adaptive_sizing_enabled = true;
  backpressure_enabled = true;
  current_usage = 0;
  peak_usage = 0;
  min_free_space = initial_size;
  current_level = empty;
  peak_level = empty;
  time_at_peak_level = 0;
  overflow_events = 0;
  underflow_events = 0;
  bytes_dropped = 0;
  bytes_processed = 0;
  last_activity = 0;
  metrics_last_activity = 0;
  current_watermark = empty;
  watermark_change_time = now;
  backpressure_active = false;
  last_resize_time = now;
  consecutive_overflows = 0;
  consecutive_underflows = 0;
}

-- The sizes that it accepts.
unfoldable accepts_sizes : ℕ → ℕ → ℕ → Bool
accepts_sizes initial_size min_size max_size =
    not (initial_size == 0 || min_size == 0 || max_size == 0)
    && not (ltb max_size min_size || ltb initial_size min_size || ltb max_size initial_size)

abbrev pub usage : Enhanced → ℕ
usage b = length b.main_bytes + length b.sub_bytes

-- Whether the usage is more than so many percent of the capacity.
abbrev pub above : ℕ → Enhanced → Bool
above percent b = ltb (percent * (b.buffer_size * 2)) (usage b * 100)

-- `l3_get_watermark_level`.
unfoldable pub get_watermark_level : Enhanced → Watermark
get_watermark_level b =
    if above 95 b
    then critical
    else if above 80 b
    then high
    else if above 20 b
    then normal
    else if above 5 b
    then low
    else empty

-- The backpressure by the level, with the hysteresis.
unfoldable pub applies : Bool → Watermark → Bool
applies true low = false
applies true empty = false
applies true _ = true
applies false high = true
applies false critical = true
applies false _ = false

-- The state of the backpressure, where it has changed.
unfoldable pub set_backpressure : Bool → ℕ → Enhanced → Enhanced
set_backpressure should now b =
    let changed = record b { backpressure_active = should; watermark_change_time = now } in
    if should
    then (if b.backpressure_active then b else changed)
    else (if b.backpressure_active then changed else b)

-- `l3_should_apply_enhanced_backpressure` at the time `now`.
unfoldable pub should_apply_enhanced_backpressure : ℕ → Enhanced → Bool × Enhanced
should_apply_enhanced_backpressure now b =
    let should = applies b.backpressure_active (get_watermark_level b) in
    if b.backpressure_enabled then (should, set_backpressure should now b) else (false, b)

-- The contents after a change of size: what does not fit is cut off.
unfoldable pub resized : ℕ → Enhanced → Enhanced
resized new_size b = record b {
  main_bytes = take new_size b.main_bytes;
  sub_bytes = take new_size b.sub_bytes;
  main_pos = if ltb new_size b.buffer_size && leb new_size b.main_pos then 0 else b.main_pos;
  buffer_size = new_size;
}

-- `l3_resize_buffer`; `mallocs` says whether there is memory. A size beyond 2 ^ 64 does not occur
-- here: what wraps around in the caller is too large in any case.
unfoldable pub resize_buffer : Bool → ℕ → Enhanced → Result × Enhanced
resize_buffer mallocs new_size b =
    if new_size == 0 || ltb new_size b.min_buffer_size || ltb b.max_buffer_size new_size
    then (invalid_param, b)
    else if new_size == b.buffer_size
    then (buffer_success, b)
    else if not mallocs
    then (no_memory, b)
    else (buffer_success, resized new_size b)

-- The size to shrink to; a subtraction of `size_t` below 0 wraps around.
unfoldable shrunk_size : Enhanced → ℕ
shrunk_size b =
    let reduced =
      if ltb b.buffer_size b.shrink_step_size
      then b.buffer_size + 2 ^ 64 - b.shrink_step_size
      else b.buffer_size - b.shrink_step_size in
    if ltb reduced b.min_buffer_size then b.min_buffer_size else reduced

-- The size that the usage asks for.
unfoldable pub wanted_size : Enhanced → ℕ
unfolding shrunk_size
wanted_size b =
    if above 85 b || leb 3 b.consecutive_overflows
    then if ltb b.max_buffer_size (b.buffer_size + b.growth_step_size)
      then b.max_buffer_size
      else b.buffer_size + b.growth_step_size
    else if ltb (usage b * 100) (15 * (b.buffer_size * 2)) && ltb b.min_buffer_size b.buffer_size
    then shrunk_size b
    else b.buffer_size

unfoldable pub after_resize : ℕ → Result × Enhanced → Enhanced
after_resize now (buffer_success, b) = record b {
  last_resize_time = now;
  consecutive_overflows = 0;
  consecutive_underflows = 0;
}
after_resize now (_, b) = b

-- The adaptive sizing, at most every 30 seconds.
unfoldable pub adapt_size : Bool → ℕ → Enhanced → Enhanced
adapt_size mallocs now b =
    if b.adaptive_sizing_enabled && ltb (b.last_resize_time + 30) now
    then if wanted_size b == b.buffer_size
      then b
      else after_resize now (resize_buffer mallocs (wanted_size b) b)
    else b

-- `l3_update_buffer_metrics`.
unfoldable pub update_buffer_metrics : Bool → ℕ → Enhanced → Enhanced
update_buffer_metrics mallocs now b =
    let free = b.buffer_size * 2 - usage b in
    let is_peak = ltb (number b.peak_level) (number b.current_watermark) in
    adapt_size mallocs now (record b {
      current_usage = usage b;
      peak_usage = if ltb b.peak_usage (usage b) then usage b else b.peak_usage;
      min_free_space = if ltb free b.min_free_space then free else b.min_free_space;
      current_level = b.current_watermark;
      peak_level = if is_peak then b.current_watermark else b.peak_level;
      time_at_peak_level = if is_peak then now else b.time_at_peak_level;
      metrics_last_activity = now;
    })

abbrev pub at_most : ℕ → ℕ → ℕ
at_most len room = if ltb len room then len else room

-- The bytes that are written, or the count of an overflow.
unfoldable pub put : ℕ → List ℕ → Enhanced → Enhanced
put now payload b =
    let to_write = at_most (length payload) (b.buffer_size - length b.sub_bytes) in
    if ltb 0 to_write
    then record b {
      sub_bytes = b.sub_bytes ++ take to_write payload;
      last_activity = now;
      consecutive_overflows = 0;
    }
    else record b {
      overflow_events = b.overflow_events + 1;
      consecutive_overflows = b.consecutive_overflows + 1;
      bytes_dropped = b.bytes_dropped + length payload;
    }

-- The new level, where it has changed.
unfoldable pub note_level : ℕ → Watermark → Enhanced → Enhanced
note_level now before b =
    if number (get_watermark_level b) == number before
    then b
    else record b { current_watermark = get_watermark_level b; watermark_change_time = now }

-- `l3_enhanced_double_buffer_write` at the time `now`: the number of bytes taken, and the buffer.
unfoldable pub write : Bool → ℕ → List ℕ → Enhanced → ℕ × Enhanced
write mallocs now [] b = (0, b)
write mallocs now (c ∷ cs) b =
    let payload = c ∷ cs in
    let before = get_watermark_level b in
    let (should_block, b') = should_apply_enhanced_backpressure now b in
    if should_block
    then (
      0,
      record b' {
        overflow_events = b'.overflow_events + 1;
        consecutive_overflows = b'.consecutive_overflows + 1;
        bytes_dropped = b'.bytes_dropped + length payload;
      },
    )
    else (
      at_most (length payload) (b'.buffer_size - length b'.sub_bytes),
      update_buffer_metrics mallocs now (note_level now before (put now payload b')),
    )

-- `l3_enhanced_double_buffer_read`: the bytes handed out, and the buffer.
unfoldable pub read : Bool → ℕ → ℕ → Enhanced → List ℕ × Enhanced
read mallocs now zero b = ([], b)
read mallocs now (suc n) b =
    let to_read = at_most (suc n) (length b.main_bytes - b.main_pos) in
    let done =
      if ltb 0 to_read
      then record b {
        main_pos = b.main_pos + to_read;
        bytes_processed = b.bytes_processed + to_read;
        last_activity = now;
        consecutive_underflows = 0;
      }
      else record b {
        underflow_events = b.underflow_events + 1;
        consecutive_underflows = b.consecutive_underflows + 1;
      } in
    (take to_read (drop b.main_pos b.main_bytes), update_buffer_metrics mallocs now done)
