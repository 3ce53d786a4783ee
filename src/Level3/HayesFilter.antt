-- ===== src/Level3/HayesFilter.antt =====
-- `l3_filter_hayes_commands` of src/level3.c: AT commands and their results taken out of the
-- stream from the serial port, with the dictionary it looks into.
pub mod Words
pub mod Online
pub mod Lines
pub mod Plus
pub mod Fits
pub mod Room
use modembridge.Prelude.{
  ℕ, zero, suc, ◌+◌, ◌-◌, Bool, true, false, not, ◌&&◌, ◌||◌, Option, none, some, List, [], ◌∷◌,
  ◌++◌, ltb, leb, ◌==◌, if◌then◌else◌, length, set, take, replicate,
}
use modembridge.Level3.HayesFilter.Words.{hayes_commands, hayes_results}

-- `hayes_filter_state_t`.
pub data FilterState : Type 0 where
  normal escape plus_escape command result cr_wait lf_wait : FilterState

-- `hayes_filter_context_t`. The lists `command_bytes` and `line` are the parts of `command_buffer`
-- and `line_buffer` in use, so their lengths are `command_len` and `line_len`; `result_buffer` is
-- the whole array, whose old bytes `memcmp` may read. The dictionary is always that of Words.antt.
pub record HayesFilter : Type 0 where
  pub state : FilterState
  pub command_bytes : List ℕ
  pub result_buffer : List ℕ
  pub result_len : ℕ
  pub line : List ℕ
  pub line_start_time : ℕ
  pub plus_count : ℕ
  pub plus_start_time : ℕ
  pub last_char_time : ℕ
  pub in_online_mode : Bool

-- What `l3_pipeline_init` puts in at the time `now`.
abbrev pub init : ℕ → HayesFilter
init now = record {
  state = normal;
  command_bytes = [];
  result_buffer = replicate 256 0;
  result_len = 0;
  line = [];
  line_start_time = 0;
  plus_count = 0;
  plus_start_time = 0;
  last_char_time = now;
  in_online_mode = false;
}

abbrev pub is_line_end : ℕ → Bool
is_line_end c = c == 13 || c == 10

abbrev is_between : ℕ → ℕ → ℕ → Bool
is_between low high c = leb low c && leb c high

abbrev upcase : ℕ → ℕ
upcase c = if is_between b'a' b'z' c then c - 32 else c

-- Whether the bytes start with the text, whatever the case of their letters.
unfoldable starts_like : List ℕ → List ℕ → Bool
starts_like [] bytes = true
starts_like (x ∷ text) [] = false
starts_like (x ∷ text) (b ∷ bytes) = upcase b == upcase x && starts_like text bytes

unfoldable starts_like_any : List (List ℕ) → List ℕ → Bool
unfolding starts_like
starts_like_any [] bytes = false
starts_like_any (text ∷ texts) bytes = starts_like text bytes || starts_like_any texts bytes

-- Whether the line starts with AT, in any of the four ways to write it.
unfoldable pub starts_at : List ℕ → Bool
starts_at (a ∷ t ∷ rest) = (a == b'A' || a == b'a') && (t == b'T' || t == b't')
starts_at _ = false

unfoldable starts_plus : List ℕ → Bool
starts_plus (a ∷ b ∷ c ∷ rest) = a == b'+' && b == b'+' && c == b'+'
starts_plus _ = false

-- `l3_is_hayes_command`, of the bytes up to `len`.
unfoldable is_hayes_command : List ℕ → Bool
unfolding starts_at starts_like_any starts_plus
is_hayes_command bytes =
    starts_at bytes && starts_like_any hayes_commands bytes || starts_plus bytes

-- `memcmp(buffer, text, strlen(text)) == 0`.
unfoldable pub starts_with : List ℕ → List ℕ → Bool
starts_with [] bytes = true
starts_with (x ∷ text) [] = false
starts_with (x ∷ text) (b ∷ bytes) = b == x && starts_with text bytes

unfoldable is_result_of : List (List ℕ × Bool) → List ℕ → ℕ → Bool
unfolding starts_with
is_result_of [] buffer len = false
is_result_of ((code, online) ∷ rest) buffer len =
    leb (length code) len && starts_with code buffer || is_result_of rest buffer len

-- `l3_is_hayes_result`.
unfoldable is_hayes_result : List ℕ → ℕ → Bool
unfolding is_result_of
is_hayes_result buffer len = leb 2 len && is_result_of hayes_results buffer len

-- Whether the first code that the array starts with switches to online mode.
unfoldable switches_online : List (List ℕ × Bool) → List ℕ → Bool
unfolding starts_with
switches_online [] buffer = false
switches_online ((code, online) ∷ rest) buffer =
    if starts_with code buffer then online else switches_online rest buffer

-- A loop that copies bytes to the output as long as there is room.
abbrev pub copy : ℕ → List ℕ → List ℕ → List ℕ
copy output_size out bytes = out ++ take (output_size - length out) bytes

-- What may follow AT in a line that is held to be a command.
unfoldable pub is_command_char : ℕ → Bool
is_command_char c =
    is_between b'A' b'Z' c
    || is_between b'0' b'9' c
    || c == b'+'
    || c == b'&'
    || c == b'%'
    || c == 92
    || c == b'*'
    || c == b'#'
    || is_line_end c

unfoldable pub third_is_command : List ℕ → Bool
unfolding is_command_char
third_is_command (a ∷ t ∷ c ∷ rest) = is_command_char c
third_is_command _ = false

-- Whether a complete line is an AT command, in online mode.
unfoldable pub is_at_command : List ℕ → Bool
unfolding starts_at third_is_command
is_at_command line =
    leb 3 (length line) && starts_at line && (length line == 3 || third_is_command line)

-- The byte goes to the line buffer, where a byte and the NUL fit.
unfoldable pub add_to_line : ℕ → HayesFilter → HayesFilter
add_to_line c ctx =
    if ltb (length ctx.line) 255 then record ctx { line = ctx.line ++ c ∷ [] } else ctx

-- The buffering of lines in online mode, from the check for the start of a line on.
unfoldable pub end_line : ℕ → ℕ → HayesFilter → List ℕ → List ℕ × HayesFilter
unfolding is_at_command
end_line output_size c ctx out =
    if is_line_end c
    then (
      if is_at_command ctx.line then out else copy output_size out ctx.line,
      record ctx { line = [] },
    )
    else if leb 255 (length ctx.line)
    then (copy output_size out ctx.line, record ctx { line = c ∷ [] })
    else (out, ctx)

unfoldable pub buffer_line : ℕ → ℕ → ℕ → HayesFilter → List ℕ → List ℕ × HayesFilter
unfolding end_line add_to_line
buffer_line output_size now c ctx out =
    let started = record ctx {
      line_start_time = if length ctx.line == 0 then now else ctx.line_start_time;
    } in
    let (out', ctx') = end_line output_size c (add_to_line c started) out in
    (out', record ctx' { last_char_time = now })

-- A `+` in online mode.
unfoldable pub online_plus : ℕ → ℕ → HayesFilter → List ℕ → List ℕ × HayesFilter
unfolding buffer_line
online_plus output_size now ctx out =
    if ctx.plus_count == 0
    then if leb (ctx.last_char_time + 1000) now
      then (out, record ctx { plus_start_time = now; plus_count = 1; last_char_time = now })
      else buffer_line output_size now b'+' ctx out
    else if ctx.plus_count == 1
    then (out, record ctx { plus_count = 2; last_char_time = now })
    else if ctx.plus_count == 2
    then (out, record ctx { in_online_mode = false; state = normal; plus_count = 0; line = [] })
    else buffer_line output_size now b'+' ctx out

-- One byte in online mode.
unfoldable pub online_char : ℕ → ℕ → ℕ → HayesFilter → List ℕ → List ℕ × HayesFilter
unfolding online_plus buffer_line
online_char output_size now c ctx out =
    if c == b'+'
    then online_plus output_size now ctx out
    else if ltb 0 ctx.plus_count
    then buffer_line output_size now c (record ctx { plus_count = 0 })
        (copy output_size out (replicate ctx.plus_count b'+'))
    else buffer_line output_size now c ctx out

-- A line without its last byte.
unfoldable pub without_last : List ℕ → List ℕ
without_last [] = []
without_last (x ∷ []) = []
without_last (x ∷ y ∷ rest) = x ∷ without_last (y ∷ rest)

-- A complete line in command mode: a known command is kept back, and its result waited for.
unfoldable pub command_line : ℕ → HayesFilter → List ℕ → List ℕ × HayesFilter
unfolding starts_at is_hayes_command without_last
command_line output_size ctx out =
    if leb 3 (length ctx.line) && starts_at ctx.line
    then if is_hayes_command (without_last ctx.line)
      then (out, record ctx { state = cr_wait; command_bytes = []; line = [] })
      else (
        copy output_size out ctx.line,
        record ctx { state = normal; command_bytes = []; line = [] },
      )
    else (copy output_size out ctx.line, record ctx { line = [] })

unfoldable pub normal_char : ℕ → ℕ → HayesFilter → List ℕ → List ℕ × HayesFilter
unfolding command_line
normal_char output_size c ctx out =
    if ltb (length ctx.line) 255
    then (if is_line_end c
        then command_line output_size (record ctx { line = ctx.line ++ c ∷ [] }) out
        else (out, record ctx { line = ctx.line ++ c ∷ [] }))
    else (copy output_size (copy output_size out ctx.line) (c ∷ []), record ctx { line = [] })

-- The end of a result. An unknown one is passed on with no look at the room in the output.
unfoldable pub result_line : ℕ → HayesFilter → List ℕ → List ℕ × HayesFilter
unfolding is_hayes_result switches_online
result_line c ctx out =
    let ended = record ctx { state = normal; result_len = 0 } in
    if is_hayes_result ctx.result_buffer ctx.result_len
    then (
      out,
      if switches_online hayes_results ctx.result_buffer
          then record ended { in_online_mode = true }
          else ended,
    )
    else (out ++ (take ctx.result_len ctx.result_buffer ++ c ∷ []), ended)

-- One byte in command mode, by the state.
unfoldable pub command_char : FilterState → ℕ → ℕ → HayesFilter → List ℕ → List ℕ × HayesFilter
unfolding normal_char result_line
command_char normal output_size c ctx out = normal_char output_size c ctx out
command_char cr_wait output_size c ctx out =
    if c == 13
    then (out, record ctx { state = lf_wait })
    else if c == 10
    then (out, record ctx { state = result; result_len = 0 })
    else (out ++ c ∷ [], record ctx { state = normal })
command_char lf_wait output_size c ctx out =
    if c == 10
    then (out, record ctx { state = result; result_len = 0 })
    else (out ++ c ∷ [], record ctx { state = normal })
command_char result output_size c ctx out =
    if is_line_end c
    then result_line c ctx out
    else if ltb ctx.result_len 255
    then (
      out,
      record ctx {
        result_buffer = set ctx.result_buffer ctx.result_len c;
        result_len = ctx.result_len + 1;
      },
    )
    else (out, ctx)
command_char _ output_size c ctx out = (out ++ c ∷ [], record ctx { state = normal })

-- One byte: the output so far and the context.
unfoldable pub filter_char : ℕ → ℕ → ℕ → HayesFilter → List ℕ → List ℕ × HayesFilter
unfolding online_char command_char
filter_char output_size now c ctx out =
    if ctx.in_online_mode
    then online_char output_size now c ctx out
    else let (out', ctx') = command_char ctx.state output_size c ctx out in
      (out', record ctx' { last_char_time = now })

-- The loop, which ends where the output is full.
unfoldable pub filter_from : ℕ → ℕ → HayesFilter → List ℕ → List ℕ → List ℕ × HayesFilter
unfolding filter_char
filter_from output_size now ctx out [] = (out, ctx)
filter_from output_size now ctx out (c ∷ cs) =
    let (out', ctx') = filter_char output_size now c ctx out in
    let rest = filter_from output_size now ctx' out' cs in
    if ltb (length out) output_size then rest else (out, ctx)

-- `l3_filter_hayes_commands` at the time `now`.
unfoldable pub filter_hayes_commands : ℕ → ℕ → HayesFilter → List ℕ → List ℕ × HayesFilter
unfolding filter_from
filter_hayes_commands output_size now ctx input = filter_from output_size now ctx [] input
