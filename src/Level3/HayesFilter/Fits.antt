-- ===== src/Level3/HayesFilter/Fits.antt =====
-- The lengths of the buffers of the Hayes filter of src/level3.c, in online mode.
use modembridge.Prelude.{
  ℕ, ◌+◌, ◌-◌, ◌≤◌, ◌<◌, ◌≡◌, refl, Bool, true, false, List, [], ◌∷◌, arith, ◌==◌, if◌then◌else◌,
  length, length-append, length-take, take, replicate,
}
use modembridge.Level3.HayesFilter.{
  FilterState, HayesFilter, add_to_line, end_line, buffer_line, online_plus, online_char, copy,
  init,
}

-- The lengths that the arrays of the context have room for; of `line_buffer`, with a NUL.
pub record IsValid (ctx : HayesFilter) : Type 0 where
  pub line_fits : length ctx.line ≤ 255
  pub result_fits : ctx.result_len ≤ 255
  pub array : length ctx.result_buffer ≡ 256
  pub plus_fits : ctx.plus_count ≤ 2

pub init-IsValid : (now : ℕ) → IsValid (init now)
init-IsValid now = record {
  line_fits = omega arith;
  result_fits = omega arith;
  array = refl;
  plus_fits = omega arith;
}

-- What a round keeps, of an output of `size` bytes.
abbrev pub Keeps : ℕ → List ℕ × HayesFilter → Type 0
Keeps size (out, ctx) = (length out ≤ size + 255) × IsValid ctx

pub length-copy :
    (size : ℕ) (out bs : List ℕ) → length out ≤ size → length (copy size out bs) ≤ size
length-copy size out bs h =
    omega
      (arith, length-append out (take (size - length out) bs), length-take (size - length out) bs)

pub if-Keeps :
    (size : ℕ) (b : Bool) (x y : List ℕ × HayesFilter)
    → Keeps size x
    → Keeps size y
    → Keeps size (if b then x else y)
if-Keeps size true x y h k = h
if-Keeps size false x y h k = k

pub if-IsValid :
    (b : Bool) (x y : HayesFilter) → IsValid x → IsValid y → IsValid (if b then x else y)
if-IsValid true x y h k = h
if-IsValid false x y h k = k

-- The context with an empty line, and in another state.
pub emptied-IsValid :
    (state : FilterState) (bytes line : List ℕ) (ctx : HayesFilter)
    → IsValid ctx
    → length line ≤ 255
    → IsValid (record ctx { state = state; command_bytes = bytes; line = line })
emptied-IsValid state bytes line ctx v h = record {
  line_fits = h;
  result_fits = v.result_fits;
  array = v.array;
  plus_fits = v.plus_fits;
}

-- The context with another result, in another state.
pub resulting-IsValid :
    (state : FilterState) (buffer : List ℕ) (n : ℕ) (online : Bool) (ctx : HayesFilter)
    → IsValid ctx
    → length buffer ≡ 256
    → n ≤ 255
    → IsValid (record ctx {
      state = state;
      result_buffer = buffer;
      result_len = n;
      in_online_mode = online;
    })
resulting-IsValid state buffer n online ctx v h k = record {
  line_fits = v.line_fits;
  result_fits = k;
  array = h;
  plus_fits = v.plus_fits;
}

module _ (size c : ℕ) where
  add_to_line-IsValid : (ctx : HayesFilter) → IsValid ctx → IsValid (add_to_line c ctx)
  unfolding add_to_line
  add_to_line-IsValid ctx v = ground (arith, length-append ctx.line (c ∷ []))

  end_line-Keeps :
      (ctx : HayesFilter) (out : List ℕ)
      → IsValid ctx
      → length out ≤ size
      → Keeps size (end_line size c ctx out)
  unfolding end_line
  end_line-Keeps ctx out v h = ground (arith, length-copy size out ctx.line)

  buffer_line-Keeps :
      (now : ℕ) (ctx : HayesFilter) (out : List ℕ)
      → IsValid ctx
      → length out ≤ size
      → Keeps size (buffer_line size now c ctx out)
  unfolding buffer_line
  buffer_line-Keeps now ctx out v h =
      let started = record ctx {
        line_start_time = if length ctx.line == 0 then now else ctx.line_start_time;
      } in
      let v' : IsValid started = record {
        line_fits = v.line_fits;
        result_fits = v.result_fits;
        array = v.array;
        plus_fits = v.plus_fits;
      } in
      ground (arith, end_line-Keeps (add_to_line c started) out (add_to_line-IsValid started v') h)

  pub online_char-Keeps :
      (now : ℕ) (ctx : HayesFilter) (out : List ℕ)
      → IsValid ctx
      → length out < size
      → Keeps size (online_char size now c ctx out)
  unfolding online_char online_plus
  online_char-Keeps now ctx out v h =
      let reset = record ctx { plus_count = 0 } in
      let v' : IsValid reset = record {
        line_fits = v.line_fits;
        result_fits = v.result_fits;
        array = v.array;
        plus_fits = omega arith;
      } in
      let given = copy size out (replicate ctx.plus_count b'+') in
      ground (
        arith,
        buffer_line-Keeps now ctx out v (omega arith),
        buffer_line-Keeps now reset given v' (length-copy size out _ (omega arith)),
      )
