-- ===== src/Level3/HayesFilter/Room.antt =====
-- The buffers of the Hayes filter of src/level3.c: what stays inside them, and what does not.
use modembridge.Prelude.{
  ℕ, ◌+◌, ◌≤◌, ◌<◌, ◌≡◌, refl, ◌∙◌, Bool, true, false, List, [], ◌∷◌, ◌++◌, arith, ltb, ltb→lt,
  Bool-cases, inl, inr, if◌then◌else◌, length, length-append, length-take, length-set, set, take,
}
use modembridge.Level3.HayesFilter.{
  FilterState, normal, escape, plus_escape, command, result, cr_wait, lf_wait, HayesFilter,
  command_line, normal_char, result_line, command_char, filter_char, filter_from,
  filter_hayes_commands, copy,
}
use modembridge.Level3.HayesFilter.Fits.{
  IsValid, Keeps, length-copy, if-Keeps, if-IsValid, emptied-IsValid, resulting-IsValid,
  online_char-Keeps,
}

module _ (size c : ℕ) where
  command_line-Keeps :
      (ctx : HayesFilter) (out : List ℕ)
      → IsValid ctx
      → length out ≤ size
      → Keeps size (command_line size ctx out)
  unfolding command_line
  command_line-Keeps ctx out v h =
      let copied = length-copy size out ctx.line h in
      let kept : Keeps size (out, record ctx { state = cr_wait; command_bytes = []; line = [] }) =
        (omega arith, emptied-IsValid cr_wait [] [] ctx v (omega arith)) in
      let unknown : Keeps size
          (copy size out ctx.line, record ctx { state = normal; command_bytes = []; line = [] }) =
        (omega (arith, copied), emptied-IsValid normal [] [] ctx v (omega arith)) in
      let plain : Keeps size (copy size out ctx.line, record ctx { line = [] }) = (
        omega (arith, copied),
        emptied-IsValid ctx.state ctx.command_bytes [] ctx v (omega arith),
      ) in
      if-Keeps size _ _ _ (if-Keeps size _ _ _ kept unknown) plain

  normal_char-Keeps :
      (ctx : HayesFilter) (out : List ℕ)
      → IsValid ctx
      → length out ≤ size
      → Keeps size (normal_char size c ctx out)
  unfolding normal_char
  normal_char-Keeps ctx out v h =
      let put = record ctx { line = ctx.line ++ c ∷ [] } in
      let once = length-copy size out ctx.line h in
      elim (Bool-cases (ltb (length ctx.line) 255)) [
        | inl room ↦
            let v' : IsValid put = record {
              line_fits = omega (arith, length-append ctx.line (c ∷ []), ltb→lt _ _ room);
              result_fits = v.result_fits;
              array = v.array;
              plus_fits = v.plus_fits;
            } in
            rw room (ground (arith, command_line-Keeps put out v' h))
        | inr full ↦
            rw full (ground (arith, length-copy size (copy size out ctx.line) (c ∷ []) once))
      ]

  result_line-Keeps :
      (ctx : HayesFilter) (out : List ℕ)
      → IsValid ctx
      → length out < size
      → Keeps size (result_line c ctx out)
  unfolding result_line
  result_line-Keeps ctx out v h =
      let said = take ctx.result_len ctx.result_buffer in
      let valid = λ (online : Bool).
        resulting-IsValid normal ctx.result_buffer 0 online ctx v v.array (omega arith) in
      if-Keeps size _ _ _ (omega arith, if-IsValid _ _ _ (valid true) (valid ctx.in_online_mode))
        (
          omega (
            arith,
            length-append out (said ++ c ∷ []),
            length-append said (c ∷ []),
            length-take ctx.result_len ctx.result_buffer,
            v.result_fits,
          ),
          valid ctx.in_online_mode,
        )

  stays :
      (state : FilterState) (ctx : HayesFilter)
      → IsValid ctx
      → IsValid (record ctx { state = state })
  stays state ctx v = emptied-IsValid state ctx.command_bytes ctx.line ctx v v.line_fits

  awaits :
      (ctx : HayesFilter) (out : List ℕ)
      → IsValid ctx
      → length out < size
      → Keeps size (out, record ctx { state = result; result_len = 0 })
  awaits ctx out v h = (
    omega arith,
    resulting-IsValid result ctx.result_buffer 0 ctx.in_online_mode ctx v v.array (omega arith),
  )

  result_byte-Keeps :
      (b : Bool) (ctx : HayesFilter) (out : List ℕ)
      → ltb ctx.result_len 255 ≡ b
      → IsValid ctx
      → length out < size
      → Keeps size (
          if b
          then (
            out,
            record ctx {
              result_buffer = set ctx.result_buffer ctx.result_len c;
              result_len = ctx.result_len + 1;
            },
          )
          else (out, ctx))
  result_byte-Keeps true ctx out e v h = (
    omega arith,
    resulting-IsValid ctx.state (set ctx.result_buffer ctx.result_len c) (ctx.result_len + 1)
        ctx.in_online_mode ctx v (length-set ctx.result_buffer ctx.result_len c ∙ v.array)
        (omega (arith, ltb→lt _ _ e)),
  )
  result_byte-Keeps false ctx out e v h = (omega arith, v)

  passed :
      (ctx : HayesFilter) (out : List ℕ)
      → IsValid ctx
      → length out < size
      → Keeps size (out ++ c ∷ [], record ctx { state = normal })
  passed ctx out v h = (omega (arith, length-append out (c ∷ [])), stays normal ctx v)

  command_char-Keeps :
      (state : FilterState) (ctx : HayesFilter) (out : List ℕ)
      → IsValid ctx
      → length out < size
      → Keeps size (command_char state size c ctx out)
  unfolding command_char
  command_char-Keeps normal ctx out v h = normal_char-Keeps ctx out v (omega arith)
  command_char-Keeps cr_wait ctx out v h =
      let returned : Keeps size (out, record ctx { state = lf_wait }) =
        (omega arith, stays lf_wait ctx v) in
      if-Keeps size _ _ _ returned (if-Keeps size _ _ _ (awaits ctx out v h) (passed ctx out v h))
  command_char-Keeps lf_wait ctx out v h =
      if-Keeps size _ _ _ (awaits ctx out v h) (passed ctx out v h)
  command_char-Keeps result ctx out v h =
      if-Keeps size _ _ _ (result_line-Keeps ctx out v h)
        (result_byte-Keeps (ltb ctx.result_len 255) ctx out refl v h)
  command_char-Keeps escape ctx out v h = passed ctx out v h
  command_char-Keeps plus_escape ctx out v h = passed ctx out v h
  command_char-Keeps command ctx out v h = passed ctx out v h

  filter_char-Keeps :
      (now : ℕ) (ctx : HayesFilter) (out : List ℕ)
      → IsValid ctx
      → length out < size
      → Keeps size (filter_char size now c ctx out)
  unfolding filter_char
  filter_char-Keeps now ctx out v h =
      ground
        (arith, online_char-Keeps size c now ctx out v h, command_char-Keeps ctx.state ctx out v h)

filter_from-Keeps :
    (size now : ℕ) (input : List ℕ) (ctx : HayesFilter) (out : List ℕ)
    → IsValid ctx
    → length out ≤ size + 255
    → Keeps size (filter_from size now ctx out input)
unfolding filter_from
filter_from-Keeps size now [] ctx out v h = (h, v)
filter_from-Keeps size now (c ∷ cs) ctx out v h = elim (Bool-cases (ltb (length out) size)) [
  | inl room ↦
      let (fits, v') = filter_char-Keeps size c now ctx out v (ltb→lt _ _ room) in
      rw room (filter_from-Keeps size now cs _ _ v' fits)
  | inr full ↦ rw full (h, v)
]

-- Whatever the input, the Hayes filter keeps its line, its result and its count of `+` inside their
-- buffers, and writes at most 255 bytes more than the output has room for.
pub filter_hayes_commands-IsValid :
    (output_size now : ℕ) (ctx : HayesFilter) (input : List ℕ)
    → IsValid ctx
    → (length (filter_hayes_commands output_size now ctx input).0 ≤ output_size + 255)
      × IsValid (filter_hayes_commands output_size now ctx input).1
unfolding filter_hayes_commands
filter_hayes_commands-IsValid size now ctx input v =
    filter_from-Keeps size now input ctx [] v (omega arith)
