-- ===== src/Level3/HayesFilter/Lines.antt =====
-- The Hayes filter of src/level3.c in online mode, line by line.
use modembridge.Prelude.{
  ℕ, ◌+◌, ◌-◌, ◌≤◌, ◌<◌, ◌≡◌, refl, sym, ap, subst, ◌∙◌, Bool, true, false, List, [], ◌∷◌, ◌++◌,
  append-nil, append_assoc, arith, lt→ltb, if◌then◌else◌, length, length-append, take_more, All,
}
use modembridge.Level3.HayesFilter.{
  HayesFilter, is_line_end, starts_at, is_command_char, third_is_command, is_at_command,
  filter_char, filter_from, filter_hayes_commands, copy,
}
use modembridge.Level3.HayesFilter.Online.{
  Line, bytes, blocked, stream, unblocked, IsLine, IsOnline, held_byte, ending, overflowing,
  starts_command,
}

-- The test of a whole line is the test of its body.
is_command_char_lem : (c : ℕ) → is_command_char c ≡ starts_command c
unfolding is_command_char
is_command_char_lem c = ground arith

is_at_command-blocked :
    (body : List ℕ) (e : ℕ) → is_line_end e ≡ true → is_at_command (body ++ e ∷ []) ≡ blocked body
unfolding is_at_command starts_at third_is_command
is_at_command-blocked [] e h = refl
is_at_command-blocked (a ∷ []) e h = refl
is_at_command-blocked (a ∷ t ∷ []) e h = ground (arith, h)
is_at_command-blocked (a ∷ t ∷ c ∷ []) e h = ground (arith, is_command_char_lem c)
is_at_command-blocked (a ∷ t ∷ c ∷ d ∷ rest) e h = ground (arith, is_command_char_lem c)

pub copy_all :
    (size : ℕ) (out bs : List ℕ) → length out + length bs ≤ size → copy size out bs ≡ out ++ bs
copy_all size out bs h = ap (λ t. out ++ t) (take_more (size - length out) bs (omega arith))

length_kept : (b : Bool) (bs : List ℕ) → length (if b then [] else bs) ≤ length bs
length_kept true bs = omega arith
length_kept false bs = omega arith

pass_on :
    (b b' : Bool) (size : ℕ) (out bs : List ℕ)
    → b ≡ b'
    → length out + length bs ≤ size
    → (if b then out else copy size out bs) ≡ out ++ (if b' then [] else bs)
pass_on b true size out bs e h = rw e (sym (append-nil out))
pass_on b false size out bs e h = rw e (copy_all size out bs h)

module _ (size now : ℕ) where
  -- One round of the loop, where there is room.
  pub filter_from-cons :
      (ctx : HayesFilter) (out cs : List ℕ) (c : ℕ)
      → length out < size
      → filter_from size now ctx out (c ∷ cs)
        ≡ filter_from size now
            (filter_char size now c ctx out).1
            (filter_char size now c ctx out).0
            cs
  unfolding filter_from
  filter_from-cons ctx out cs c r = rw (lt→ltb _ _ r) refl

  -- The body of a line goes to the buffer.
  pub filter_from_body :
      (body line rest out : List ℕ) (ctx : HayesFilter)
      → IsOnline now ctx line
      → All (λ c. is_line_end c ≡ false) body
      → length line + length body ≤ 254
      → length out < size
      → (ctx' : HayesFilter) × (filter_from size now ctx out (body ++ rest)
          ≡ filter_from size now ctx' out rest)
        × IsOnline now ctx' (line ++ body)
  filter_from_body [] line rest out ctx h plain short room =
      (ctx, refl, subst (IsOnline now ctx) (sym (append-nil line)) h)
  filter_from_body (c ∷ body) line rest out ctx h plain short room =
      let (same, on) = held_byte size now c ctx out line h plain.0 (omega arith) in
      let (ctx', e, on') =
        filter_from_body body (line ++ c ∷ []) rest out (filter_char size now c ctx out).1 on
          plain.1 (omega (arith, length-append line (c ∷ []))) room in
      (
        ctx',
        filter_from-cons ctx out (body ++ rest) c room
            ∙ ap (λ o. filter_from size now (filter_char size now c ctx out).1 o (body ++ rest))
                same
            ∙ e,
        subst (IsOnline now ctx') (append_assoc line (c ∷ []) body) on',
      )

  -- The end of a line that is passed on.
  pub held_line :
      (line out : List ℕ) (ctx : HayesFilter) (e : ℕ)
      → IsOnline now ctx line
      → is_line_end e ≡ true
      → length line ≤ 254
      → length out + length line + 1 ≤ size
      → blocked line ≡ false
      → (filter_from size now ctx out (e ∷ [])).0 ≡ out ++ line ++ e ∷ []
  unfolding filter_from
  held_line line out ctx e h ends short room kept =
      let total = length-append line (e ∷ []) in
      ap (λ r. r.0) (filter_from-cons ctx out [] e (omega arith))
      ∙ (ending size now e ctx out line h ends short).0
      ∙ pass_on (is_at_command (line ++ e ∷ [])) (blocked line) size out (line ++ e ∷ [])
          (is_at_command-blocked line e ends) (omega (arith, total))
      ∙ rw kept (sym (append_assoc out line (e ∷ [])))

  -- A whole line is taken out or copied.
  filter_from_line :
      (l : Line) (rest out : List ℕ) (ctx : HayesFilter)
      → IsOnline now ctx []
      → IsLine l
      → length out + length (bytes l) ≤ size
      → (ctx' : HayesFilter) × (filter_from size now ctx out (bytes l ++ rest)
          ≡ filter_from size now ctx' (out ++ (if blocked l.0 then [] else bytes l)) rest)
        × IsOnline now ctx' []
  filter_from_line (body, e) rest out ctx h valid room =
      let total = length-append body (e ∷ []) in
      let (ctx', same, on) =
        filter_from_body body [] (e ∷ rest) out ctx h valid.0 (omega arith)
          (omega (arith, total)) in
      let (said, on') = ending size now e ctx' out body on valid.1 valid.2 in
      (
        (filter_char size now e ctx' out).1,
        ap (filter_from size now ctx out) (append_assoc body (e ∷ []) rest)
            ∙ same
            ∙ filter_from-cons ctx' out rest e (omega (arith, total))
            ∙ ap (λ o. filter_from size now (filter_char size now e ctx' out).1 o rest)
                (said
                  ∙ pass_on (is_at_command (body ++ e ∷ [])) (blocked body) size out
                      (body ++ e ∷ []) (is_at_command-blocked body e valid.1) room),
        on',
      )

  filter_from_lines :
      (lines : List Line) (out : List ℕ) (ctx : HayesFilter)
      → IsOnline now ctx []
      → All IsLine lines
      → length out + length (stream lines) ≤ size
      → let (got, ctx') = filter_from size now ctx out (stream lines) in
        (got ≡ out ++ unblocked lines) × IsOnline now ctx' []
  unfolding filter_from
  filter_from_lines [] out ctx h valid room = (sym (append-nil out), h)
  filter_from_lines (l ∷ ls) out ctx h valid room =
      let kept : List ℕ = if blocked l.0 then [] else bytes l in
      let total = length-append (bytes l) (stream ls) in
      let (ctx', same, on) =
        filter_from_line l (stream ls) out ctx h valid.0 (omega (arith, total)) in
      let (got, on') =
        filter_from_lines ls (out ++ kept) ctx' on valid.1
          (omega (arith, total, length-append out kept, length_kept (blocked l.0) (bytes l))) in
      rw same (got ∙ append_assoc out kept (unblocked ls), on')

-- Online, a line of more than 254 bytes is flushed when the buffer is full, and the byte that fills
-- the buffer is put in again: of 255 bytes and a line end, the output has the last byte twice.
filter_hayes_commands_doubles :
    (output_size now : ℕ) (ctx : HayesFilter) (body : List ℕ) (c e : ℕ)
    → IsOnline now ctx []
    → All (λ b. is_line_end b ≡ false) body
    → is_line_end c ≡ false
    → is_line_end e ≡ true
    → length body ≡ 254
    → 257 ≤ output_size
    → (filter_hayes_commands output_size now ctx (body ++ c ∷ e ∷ [])).0 ≡ body ++ c ∷ c ∷ e ∷ []
unfolding filter_hayes_commands is_at_command filter_from
filter_hayes_commands_doubles size now ctx body c e h plain plain_c ends full room =
    let (ctx', same, on) =
      filter_from_body size now body [] (c ∷ e ∷ []) [] ctx h plain (omega arith) (omega arith) in
    let (said, on') = overflowing size now c ctx' [] body on plain_c full in
    let whole = copy_all size [] (body ++ c ∷ []) (omega (arith, length-append body (c ∷ []))) in
    let ctx'' = (filter_char size now c ctx' []).1 in
    let out = body ++ c ∷ [] in
    let (rest, _) = ending size now e ctx'' out (c ∷ []) on' ends (omega arith) in
    let size_out = length-append body (c ∷ []) in
    ap (λ r. r.0)
      (same
        ∙ filter_from-cons size now ctx' [] (e ∷ []) c (omega arith)
        ∙ ap (λ o. filter_from size now ctx'' o (e ∷ [])) (said ∙ whole)
        ∙ filter_from-cons size now ctx'' out [] e (omega (arith, size_out)))
    ∙ rest
    ∙ copy_all size out (c ∷ e ∷ []) (omega (arith, size_out))
    ∙ append_assoc body (c ∷ []) (c ∷ e ∷ [])

-- Online, with no byte held back and less than a second since the last one, the Hayes filter takes
-- the lines of a stream apart by whether they are commands: a line is left out exactly when it is
-- AT, or AT before a capital letter, a digit or one of the six signs `+`, `&`, `%`, `\`, `*` and `#`,
-- and every other line is passed on as it is, in order. The lines have at most 254 bytes before
-- their end, and the output has room for the stream.
pub filter_hayes_commands_lines :
    (output_size now : ℕ) (ctx : HayesFilter) (lines : List Line)
    → IsOnline now ctx []
    → All IsLine lines
    → length (stream lines) ≤ output_size
    → ((filter_hayes_commands output_size now ctx (stream lines)).0 ≡ unblocked lines)
      × IsOnline now (filter_hayes_commands output_size now ctx (stream lines)).1 []
unfolding filter_hayes_commands
filter_hayes_commands_lines output_size now ctx lines h valid room =
    filter_from_lines output_size now lines [] ctx h valid (omega arith)
