-- ===== src/Level3/HayesFilter/Plus.antt =====
-- The escape sequence in the Hayes filter of src/level3.c.
use modembridge.Prelude.{
  ℕ, ◌+◌, ◌≤◌, ◌<◌, ◌≡◌, ◌≢◌, refl, sym, ap, ◌∙◌, true, false, List, [], ◌∷◌, ◌++◌, arith, leb,
  ◌==◌, length, length-append, All,
}
use modembridge.Level3.HayesFilter.{
  HayesFilter, online_plus, online_char, filter_char, filter_from, buffer_line, normal,
  filter_hayes_commands, copy,
}
use modembridge.Level3.HayesFilter.Online.{ends_line, blocked, IsOnline}
use modembridge.Level3.HayesFilter.Lines.{filter_from-cons, filter_from_body, held_line, copy_all}

-- Online, with no `+` seen and at least a second since the last byte.
pub record IsSilent (now : ℕ) (ctx : HayesFilter) : Type 0 where
  pub online : ctx.in_online_mode ≡ true
  pub no_plus : ctx.plus_count ≡ 0
  pub silent : ctx.last_char_time + 1000 ≤ now

module _ (size now : ℕ) (ctx : HayesFilter) (out : List ℕ)
    (online : ctx.in_online_mode ≡ true) where
  first_plus :
      ctx.plus_count ≡ 0
      → ctx.last_char_time + 1000 ≤ now
      → filter_char size now b'+' ctx out
        ≡ (out, record ctx { plus_start_time = now; plus_count = 1; last_char_time = now })
  unfolding filter_char online_char online_plus
  first_plus none_yet silent =
      let late : leb (ctx.last_char_time + 1000) now ≡ true = ground arith in
      rw (online, none_yet, late) refl

  second_plus :
      ctx.plus_count ≡ 1
      → filter_char size now b'+' ctx out
        ≡ (out, record ctx { plus_count = 2; last_char_time = now })
  unfolding filter_char online_char online_plus
  second_plus one = rw (online, one) refl

  third_plus :
      ctx.plus_count ≡ 2
      → filter_char size now b'+' ctx out
        ≡ (out, record ctx { in_online_mode = false; state = normal; plus_count = 0; line = [] })
  unfolding filter_char online_char online_plus
  third_plus two = rw (online, two) refl

  -- Another byte gives back the `+` that was kept, and is then handled as any other.
  no_plus_after :
      (c : ℕ)
      → c ≢ b'+'
      → ctx.plus_count ≡ 1
      → length out < size
      → online_char size now c ctx out
        ≡ online_char size now c (record ctx { plus_count = 0 }) (out ++ b'+' ∷ [])
  unfolding online_char
  no_plus_after c other one room =
      let e : (c == b'+') ≡ false = ground arith in
      let copied : copy size out (b'+' ∷ []) ≡ out ++ b'+' ∷ [] =
        copy_all size out (b'+' ∷ []) (omega arith) in
      rw (e, one) (ap (buffer_line size now c (record ctx { plus_count = 0 })) copied)

  filter_char-online_char :
      (c : ℕ) → filter_char size now c ctx out ≡ online_char size now c ctx out
  unfolding filter_char
  filter_char-online_char c = rw online refl

-- A second of silence and three `+` in one read end the online mode of the filter, and none of them
-- is passed on; but neither is what was held of an unfinished line, which is dropped.
pub filter_hayes_commands_escape :
    (output_size now : ℕ) (ctx : HayesFilter)
    → IsSilent now ctx
    → 0 < output_size
    → let (out, ctx') = filter_hayes_commands output_size now ctx (b'+' ∷ b'+' ∷ b'+' ∷ []) in
      (out ≡ []) × (ctx'.in_online_mode ≡ false) × (ctx'.line ≡ []) × (ctx'.plus_count ≡ 0)
unfolding filter_hayes_commands filter_from
filter_hayes_commands_escape size now ctx h room =
    let one = record ctx { plus_start_time = now; plus_count = 1; last_char_time = now } in
    let two = record one { plus_count = 2; last_char_time = now } in
    let ended = record two { in_online_mode = false; state = normal; plus_count = 0; line = [] } in
    let end : filter_hayes_commands size now ctx (b'+' ∷ b'+' ∷ b'+' ∷ []) ≡ ([], ended) =
      filter_from-cons size now ctx [] (b'+' ∷ b'+' ∷ []) b'+' room
      ∙ ap (λ r. filter_from size now r.1 r.0 (b'+' ∷ b'+' ∷ []))
          (first_plus size now ctx [] h.online h.no_plus h.silent)
      ∙ filter_from-cons size now one [] (b'+' ∷ []) b'+' room
      ∙ ap (λ r. filter_from size now r.1 r.0 (b'+' ∷ []))
          (second_plus size now one [] h.online refl)
      ∙ filter_from-cons size now two [] [] b'+' room
      ∙ ap (λ r. filter_from size now r.1 r.0 []) (third_plus size now two [] h.online refl) in
    rw end (refl, refl, refl, refl)

-- A round that two contexts have in common.
filter_from_next :
    (size now : ℕ) (ctx ctx' : HayesFilter) (out out' cs : List ℕ) (c : ℕ)
    → length out < size
    → length out' < size
    → filter_char size now c ctx out ≡ filter_char size now c ctx' out'
    → filter_from size now ctx out (c ∷ cs) ≡ filter_from size now ctx' out' (c ∷ cs)
filter_from_next size now ctx ctx' out out' cs c room room' e =
    filter_from-cons size now ctx out cs c room
    ∙ ap (λ r. filter_from size now r.1 r.0 cs) e
    ∙ sym (filter_from-cons size now ctx' out' cs c room')

-- Online and after a second of silence, a single `+` goes to the output ahead of the bytes of the
-- line that came before it and are still held, so the bytes of the line are passed on in another
-- order than they came in. The byte behind the `+` is neither a `+` nor a line end, and no line end
-- comes before the one that ends the line; what is held and what follows make at most 254 bytes and
-- no AT command; and the output has room for 300 bytes.
pub filter_hayes_commands_reorders :
    (output_size now : ℕ) (ctx : HayesFilter) (line body : List ℕ) (c e : ℕ)
    → IsSilent now ctx
    → ctx.line ≡ line
    → c ≢ b'+'
    → All (λ b. ends_line b ≡ false) (c ∷ body)
    → ends_line e ≡ true
    → length line + length (c ∷ body) ≤ 254
    → 300 ≤ output_size
    → blocked (line ++ c ∷ body) ≡ false
    → (filter_hayes_commands output_size now ctx (b'+' ∷ c ∷ (body ++ e ∷ []))).0
      ≡ b'+' ∷ (line ++ c ∷ body) ++ e ∷ []
unfolding filter_hayes_commands
filter_hayes_commands_reorders size now ctx line body c e h held other plain ends short room kept =
    let one = record ctx { plus_start_time = now; plus_count = 1; last_char_time = now } in
    let none_left = record one { plus_count = 0 } in
    let on : IsOnline now none_left line = record {
      online = h.online;
      no_plus = refl;
      held = held;
      recent = omega arith;
    } in
    let out : List ℕ = b'+' ∷ [] in
    let total = length-append line (c ∷ body) in
    let (ctx', same, on') =
      filter_from_body size now (c ∷ body) line (e ∷ []) out none_left on plain short
        (omega arith) in
    ap (λ r. r.0)
      (filter_from-cons size now ctx [] (c ∷ (body ++ e ∷ [])) b'+' (omega arith)
        ∙ ap (λ r. filter_from size now r.1 r.0 (c ∷ (body ++ e ∷ [])))
            (first_plus size now ctx [] h.online h.no_plus h.silent)
        ∙ filter_from_next size now one none_left [] out (body ++ e ∷ []) c (omega arith)
            (omega arith)
            (filter_char-online_char size now one [] h.online c
              ∙ no_plus_after size now one [] h.online c other refl (omega arith)
              ∙ sym (filter_char-online_char size now none_left out h.online c))
        ∙ same)
    ∙ held_line size now (line ++ c ∷ body) out ctx' e on' ends (omega (arith, total))
        (omega (arith, total)) kept
