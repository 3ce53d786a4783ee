-- ===== src/Level3/HayesFilter/Online.antt =====
-- One byte in the Hayes filter of src/level3.c, in online mode, and lines of bytes.
use modembridge.Prelude.{
  ℕ, ◌+◌, ◌≤◌, ◌<◌, ◌≡◌, refl, ap, Bool, true, false, ◌&&◌, ◌||◌, List, [], ◌∷◌, ◌++◌, arith, ltb,
  leb, ◌==◌, if◌then◌else◌, length, length-append, All,
}
use modembridge.Level3.HayesFilter.{
  HayesFilter, is_line_end, is_at_command, add_to_line, end_line, buffer_line, online_plus,
  online_char, filter_char, copy,
}

-- A line: its bytes, and the byte that ends it.
abbrev pub Line : Type 0
Line = List ℕ × ℕ

abbrev pub bytes : Line → List ℕ
bytes (body, e) = body ++ e ∷ []

abbrev is_a : ℕ → Bool
is_a c = c == b'A' || c == b'a'

abbrev is_t : ℕ → Bool
is_t c = c == b'T' || c == b't'

-- What makes a command of AT: a capital letter, a digit, a sign of the list, or a line end.
abbrev signs : List ℕ
signs = b'+' ∷ b'&' ∷ b'%' ∷ b'\\' ∷ b'*' ∷ b'#' ∷ 13 ∷ 10 ∷ []

abbrev is_one_of : List ℕ → ℕ → Bool
is_one_of [] c = false
is_one_of (x ∷ xs) c = c == x || is_one_of xs c

abbrev pub starts_command : ℕ → Bool
starts_command c = (leb b'A' c && leb c b'Z') || ((leb b'0' c && leb c b'9') || is_one_of signs c)

-- A line that is AT alone, or AT before a byte that makes a command of it.
abbrev pub blocked : List ℕ → Bool
blocked (a ∷ t ∷ []) = is_a a && is_t t
blocked (a ∷ t ∷ c ∷ rest) = (is_a a && is_t t) && starts_command c
blocked _ = false

-- The stream of the lines, and what is to be left of it.
abbrev pub stream : List Line → List ℕ
stream [] = []
stream (l ∷ ls) = bytes l ++ stream ls

abbrev pub unblocked : List Line → List ℕ
unblocked [] = []
unblocked (l ∷ ls) = (if blocked l.0 then [] else bytes l) ++ unblocked ls

-- CR and LF end a line.
abbrev pub ends_line : ℕ → Bool
ends_line c = c == 13 || c == 10

-- A line that the buffer holds: at most 254 bytes before its end.
abbrev pub IsLine : Line → Type 0
IsLine (body, e) = All (λ c. ends_line c ≡ false) body × (ends_line e ≡ true) × (length body ≤ 254)

-- Online, with a partial line in the buffer, and less than a second since the last byte, so that no
-- `+` starts an escape sequence.
pub record IsOnline (now : ℕ) (ctx : HayesFilter) (line : List ℕ) : Type 0 where
  pub online : ctx.in_online_mode ≡ true
  pub no_plus : ctx.plus_count ≡ 0
  pub held : ctx.line ≡ line
  pub recent : now < ctx.last_char_time + 1000

filter_char-buffer_line :
    (size now c : ℕ) (ctx : HayesFilter) (out line : List ℕ)
    → IsOnline now ctx line
    → filter_char size now c ctx out ≡ buffer_line size now c ctx out
unfolding filter_char online_char online_plus
filter_char-buffer_line size now c ctx out line h = ground (arith, h.online, h.no_plus, h.recent)

module _ (size now c : ℕ) (ctx : HayesFilter) (out line : List ℕ) (h : IsOnline now ctx line) where
  abbrev after : List ℕ × HayesFilter
  after = filter_char size now c ctx out

  pub held_byte :
      is_line_end c ≡ false
      → length line < 254
      → (after.0 ≡ out) × IsOnline now after.1 (line ++ c ∷ [])
  unfolding buffer_line end_line add_to_line
  held_byte e r =
      let room : ltb (length ctx.line) 255 ≡ true = rw h.held (ground arith) in
      let short : leb 255 (length (ctx.line ++ c ∷ [])) ≡ false =
        rw h.held (ground (arith, length-append line (c ∷ []))) in
      rw (filter_char-buffer_line size now c ctx out line h) (
        rw (room, e, short)
          (
            refl,
            record {
              online = h.online;
              no_plus = h.no_plus;
              held = ap (λ l. l ++ c ∷ []) h.held;
              recent = omega arith;
            },
          ))

  pub ending :
      is_line_end c ≡ true
      → length line ≤ 254
      → (after.0 ≡ (if is_at_command (line ++ c ∷ []) then out else copy size out (line ++ c ∷ [])))
        × IsOnline now after.1 []
  unfolding buffer_line end_line add_to_line
  ending e r =
      let room : ltb (length ctx.line) 255 ≡ true = rw h.held (ground arith) in
      rw (filter_char-buffer_line size now c ctx out line h) (
        rw (room, e)
          (
            ap (λ l. if is_at_command (l ++ c ∷ []) then out else copy size out (l ++ c ∷ []))
                h.held,
            record { online = h.online; no_plus = h.no_plus; held = refl; recent = omega arith },
          ))

  pub overflowing :
      is_line_end c ≡ false
      → length line ≡ 254
      → (after.0 ≡ copy size out (line ++ c ∷ [])) × IsOnline now after.1 (c ∷ [])
  unfolding buffer_line end_line add_to_line
  overflowing e r =
      let room : ltb (length ctx.line) 255 ≡ true = rw h.held (ground arith) in
      let full : leb 255 (length (ctx.line ++ c ∷ [])) ≡ true =
        rw h.held (ground (arith, length-append line (c ∷ []))) in
      rw (filter_char-buffer_line size now c ctx out line h) (
        rw (room, e, full)
          (
            ap (λ l. copy size out (l ++ c ∷ [])) h.held,
            record { online = h.online; no_plus = h.no_plus; held = refl; recent = omega arith },
          ))
