-- ===== src/Level3/Chunk/Characters.antt =====
-- Whole characters in `l3_process_serial_to_telnet_chunk` of src/level3.c, and broken ones.
use modembridge.Prelude.{
  ℕ, suc, ◌+◌, ◌-◌, ◌≤◌, ◌<◌, ◌≡◌, refl, sym, ap, subst, ◌∙◌, true, false, ◌&&◌, List, [], ◌∷◌,
  ◌++◌, append-nil, append_assoc, arith, ltb, leb, lt→ltb, Bool-cases, inl, inr, length,
  length-append, take, take_more, All, min,
}
use modembridge.Common.{buffer_size}
use modembridge.Cbuf.{CircularBuffer, write, free, read, available}
use modembridge.Cbuf.Invariant.{contents, IsValid}
use modembridge.Cbuf.Fifo.{contents-write, contents-read, length-contents}
use modembridge.Telnet.State.{Os}
use modembridge.Level3.Multibyte.{
  is_multibyte_start, get_multibyte_length, is_multibyte_complete, all_continuation,
}
use modembridge.Level3.Multibyte.Ranges.{
  char_length, is_utf8_lead, is_continuation, multibyte_length_lem, is_multibyte_start_lem,
  is_lead_lem, is_continuation_lem, char_length_le,
}
use modembridge.Level3.Chunk.{Chunk, chunk_byte, chunk_bytes, expire, process_chunk, max_burst_size}
use modembridge.Level3.Chunk.Echo.{Hears, single_byte, first_byte, inner_byte, last_byte}

abbrev IsContinuation : ℕ → Type 0
IsContinuation c = (c < 256) × (is_continuation c ≡ true)

-- A character: as many bytes as the first one announces, and behind a byte that may start UTF-8
-- only continuation bytes.
abbrev pub IsChar : List ℕ → Type 0
IsChar [] = ⊥
IsChar (first ∷ rest) =
    (first < 256)
    × (suc (length rest) ≡ char_length first)
    × (is_utf8_lead first ≡ true → All IsContinuation rest)

all_continuation_lem : (cs : List ℕ) → All IsContinuation cs → all_continuation cs ≡ true
unfolding all_continuation
all_continuation_lem [] h = refl
all_continuation_lem (c ∷ cs) ((byte, range), h) =
    rw (is_continuation_lem c byte, range) (all_continuation_lem cs h)

complete :
    (first n : ℕ) (rest : List ℕ)
    → first < 256
    → suc (length rest) ≡ n
    → (is_utf8_lead first ≡ true → All IsContinuation rest)
    → is_multibyte_complete first rest n ≡ true
unfolding is_multibyte_complete
complete first n rest byte whole valid =
    let long : ltb (suc (length rest)) n ≡ false = ground arith in
    elim (Bool-cases (is_utf8_lead first)) [
      | inl utf8 ↦
          rw (long, is_lead_lem first byte, utf8)
            (ap all_continuation (take_more (n - 1) rest (omega arith))
              ∙ all_continuation_lem rest (valid utf8))
      | inr other ↦ rw (long, is_lead_lem first byte, other) refl
    ]

incomplete :
    (first n : ℕ) (rest : List ℕ)
    → suc (length rest) < n
    → is_multibyte_complete first rest n ≡ false
unfolding is_multibyte_complete
incomplete first n rest short = rw (lt→ltb _ _ short) refl

free_lem : (b : CircularBuffer) (n : ℕ) → length (contents b) + n ≤ buffer_size → n ≤ free b
unfolding free
free_lem b n h = omega (arith, length-contents b)

leb_two : (n : ℕ) → leb 2 (suc (suc n)) ≡ true
leb_two n = ground arith

module _ (os : Os) (now : ℕ) (ms : List ℕ → ℕ) (tail : List ℕ) where
  -- The bytes of a character behind those that are held.
  others :
      (more got : List ℕ) (first n : ℕ) (k : Chunk) (c : ℕ)
      → k.multibyte ≡ first ∷ got
      → k.multibyte_expected ≡ n
      → suc (length got) + length (c ∷ more) ≡ n
      → n ≤ 4
      → first < 256
      → (is_utf8_lead first ≡ true → All IsContinuation (got ++ c ∷ more))
      → (k' : Chunk) × (chunk_bytes os now ms (c ∷ (more ++ tail)) k
          ≡ chunk_bytes os now ms tail k')
        × Hears k' (write k.echo (first ∷ (got ++ c ∷ more))).1 [] 0
  unfolding chunk_bytes
  others [] got first n k c held expected total most byte valid = (
    chunk_byte os now (ms tail) c k,
    refl,
    last_byte os now (ms tail) c k first got held (omega arith) (
        ap (is_multibyte_complete first (got ++ c ∷ [])) expected
        ∙ complete first n (got ++ c ∷ []) byte (omega (arith, length-append got (c ∷ []))) valid),
  )
  others (d ∷ more) got first n k c held expected total most byte valid =
      let t = ms (d ∷ (more ++ tail)) in
      let h = inner_byte os now t c k first got held (omega arith) (
        ap (is_multibyte_complete first (got ++ c ∷ [])) expected
        ∙ incomplete first n (got ++ c ∷ []) (omega (arith, length-append got (c ∷ [])))) in
      let (k', same, h') =
        others more (got ++ c ∷ []) first n (chunk_byte os now t c k) d h.held
          (h.awaited ∙ expected) (omega (arith, length-append got (c ∷ []))) most byte
          (subst (λ l. is_utf8_lead first ≡ true → All IsContinuation l)
            (sym (append_assoc got (c ∷ []) (d ∷ more))) valid) in
      (
        k',
        same,
        subst (λ b. Hears k' b [] 0)
            (ap (λ b. (write b (first ∷ ((got ++ c ∷ []) ++ d ∷ more))).1) h.sent
              ∙ ap (λ l. (write k.echo (first ∷ l)).1) (append_assoc got (c ∷ []) (d ∷ more)))
            h',
      )

  one_char :
      (char : List ℕ) (k : Chunk)
      → IsChar char
      → k.multibyte ≡ []
      → (k' : Chunk) × (chunk_bytes os now ms (char ++ tail) k ≡ chunk_bytes os now ms tail k')
        × (k'.echo ≡ (write k.echo char).1)
        × (k'.multibyte ≡ [])
  unfolding chunk_bytes
  one_char [] k char none_held = elim char [ ]
  one_char (first ∷ []) k (byte, whole, valid) none_held =
      let alone : is_multibyte_start first ≡ false =
        is_multibyte_start_lem first byte ∙ ap (leb 2) (sym whole) in
      let h = single_byte os now (ms tail) first k none_held alone in
      (chunk_byte os now (ms tail) first k, refl, h.sent, h.held)
  one_char (first ∷ c ∷ rest) k (byte, whole, valid) none_held =
      let start : is_multibyte_start first ≡ true =
        is_multibyte_start_lem first byte ∙ ap (leb 2) (sym whole) ∙ leb_two (length rest) in
      let t = ms (c ∷ (rest ++ tail)) in
      let h = first_byte os now t first k none_held start in
      let n : get_multibyte_length first ≡ char_length first =
        rw start at (multibyte_length_lem first byte) in
      let (k', same, h') =
        others rest [] first (char_length first) (chunk_byte os now t first k) c h.held
          (h.awaited ∙ n) (omega (arith, whole)) (char_length_le first) byte valid in
      (k', same, h'.sent ∙ ap (λ b. (write b (first ∷ c ∷ rest)).1) h.sent, h'.held)

abbrev pub concat : List (List ℕ) → List ℕ
concat [] = []
concat (x ∷ xs) = x ++ concat xs

chars_echo :
    (os : Os) (now : ℕ) (ms : List ℕ → ℕ) (chars : List (List ℕ)) (k : Chunk)
    → All IsChar chars
    → k.multibyte ≡ []
    → IsValid k.echo
    → length (contents k.echo) + length (concat chars) ≤ buffer_size
    → let k' = chunk_bytes os now ms (concat chars) k in
      (contents k'.echo ≡ contents k.echo ++ concat chars) × (k'.multibyte ≡ [])
unfolding chunk_bytes
chars_echo os now ms [] k valid none_held v room = (sym (append-nil _), none_held)
chars_echo os now ms (char ∷ chars) k valid none_held v room =
    let (k', same, wrote, none_held') =
      one_char os now ms (concat chars) char k valid.0 none_held in
    let (v', _, stored) = contents-write k.echo char v in
    let total = length-append char (concat chars) in
    let fits : length char ≤ free k.echo = free_lem k.echo (length char) (omega (arith, total)) in
    let e : contents k'.echo ≡ contents k.echo ++ char =
      ap contents wrote
      ∙ stored
      ∙ ap (λ t. contents k.echo ++ t) (take_more (free k.echo) char fits) in
    let (rest, held) =
      chars_echo os now ms chars k' valid.1 none_held' (subst IsValid (sym wrote) v')
        (omega (arith, ap (length {A = ℕ}) e, length-append (contents k.echo) char, total)) in
    rw same (
      rest ∙ ap (λ t. t ++ concat chars) e ∙ append_assoc (contents k.echo) char (concat chars),
      held,
    )

nil_of_length : (xs : List ℕ) → length xs ≡ 0 → xs ≡ []
nil_of_length [] h = refl
nil_of_length (x ∷ xs) h = absurd (omega arith)

nothing_read :
    (b : CircularBuffer) {n : ℕ} {bytes : List ℕ}
    → n ≡ min max_burst_size (available b)
    → contents b ≡ bytes
    → length bytes ≤ max_burst_size
    → ltb 0 n ≡ false
    → bytes ≡ []
unfolding available
nothing_read b {n} {bytes} number holds burst nothing =
    let zero_read : n ≡ 0 = ground arith in
    nil_of_length bytes
      (omega (arith, number, zero_read, length-contents b, ap (length {A = ℕ}) holds))

-- Old bytes of a line do not matter to the echo.
expire-quiet :
    (now : ℕ) (k : Chunk)
    → k.multibyte ≡ []
    → ((expire now k).echo ≡ k.echo) × ((expire now k).multibyte ≡ [])
unfolding expire
expire-quiet now k none_held =
    elim (Bool-cases (ltb 0 (length k.line) && ltb (k.line_start_time + 20) now)) [
      | inl old ↦ rw (old, none_held) (refl, refl)
      | inr fresh ↦ rw (fresh, none_held) (refl, refl)
    ]

-- When the buffer from the serial port holds whole characters, at most one burst of them, and no
-- character is unfinished, the function echoes to the modem exactly these bytes, in order, behind
-- what was to be sent to it: characters of one byte, of UTF-8, and of the encodings with two bytes
-- whose first byte does not start UTF-8. The buffer to the modem has to have room for them.
pub process_chunk_echo :
    (os : Os) (now : ℕ) (ms : List ℕ → ℕ) (k : Chunk) (chars : List (List ℕ))
    → IsValid k.source
    → IsValid k.echo
    → k.multibyte ≡ []
    → contents k.source ≡ concat chars
    → All IsChar chars
    → length (concat chars) ≤ max_burst_size
    → length (contents k.echo) + length (concat chars) ≤ buffer_size
    → let k' = process_chunk os now ms k in
      (contents k'.echo ≡ contents k.echo ++ concat chars) × (k'.multibyte ≡ [])
unfolding process_chunk
process_chunk_echo os now ms k chars vs v none_held holds valid burst room =
    let (_, number, bytes, rest) = contents-read k.source max_burst_size vs in
    let whole : (read k.source max_burst_size).1 ≡ concat chars =
      bytes ∙ ap (take max_burst_size) holds ∙ take_more max_burst_size (concat chars) burst in
    let k' = record k { source = (read k.source max_burst_size).2 } in
    let (same, none_held') = expire-quiet now k' none_held in
    let (said, held) =
      chars_echo os now ms chars (expire now k') valid none_held' (subst IsValid (sym same) v)
        (omega (arith, ap (λ b. length (contents b)) same)) in
    elim (Bool-cases (ltb 0 (read k.source max_burst_size).0)) [
      | inl some_read ↦
          rw (some_read, whole) (said ∙ ap (λ b. contents b ++ concat chars) same, held)
      | inr nothing ↦ rw nothing (
        sym (append-nil (contents k.echo))
            ∙ ap (λ t. contents k.echo ++ t)
                (sym (nothing_read k.source number holds burst nothing)),
        none_held,
      )
    ]
