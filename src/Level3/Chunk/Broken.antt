-- ===== src/Level3/Chunk/Broken.antt =====
-- A character that is no UTF-8, in `l3_process_serial_to_telnet_chunk` of src/level3.c.
use modembridge.Prelude.{
  ℕ, zero, suc, ◌-◌, ◌≤◌, ◌<◌, ◌≡◌, refl, ◌∙◌, true, false, List, [], ◌∷◌, ◌++◌, arith, ltb,
  Bool-cases, inl, inr, length, length-append, take,
}
use modembridge.Telnet.State.{Os}
use modembridge.Level3.Multibyte.{
  is_multibyte_start, get_multibyte_length, is_multibyte_complete, all_continuation,
}
use modembridge.Level3.Multibyte.Ranges.{
  char_length, is_utf8_lead, is_continuation, multibyte_length_lem, is_multibyte_start_lem,
  is_lead_lem, is_continuation_lem, long_length, long_lead,
}
use modembridge.Level3.Chunk.{Chunk, chunk_byte, chunk_bytes}
use modembridge.Level3.Chunk.Echo.{first_byte, inner_byte, lost_byte}

-- The buffer starts with a byte of UTF-8 and one that does not continue it.
record IsStuck (k : Chunk) (first b : ℕ) (got : List ℕ) : Type 0 where
  held : k.multibyte ≡ first ∷ b ∷ got
  short : length got ≤ 4
  two : 2 ≤ k.multibyte_expected

module _ (first b : ℕ) (byte : first < 256) (byte' : b < 256) (lead : is_utf8_lead first ≡ true)
    (broken : is_continuation b ≡ false) where
  broken_byte : (got : List ℕ) (m : ℕ) → 0 < m → all_continuation (take m (b ∷ got)) ≡ false
  unfolding all_continuation
  broken_byte got zero h = elim h [ ]
  broken_byte got (suc m) h = rw (is_continuation_lem b byte', broken) refl

  never_complete : (got : List ℕ) (n : ℕ) → 2 ≤ n → is_multibyte_complete first (b ∷ got) n ≡ false
  unfolding is_multibyte_complete all_continuation
  never_complete got n h = elim (Bool-cases (ltb (suc (length (b ∷ got))) n)) [
    | inl short ↦ rw short refl
    | inr long ↦ rw (long, is_lead_lem first byte, lead) (broken_byte got (n - 1) (omega arith))
  ]

  stays_stuck :
      (os : Os) (now : ℕ) (ms : List ℕ → ℕ) (cs got : List ℕ) (k : Chunk)
      → IsStuck k first b got
      → (chunk_bytes os now ms cs k).echo ≡ k.echo
  unfolding chunk_bytes
  stays_stuck os now ms [] got k h = refl
  stays_stuck os now ms (c ∷ cs) got k h = elim (Bool-cases (ltb (length got) 4)) [
    | inl room ↦
        let e =
          inner_byte os now (ms cs) c k first (b ∷ got) h.held (ground arith)
            (never_complete (got ++ c ∷ []) k.multibyte_expected h.two) in
        stays_stuck os now ms cs (got ++ c ∷ []) (chunk_byte os now (ms cs) c k) (record {
          held = e.held;
          short = ground (arith, length-append got (c ∷ []));
          two = omega (arith, e.awaited, h.two);
        })
        ∙ e.sent
    | inr full ↦
        let e =
          lost_byte os now (ms cs) c k first (b ∷ got) h.held (ground arith)
            (never_complete got k.multibyte_expected h.two) in
        stays_stuck os now ms cs got (chunk_byte os now (ms cs) c k)
          (record { held = e.held; short = h.short; two = omega (arith, e.awaited, h.two) })
        ∙ e.sent
  ]

  start : is_multibyte_start first ≡ true
  start = is_multibyte_start_lem first byte ∙ long_lead first lead

  -- Where no character is unfinished, a byte from 0xC0 to 0xF7 and one behind it that does not continue
  -- UTF-8, as in most characters of EUC-KR with such a first byte, stop the echo: whatever follows in
  -- the chunk, nothing is echoed.
  pub chunk_bytes_stuck :
      (os : Os) (now : ℕ) (ms : List ℕ → ℕ) (k : Chunk) (rest : List ℕ)
      → k.multibyte ≡ []
      → (chunk_bytes os now ms (first ∷ b ∷ rest) k).echo ≡ k.echo
  unfolding chunk_bytes
  chunk_bytes_stuck os now ms k rest none_held =
      let e = first_byte os now (ms (b ∷ rest)) first k none_held start in
      let k' = chunk_byte os now (ms (b ∷ rest)) first k in
      let n : get_multibyte_length first ≡ char_length first =
        rw start at (multibyte_length_lem first byte) in
      let two : 2 ≤ k'.multibyte_expected = omega (arith, e.awaited, n, long_length first lead) in
      let e' =
        inner_byte os now (ms rest) b k' first [] e.held (omega arith)
          (never_complete [] k'.multibyte_expected two) in
      stays_stuck os now ms rest [] (chunk_byte os now (ms rest) b k')
        (record { held = e'.held; short = omega arith; two = omega (arith, e'.awaited, two) })
      ∙ e'.sent
      ∙ e.sent
