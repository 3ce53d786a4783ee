-- ===== src/Level3/Chunk/Echo.antt =====
-- What the modem hears of its own bytes from `l3_process_serial_to_telnet_chunk` of src/level3.c.
use modembridge.Prelude.{
  ℕ, suc, ◌<◌, ◌≡◌, refl, Bool, true, false, List, [], ◌∷◌, ◌++◌, arith, ltb, leb, ◌==◌,
  if◌then◌else◌, length,
}
use modembridge.Cbuf.{CircularBuffer, write}
use modembridge.Telnet.State.{Os}
use modembridge.Level3.HayesFilter.{is_line_end}
use modembridge.Level3.Multibyte.{is_multibyte_start, get_multibyte_length, is_multibyte_complete}
use modembridge.Level3.Chunk.{
  Chunk, echo_to_modem, after_byte, echo_byte, process_line, line_byte, chunk_byte,
}

-- The echo buffer and the bytes of an unfinished character.
pub record Hears (k : Chunk) (echo : CircularBuffer) (bytes : List ℕ) (expected : ℕ) : Type 0 where
  pub sent : k.echo ≡ echo
  pub held : k.multibyte ≡ bytes
  pub awaited : k.multibyte_expected ≡ expected

if-Hears :
    (b : Bool) {x y : Chunk} {echo : CircularBuffer} {bytes : List ℕ} {n : ℕ}
    → Hears x echo bytes n
    → Hears y echo bytes n
    → Hears (if b then x else y) echo bytes n
if-Hears true h k = h
if-Hears false h k = k

process_line-Hears :
    (os : Os) (ms : ℕ) (k : Chunk) {echo : CircularBuffer} {bytes : List ℕ} {n : ℕ}
    → Hears k echo bytes n
    → Hears (process_line os ms k) echo bytes n
unfolding process_line
process_line-Hears os ms k h = record { sent = h.sent; held = h.held; awaited = h.awaited }

with_line-Hears :
    (line : List ℕ) (time : ℕ) (k : Chunk) {echo : CircularBuffer} {bytes : List ℕ} {n : ℕ}
    → Hears k echo bytes n
    → Hears (record k { line = line; line_start_time = time }) echo bytes n
with_line-Hears line time k h = record { sent = h.sent; held = h.held; awaited = h.awaited }

-- The line buffer, the filter and the server have no part in the echo.
line_byte-Hears :
    (os : Os) (now ms c : ℕ) (k : Chunk) {echo : CircularBuffer} {bytes : List ℕ} {n : ℕ}
    → Hears k echo bytes n
    → Hears (line_byte os now ms c k) echo bytes n
unfolding line_byte
line_byte-Hears os now ms c k h =
    let put = record k { line = k.line ++ c ∷ [] } in
    let added = if ltb (length k.line) 1023 then put else k in
    let h' =
      if-Hears (ltb (length k.line) 1023) (with_line-Hears (k.line ++ c ∷ []) k.line_start_time k h)
        h in
    let done = process_line-Hears os ms added h' in
    if-Hears (is_line_end c) done (
      if-Hears (leb 1023 (length added.line))
        (with_line-Hears (c ∷ []) now (process_line os ms added) done) h')

module _ (os : Os) (now ms c : ℕ) (k : Chunk) where
  abbrev started : Chunk
  started = record k { line_start_time = if length k.line == 0 then now else k.line_start_time }

  -- A byte that stands for itself.
  pub single_byte :
      k.multibyte ≡ []
      → is_multibyte_start c ≡ false
      → Hears (chunk_byte os now ms c k) (write k.echo (c ∷ [])).1 [] k.multibyte_expected
  unfolding chunk_byte echo_byte echo_to_modem
  single_byte none_held single =
      let h : Hears (echo_byte k.multibyte now c started) (write k.echo (c ∷ [])).1 []
          k.multibyte_expected =
        rw (none_held, single) (record { sent = refl; held = refl; awaited = refl }) in
      line_byte-Hears os now ms c (echo_byte k.multibyte now c started) h

  -- The first byte of a character.
  pub first_byte :
      k.multibyte ≡ []
      → is_multibyte_start c ≡ true
      → Hears (chunk_byte os now ms c k) k.echo (c ∷ []) (get_multibyte_length c)
  unfolding chunk_byte echo_byte
  first_byte none_held start =
      let h : Hears (echo_byte k.multibyte now c started) k.echo (c ∷ []) (get_multibyte_length c) =
        rw (none_held, start) (record { sent = refl; held = refl; awaited = refl }) in
      line_byte-Hears os now ms c (echo_byte k.multibyte now c started) h

  -- A byte within a character, and its last one.
  module _ (first : ℕ) (got : List ℕ) (held : k.multibyte ≡ first ∷ got)
      (room : length got < 5) where
    pub inner_byte :
        is_multibyte_complete first (got ++ c ∷ []) k.multibyte_expected ≡ false
        → Hears (chunk_byte os now ms c k) k.echo (first ∷ (got ++ c ∷ [])) k.multibyte_expected
    unfolding chunk_byte echo_byte after_byte
    inner_byte incomplete =
        let fits : ltb (suc (length got)) 6 ≡ true = ground arith in
        let h : Hears (echo_byte k.multibyte now c started) k.echo (first ∷ (got ++ c ∷ []))
            k.multibyte_expected =
          rw (held, fits, incomplete) (record { sent = refl; held = refl; awaited = refl }) in
        line_byte-Hears os now ms c (echo_byte k.multibyte now c started) h

    pub last_byte :
        is_multibyte_complete first (got ++ c ∷ []) k.multibyte_expected ≡ true
        → Hears (chunk_byte os now ms c k) (write k.echo (first ∷ (got ++ c ∷ []))).1 [] 0
    unfolding chunk_byte echo_byte after_byte echo_to_modem
    last_byte complete =
        let fits : ltb (suc (length got)) 6 ≡ true = ground arith in
        let h : Hears (echo_byte k.multibyte now c started)
            (write k.echo (first ∷ (got ++ c ∷ []))).1 [] 0 =
          rw (held, fits, complete) (record { sent = refl; held = refl; awaited = refl }) in
        line_byte-Hears os now ms c (echo_byte k.multibyte now c started) h

  -- A byte that the buffer has no room for.
  pub lost_byte :
      (first : ℕ) (got : List ℕ)
      → k.multibyte ≡ first ∷ got
      → length got ≡ 5
      → is_multibyte_complete first got k.multibyte_expected ≡ false
      → Hears (chunk_byte os now ms c k) k.echo (first ∷ got) k.multibyte_expected
  unfolding chunk_byte echo_byte after_byte
  lost_byte first got held full incomplete =
      let fits : ltb (suc (length got)) 6 ≡ false = ground arith in
      let h : Hears (echo_byte k.multibyte now c started) k.echo (first ∷ got)
          k.multibyte_expected =
        rw (held, fits, incomplete) (record { sent = refl; held = refl; awaited = refl }) in
      line_byte-Hears os now ms c (echo_byte k.multibyte now c started) h
