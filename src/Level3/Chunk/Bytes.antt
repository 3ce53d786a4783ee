-- ===== src/Level3/Chunk/Bytes.antt =====
-- One byte and the line buffer of `l3_process_serial_to_telnet_chunk` of src/level3.c.
use modembridge.Prelude.{
  ℕ, suc, ◌≤◌, ◌≡◌, refl, ap, ap₂, Bool, true, false, List, [], ◌∷◌, ◌++◌, arith, ltb, leb, ◌==◌,
  if◌then◌else◌, Bool-cases, inl, inr, length, length-append,
}
use modembridge.Telnet.State.{Os, Telnet}
use modembridge.Level3.HayesFilter.{HayesFilter, is_line_end, filter_hayes_commands}
use modembridge.Level3.Multibyte.{is_multibyte_start, is_multibyte_complete}
use modembridge.Level3.Chunk.{
  Chunk, max_burst_size, echo_to_modem, after_byte, echo_byte, send_filtered, process_line,
  line_byte, chunk_byte,
}

-- The part of the state that has to do with lines.
pub record Has (k : Chunk) (line : List ℕ) (hayes : HayesFilter) (telnet : Telnet) : Type 0 where
  pub held : k.line ≡ line
  pub filter : k.hayes ≡ hayes
  pub server : k.telnet ≡ telnet

if-Has :
    (b : Bool) {x y : Chunk} {line : List ℕ} {hayes : HayesFilter} {telnet : Telnet}
    → Has x line hayes telnet
    → Has y line hayes telnet
    → Has (if b then x else y) line hayes telnet
if-Has true h k = h
if-Has false h k = k

-- The echo has no part in it.
after_byte-Has :
    (got : List ℕ) (k : Chunk) {line : List ℕ} {hayes : HayesFilter} {telnet : Telnet}
    → Has k line hayes telnet
    → Has (after_byte got k) line hayes telnet
unfolding after_byte echo_to_modem
after_byte-Has [] k h = h
after_byte-Has (first ∷ rest) k {line} {hayes} {telnet} h =
    let a : Has
        (record k {
          multibyte = [];
          multibyte_expected = 0;
          echo = (modembridge.Cbuf.write k.echo (first ∷ rest)).1;
        })
        line hayes telnet =
      record { held = h.held; filter = h.filter; server = h.server } in
    let b : Has (record k { multibyte = first ∷ rest }) line hayes telnet = record {
      held = h.held;
      filter = h.filter;
      server = h.server;
    } in
    if-Has (is_multibyte_complete first rest k.multibyte_expected) a b

echo_byte-Has :
    (got : List ℕ) (now c : ℕ) (k : Chunk) {line : List ℕ} {hayes : HayesFilter} {telnet : Telnet}
    → Has k line hayes telnet
    → Has (echo_byte got now c k) line hayes telnet
unfolding echo_byte echo_to_modem
echo_byte-Has [] now c k h = elim (Bool-cases (is_multibyte_start c)) [
  | inl start ↦ rw start (record { held = h.held; filter = h.filter; server = h.server })
  | inr single ↦ rw single (record { held = h.held; filter = h.filter; server = h.server })
]
echo_byte-Has (first ∷ rest) now c k h =
    after_byte-Has (if ltb (suc (length rest)) 6 then first ∷ (rest ++ c ∷ []) else first ∷ rest) k
      h

module _ (os : Os) (now ms c : ℕ) (k : Chunk) (line : List ℕ) (hayes : HayesFilter)
    (telnet : Telnet) (h : Has k line hayes telnet) (room : length line ≤ 254) where
  within :
      Has
        (echo_byte k.multibyte now c
          (record k { line_start_time = if length k.line == 0 then now else k.line_start_time }))
        line
        hayes
        telnet
  within =
      echo_byte-Has k.multibyte now c _
        (record { held = h.held; filter = h.filter; server = h.server })

  pub plain_byte :
      is_line_end c ≡ false → Has (chunk_byte os now ms c k) (line ++ c ∷ []) hayes telnet
  unfolding chunk_byte line_byte
  plain_byte plain =
      let e = within in
      let fits : ltb (length line) 1023 ≡ true = ground arith in
      let short : leb 1023 (length (line ++ c ∷ [])) ≡ false =
        ground (arith, length-append line (c ∷ [])) in
      rw (e.held, fits, plain, short) (record { held = refl; filter = e.filter; server = e.server })

  pub end_byte :
      is_line_end c ≡ true
      → let (filtered, hayes') = filter_hayes_commands max_burst_size ms hayes (line ++ c ∷ []) in
        Has (chunk_byte os now ms c k) [] hayes' (send_filtered os filtered telnet)
  unfolding chunk_byte line_byte process_line
  end_byte ends =
      let e = within in
      let fits : ltb (length line) 1023 ≡ true = ground arith in
      rw (e.held, fits, ends)
        (record {
          held = refl;
          filter =
              ap (λ f. (filter_hayes_commands max_burst_size ms f (line ++ c ∷ [])).1) e.filter;
          server =
              ap₂
                (λ f tn.
                  send_filtered os (filter_hayes_commands max_burst_size ms f (line ++ c ∷ [])).0
                    tn)
                e.filter e.server;
        })
