-- ===== src/Level3/Chunk/Forward.antt =====
-- The way of a line through `l3_process_serial_to_telnet_chunk` of src/level3.c to the server.
use modembridge.Prelude.{
  ℕ, ◌+◌, ◌≤◌, ◌≡◌, refl, sym, ap, subst, ◌∙◌, false, List, [], ◌∷◌, ◌++◌, append-nil, append_assoc,
  arith, if◌then◌else◌, Bool-cases, inl, inr, length, length-append, All,
}
use modembridge.Telnet.State.{Os, Telnet}
use modembridge.Level3.HayesFilter.{HayesFilter, is_line_end, filter_hayes_commands}
use modembridge.Level3.HayesFilter.Online.{
  Line, bytes, blocked, stream, unblocked, IsLine, IsOnline,
}
use modembridge.Level3.HayesFilter.Lines.{filter_hayes_commands_lines}
use modembridge.Level3.Chunk.{Chunk, max_burst_size, send_filtered, chunk_byte, chunk_bytes}
use modembridge.Level3.Chunk.Bytes.{Has, plain_byte, end_byte}
use modembridge.Level3.Chunk.Server.{IsReady, TakesAll, pieces, send_filtered-IsReady}

-- What the server is sent of the lines.
abbrev pub sent_lines : List Line → List (List ℕ)
sent_lines [] = []
sent_lines (l ∷ ls) = (if blocked l.0 then [] else bytes l ∷ []) ++ sent_lines ls

pieces-append : (body : List ℕ) (e : ℕ) → pieces (body ++ e ∷ []) ≡ (body ++ e ∷ []) ∷ []
unfolding pieces
pieces-append [] e = refl
pieces-append (c ∷ body) e = refl

pieces_of_line :
    (l : Line) → pieces (unblocked (l ∷ [])) ≡ (if blocked l.0 then [] else bytes l ∷ [])
unfolding pieces
pieces_of_line (body, e) = elim (Bool-cases (blocked body)) [
  | inl kept ↦ rw kept refl
  | inr free ↦ rw free (ap pieces (append-nil (body ++ e ∷ [])) ∙ pieces-append body e)
]

length-unblocked : (l : Line) → length (unblocked (l ∷ [])) ≤ length (bytes l)
length-unblocked (body, e) = elim (Bool-cases (blocked body)) [
  | inl kept ↦ rw kept (omega arith)
  | inr free ↦ rw free (omega (arith, ap (length {A = ℕ}) (append-nil (body ++ e ∷ []))))
]

module _ (os : Os) (now t : ℕ) (all : TakesAll os) where
  body_bytes :
      (body line tail : List ℕ) (k : Chunk) (hayes : HayesFilter) (telnet : Telnet)
      → Has k line hayes telnet
      → All (λ c. is_line_end c ≡ false) body
      → length line + length body ≤ 254
      → (k' : Chunk) × (chunk_bytes os now (λ _. t) (body ++ tail) k
          ≡ chunk_bytes os now (λ _. t) tail k')
        × Has k' (line ++ body) hayes telnet
  unfolding chunk_bytes
  body_bytes [] line tail k hayes telnet h plain short =
      (k, refl, subst (λ l. Has k l hayes telnet) (sym (append-nil line)) h)
  body_bytes (c ∷ body) line tail k hayes telnet h plain short =
      let h' = plain_byte os now t c k line hayes telnet h (omega arith) plain.0 in
      let (k', same, h'') =
        body_bytes body (line ++ c ∷ []) tail (chunk_byte os now t c k) hayes telnet h' plain.1
          (omega (arith, length-append line (c ∷ []))) in
      (k', same, subst (λ l. Has k' l hayes telnet) (append_assoc line (c ∷ []) body) h'')

  -- A whole line, from a filter that is online.
  whole_line :
      (l : Line) (tail : List ℕ) (k : Chunk)
      → IsLine l
      → k.line ≡ []
      → IsOnline t k.hayes []
      → IsReady k.telnet
      → (k' : Chunk) × (chunk_bytes os now (λ _. t) (bytes l ++ tail) k
          ≡ chunk_bytes os now (λ _. t) tail k')
        × (k'.line ≡ [])
        × IsOnline t k'.hayes []
        × IsReady k'.telnet
        × (k'.telnet.requests ≡ k.telnet.requests ++ (if blocked l.0 then [] else bytes l ∷ []))
  unfolding chunk_bytes
  whole_line (body, e) tail k valid none_held online ready =
      let start : Has k [] k.hayes k.telnet = record {
        held = none_held;
        filter = refl;
        server = refl;
      } in
      let (k', same, h) =
        body_bytes body [] (e ∷ tail) k k.hayes k.telnet start valid.0 (omega (arith, valid.2)) in
      let h' = end_byte os now t e k' body k.hayes k.telnet h valid.2 valid.1 in
      let size = length-append body (e ∷ []) in
      let nil : stream ((body, e) ∷ []) ≡ body ++ e ∷ [] = append-nil (body ++ e ∷ []) in
      let (filtered, online') =
        filter_hayes_commands_lines max_burst_size t k.hayes ((body, e) ∷ []) online (valid, tt)
          (omega (arith, ap (length {A = ℕ}) nil, size, valid.2)) in
      let l : Line = (body, e) in
      let f = filter_hayes_commands max_burst_size t k.hayes in
      let left : (f (body ++ e ∷ [])).0 ≡ unblocked (l ∷ []) =
        ap (λ s. (f s).0) (sym nil) ∙ filtered in
      let (ready', requests) =
        send_filtered-IsReady os (unblocked (l ∷ [])) k.telnet all ready
          (omega (arith, length-unblocked l, size, valid.2)) in
      let server : (chunk_byte os now t e k').telnet
          ≡ send_filtered os (unblocked (l ∷ [])) k.telnet =
        h'.server ∙ ap (λ s. send_filtered os s k.telnet) left in
      (
        chunk_byte os now t e k',
        ap (λ s. chunk_bytes os now (λ _. t) s k) (append_assoc body (e ∷ []) tail) ∙ same,
        h'.held,
        subst (λ c. IsOnline t c []) (sym (h'.filter ∙ ap (λ s. (f s).1) (sym nil))) online',
        subst IsReady (sym server) ready',
        ap (λ tn. tn.requests) server
            ∙ requests
            ∙ ap (λ s. k.telnet.requests ++ s) (pieces_of_line l),
      )

  -- Online, with no line begun, with less than a second since the last byte and the connection
  -- ready, the complete lines of a chunk reach the telnet server in order, each by itself and byte
  -- for byte as it came, and only those that the filter holds to be AT commands are left out. A
  -- byte 0xFF is no exception: it is sent as it is, and not doubled as telnet asks for. The lines
  -- have at most 254 bytes before their end, the socket takes all it is given, and the clock in
  -- milliseconds stands still during the chunk.
  pub chunk_bytes_forward :
      (lines : List Line) (k : Chunk)
      → All IsLine lines
      → k.line ≡ []
      → IsOnline t k.hayes []
      → IsReady k.telnet
      → let k' = chunk_bytes os now (λ _. t) (stream lines) k in
        (k'.telnet.requests ≡ k.telnet.requests ++ sent_lines lines)
        × IsReady k'.telnet
        × (k'.line ≡ [])
        × IsOnline t k'.hayes []
  unfolding chunk_bytes
  chunk_bytes_forward [] k valid none_held online ready =
      (sym (append-nil k.telnet.requests), ready, none_held, online)
  chunk_bytes_forward (l ∷ ls) k valid none_held online ready =
      let (k', same, none_held', online', ready', requests) =
        whole_line l (stream ls) k valid.0 none_held online ready in
      let (rest, ready'', none_held'', online'') =
        chunk_bytes_forward ls k' valid.1 none_held' online' ready' in
      rw same (
        rest
            ∙ ap (λ s. s ++ sent_lines ls) requests
            ∙ append_assoc k.telnet.requests (if blocked l.0 then [] else bytes l ∷ [])
                (sent_lines ls),
        ready'',
        none_held'',
        online'',
      )
