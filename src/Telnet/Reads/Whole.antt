-- ===== src/Telnet/Reads/Whole.antt =====
-- What `telnet_process_reads` of src/telnet.c hands out.
use modembridge.Prelude.{
  ℕ, zero, suc, ◌+◌, ◌-◌, ◌≤◌, ◌<◌, ◌≡◌, sym, ap, ap₂, ◌∙◌, Bool-cases, inl, inr, true, false, List,
  [], ◌∷◌, ◌++◌, append-nil, append_assoc, arith, length, length-append, length-take, take, drop,
  take-drop, take-length, drop_all, drop-nil, ltb, leb, if◌then◌else◌,
}
use modembridge.Common.{success, buffer_size}
use modembridge.Telnet.State.{Os, Telnet, is_open}
use modembridge.Telnet.Send.{received}
use modembridge.Telnet.Input.{process_input}
use modembridge.Telnet.Input.Stream.{
  emits, decode, process_input-decode, decode-append, length-emits-le,
}
use modembridge.Telnet.Reads.{chunk_limit, chunk_size, read_loop, compact, process_reads}
use modembridge.Telnet.Reads.Cursor.{cursor, decode-cursor}

length-decode-le : (os : Os) (xs : List ℕ) (tn : Telnet) → length (decode os tn xs).0 ≤ length xs
unfolding decode
length-decode-le os [] tn = omega arith
length-decode-le os (c ∷ cs) tn = omega (
  arith,
  length-emits-le tn.state c,
  length-append (emits tn.state c) (decode os _ cs).0,
  length-decode-le os cs _,
)

drop-drop : (m n : ℕ) (xs : List ℕ) → drop n (drop m xs) ≡ drop (m + n) xs
drop-drop zero n xs = ap (λ k. drop k xs) (omega arith)
drop-drop (suc m) n [] = drop-nil ℕ n ∙ sym (drop-nil ℕ (suc m + n))
drop-drop (suc m) n (x ∷ xs) =
    let e : suc (m + n) ≡ suc m + n = omega arith in drop-drop m n xs ∙ ap (λ k. drop k (x ∷ xs)) e

-- What one round takes from the buffer.
chunk : ℕ → List ℕ → List ℕ
chunk pos buf = take (chunk_size (length buf - pos)) (drop pos buf)

length-chunk : (pos : ℕ) (buf : List ℕ) → length (chunk pos buf) ≤ chunk_size (length buf - pos)
unfolding chunk
length-chunk pos buf = omega (arith, length-take (chunk_size (length buf - pos)) (drop pos buf))

-- One round of the loop: a chunk is decoded.
module _ (os : Os) (size : ℕ) (tn : Telnet) (pos : ℕ) (buf : List ℕ) where
  process_chunk :
      process_input os (cursor tn pos buf) (chunk pos buf) buffer_size
      ≡ ((decode os tn (chunk pos buf)).0, cursor (decode os tn (chunk pos buf)).1 pos buf)
  process_chunk =
      process_input-decode os (cursor tn pos buf) (chunk pos buf) buffer_size
        (ground (arith, length-chunk pos buf))
      ∙ decode-cursor os (chunk pos buf) tn pos buf

  read_round :
      (fuel : ℕ) (out : List ℕ)
      → pos < length buf
      → read_loop os size (suc fuel) (cursor tn pos buf) out ≡ (
          let t =
            cursor (decode os tn (chunk pos buf)).1 (pos + chunk_size (length buf - pos)) buf in
          if leb (length out + length (decode os tn (chunk pos buf)).0) size
          then read_loop os size fuel t (out ++ (decode os tn (chunk pos buf)).0)
          else (out, t))
  unfolding read_loop chunk
  read_round fuel out h =
      let step = chunk_size (length buf - pos) in
      let inside : ltb pos (length buf) ≡ true = ground arith in
      let moved : Telnet → Telnet = λ t. record t { read_pos = t.read_pos + step } in
      let round : List ℕ × Telnet → List ℕ × Telnet = λ r.
        if leb (length out + length r.0) size
        then read_loop os size fuel (moved r.1) (out ++ r.0)
        else (out, moved r.1) in
      rw inside (ap round process_chunk)

-- The output and the client when everything from `pos` on is decoded.
abbrev all_read : Os → Telnet → ℕ → List ℕ → List ℕ → List ℕ × Telnet
all_read os tn pos buf out = (
  out ++ (decode os tn (drop pos buf)).0,
  cursor (decode os tn (drop pos buf)).1 (length buf) buf,
)

at_end :
    (os : Os) (tn : Telnet) (pos : ℕ) (buf out : List ℕ)
    → pos ≡ length buf
    → (out, cursor tn pos buf) ≡ all_read os tn pos buf out
unfolding decode
at_end os tn pos buf out e =
    let none_left : drop pos buf ≡ [] = drop_all pos buf (omega arith) in
    ap₂ (λ o n. (o, cursor tn n buf)) (sym (append-nil out)) e
    ∙ ap (λ xs. (out ++ (decode os tn xs).0, cursor (decode os tn xs).1 (length buf) buf))
        (sym none_left)

decode-chunk :
    (os : Os) (tn : Telnet) (pos : ℕ) (buf out : List ℕ)
    → let (got, t) = decode os tn (chunk pos buf) in
      all_read os t (pos + chunk_size (length buf - pos)) buf (out ++ got)
      ≡ all_read os tn pos buf out
unfolding chunk
decode-chunk os tn pos buf out =
    let step = chunk_size (length buf - pos) in
    let rest = drop (pos + step) buf in
    let (got, t) = decode os tn (chunk pos buf) in
    let split : chunk pos buf ++ rest ≡ drop pos buf =
      ap (λ xs. chunk pos buf ++ xs) (sym (drop-drop pos step buf))
      ∙ take-drop step (drop pos buf) in
    let e = sym (decode-append os (chunk pos buf) rest tn) ∙ ap (decode os tn) split in
    ap (λ o. (o, cursor (decode os t rest).1 (length buf) buf))
      (append_assoc out got (decode os t rest).0)
    ∙ ap (λ r. (out ++ r.0, cursor r.1 (length buf) buf)) e

read_loop_all :
    (os : Os) (size fuel : ℕ) (tn : Telnet) (pos : ℕ) (buf out : List ℕ)
    → pos ≤ length buf
    → length buf ≤ pos + fuel
    → length out + (length buf - pos) ≤ size
    → read_loop os size fuel (cursor tn pos buf) out ≡ all_read os tn pos buf out
read_loop_all os size zero tn pos buf out p f r =
    unfold read_loop in at_end os tn pos buf out (omega arith)
read_loop_all os size (suc fuel) tn pos buf out p f r = elim (Bool-cases (ltb pos (length buf))) [
  | inl more ↦
      let step = chunk_size (length buf - pos) in
      let got = (decode os tn (chunk pos buf)).0 in
      let short : length got ≤ step =
        omega (arith, length-decode-le os (chunk pos buf) tn, length-chunk pos buf) in
      let fits : leb (length out + length got) size ≡ true = ground arith in
      read_round os size tn pos buf fuel out (ground arith)
      ∙ rw fits (
          read_loop_all os size fuel (decode os tn (chunk pos buf)).1 (pos + step) buf (out ++ got)
            (ground arith) (ground arith) (ground (arith, length-append out got)))
      ∙ decode-chunk os tn pos buf out
  | inr stop ↦ unfold read_loop in rw stop (at_end os tn pos buf out (ground arith))
]

compact_all : (tn : Telnet) (buf : List ℕ) → compact (cursor tn (length buf) buf) ≡ cursor tn 0 []
unfolding compact
compact_all tn buf = ground arith

-- The loop on what is received, in an open and readable connection.
received_lem :
    (os : Os) (size : ℕ) (tn : Telnet) (c : ℕ) (cs : List ℕ)
    → is_open tn.fd ≡ true
    → tn.can_read ≡ true
    → let input = tn.read_buf ++ c ∷ cs in
      let r = read_loop os size (length input) (cursor tn tn.read_pos input) [] in
      process_reads os size (received c cs) tn ≡ (success, r.0, compact r.1)
unfolding process_reads
received_lem os size tn c cs o r = ground arith

-- Where bytes arrive on an open, readable connection, behind what waits in a read buffer that
-- starts at its first byte, and the output has room for them all, `telnet_process_reads` hands out
-- just what the receiving machine makes of the bytes taken as one stream: its chunks leave no trace.
-- The client is the machine's, with the read buffer empty.
pub process_reads-decode :
    (os : Os) (size : ℕ) (tn : Telnet) (c : ℕ) (cs : List ℕ)
    → is_open tn.fd ≡ true
    → tn.can_read ≡ true
    → tn.read_pos ≡ 0
    → length tn.read_buf + length (c ∷ cs) ≤ size
    → let input = tn.read_buf ++ c ∷ cs in
      process_reads os size (received c cs) tn ≡ (
        success,
        (decode os tn input).0,
        record (decode os tn input).1 { read_pos = 0; read_buf = [] },
      )
process_reads-decode os size tn c cs o r z h =
    let input = tn.read_buf ++ c ∷ cs in
    let room : 0 + (length input - 0) ≤ size = omega (arith, length-append tn.read_buf (c ∷ cs)) in
    let whole =
      read_loop_all os size (length input) tn 0 input [] (omega arith) (omega arith) room in
    let start = ap (λ p. read_loop os size (length input) (cursor tn p input) []) z ∙ whole in
    received_lem os size tn c cs o r
    ∙ ap (λ q. (success, q.0, compact q.1)) start
    ∙ ap (λ t. (success, (decode os tn input).0, t)) (compact_all (decode os tn input).1 input)

chunk_whole :
    (buf : List ℕ)
    → length buf ≤ chunk_limit
    → (chunk_size (length buf - 0) ≡ length buf) × (chunk 0 buf ≡ buf)
unfolding chunk
chunk_whole buf h =
    let e : chunk_size (length buf - 0) ≡ length buf = ground arith in
    (e, ap (λ n. take n buf) e ∙ take-length buf)

-- One chunk whose clean bytes do not fit.
loop_loses :
    (os : Os) (size : ℕ) (tn : Telnet) (c : ℕ) (cs : List ℕ)
    → length (c ∷ cs) ≤ chunk_limit
    → size < length (decode os tn (c ∷ cs)).0
    → read_loop os size (length (c ∷ cs)) (cursor tn 0 (c ∷ cs)) []
      ≡ ([], cursor (decode os tn (c ∷ cs)).1 (length (c ∷ cs)) (c ∷ cs))
loop_loses os size tn c cs h l =
    let input = c ∷ cs in
    let (whole, all) = chunk_whole input h in
    let full : leb (0 + length (decode os tn (chunk 0 input)).0) size ≡ false =
      ap (λ xs. leb (0 + length (decode os tn xs).0) size) all ∙ ground arith in
    let pos : 0 + chunk_size (length input - 0) ≡ length input = omega (arith, whole) in
    read_round os size tn 0 input (length cs) [] (omega arith)
    ∙ rw full (ap₂ (λ xs n. ([], cursor (decode os tn xs).1 n input)) all pos)

-- Where at most BUFFER_SIZE / 2 bytes arrive on an open, readable connection at an empty read
-- buffer, and their clean bytes do not fit the output, `telnet_process_reads` reports success,
-- hands out nothing, and leaves the read buffer empty and the client as if the bytes had been
-- handled.
pub process_reads_loses :
    (os : Os) (size : ℕ) (tn : Telnet) (c : ℕ) (cs : List ℕ)
    → is_open tn.fd ≡ true
    → tn.can_read ≡ true
    → tn.read_pos ≡ 0
    → tn.read_buf ≡ []
    → length (c ∷ cs) ≤ chunk_limit
    → size < length (decode os tn (c ∷ cs)).0
    → process_reads os size (received c cs) tn
      ≡ (success, [], record (decode os tn (c ∷ cs)).1 { read_pos = 0; read_buf = [] })
process_reads_loses os size tn c cs o r z b h l =
    let input = c ∷ cs in
    let start =
      ap₂ (λ p bs. read_loop os size (length (bs ++ input)) (cursor tn p (bs ++ input)) []) z b
      ∙ loop_loses os size tn c cs h l in
    received_lem os size tn c cs o r
    ∙ ap (λ q. (success, q.0, compact q.1)) start
    ∙ ap (λ t. (success, [], t)) (compact_all (decode os tn input).1 input)
