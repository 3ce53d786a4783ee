-- ===== src/Telnet/Queue/Order.antt =====
-- What is queued in the write buffer of src/telnet.c is sent once and in order.
use modembridge.Prelude.{
  ℕ, ◌-◌, ◌≤◌, ◌≡◌, refl, sym, true, not, ◌||◌, ltb, ◌==◌, ap, ◌∙◌, List, [], ◌∷◌, ◌++◌, append-nil,
  append_assoc, arith, length, length-append, take, drop, take-drop, drop_all, length-drop,
  Bool-cases, inl, inr,
}
use modembridge.Common.{Status, success}
use modembridge.Telnet.State.{SendResult, sent, would_block, failed, Os, Telnet, is_open}
use modembridge.Telnet.Send.{update_activity}
use modembridge.Telnet.Queue.{write_buf_size, queue_write, settle, after_flush, flush_writes}

-- `send` takes no more bytes than it is handed.
abbrev pub TakesAtMost : Os → Type 0
TakesAtMost os =
    (log : List (List ℕ)) (buf : List ℕ) (n : ℕ) → os.send log buf ≡ sent n → n ≤ length buf

-- What the system takes of one buffer, by the answer of `send`.
abbrev pub taken : SendResult → List ℕ → List ℕ
taken (sent n) buf = take n buf
taken would_block buf = []
taken failed buf = []

-- The bytes that the system has taken of all buffers, in order.
pub stream : Os → List (List ℕ) → List (List ℕ) → List ℕ
stream os log [] = []
stream os log (buf ∷ bufs) = taken (os.send log buf) buf ++ stream os (log ++ buf ∷ []) bufs

-- The write buffer begins at its first byte, and fits its array.
pub record IsCompact (tn : Telnet) : Type 0 where
  pub at_start : tn.write_pos ≡ 0
  pub fits : length tn.write_buf ≤ write_buf_size

stream-append :
    (os : Os) (xs ys log : List (List ℕ))
    → stream os log (xs ++ ys) ≡ stream os log xs ++ stream os (log ++ xs) ys
unfolding stream
stream-append os [] ys log = ap (λ l. stream os l ys) (sym (append-nil log))
stream-append os (x ∷ xs) ys log =
    ap (λ s. taken (os.send log x) x ++ s)
      (stream-append os xs ys (log ++ x ∷ [])
        ∙ ap (λ l. stream os (log ++ x ∷ []) xs ++ stream os l ys) (append_assoc log (x ∷ []) xs))
    ∙ sym (append_assoc (taken (os.send log x) x) _ _)

-- The bytes that were taken, with those that wait.
abbrev pub all_bytes : Os → Telnet → List ℕ
all_bytes os tn = stream os [] tn.requests ++ tn.write_buf

-- After a flush at the start of the buffer the bytes not taken are left.
after_flush_lem :
    (os : Os) (tn : Telnet) (answer : SendResult)
    → IsCompact tn
    → let t = (after_flush os tn answer).1 in
      IsCompact t
      × (t.requests ≡ tn.requests)
      × (taken answer tn.write_buf ++ t.write_buf ≡ tn.write_buf)
unfolding after_flush settle update_activity
after_flush_lem os tn (sent n) v = (
  record {
    at_start = ground (arith, v.at_start);
    fits = ground (arith, v.at_start, v.fits, length-drop n tn.write_buf);
  },
  ground arith,
  ground (
    arith,
    v.at_start,
    take-drop n tn.write_buf,
    append-nil (take n tn.write_buf),
    drop_all n tn.write_buf,
  ),
)
after_flush_lem os tn would_block v = (v, refl, refl)
after_flush_lem os tn failed v = (v, refl, refl)

stream_last :
    (os : Os) (log : List (List ℕ)) (buf : List ℕ)
    → stream os [] (log ++ buf ∷ []) ≡ stream os [] log ++ taken (os.send log buf) buf
stream_last os log buf =
    stream-append os log (buf ∷ []) []
    ∙ unfold stream in ap (λ t. stream os [] log ++ t) (append-nil _)

-- A flush that hands out the buffer.
sent_flush :
    (os : Os) (tn : Telnet) (pending : List ℕ)
    → IsCompact tn
    → tn.write_buf ≡ pending
    → let t = record tn { requests = tn.requests ++ pending ∷ [] } in
      let t' = (after_flush os t (os.send tn.requests pending)).1 in
      IsCompact t' × (all_bytes os t' ≡ all_bytes os tn)
sent_flush os tn pending v e =
    let t = record tn { requests = tn.requests ++ pending ∷ [] } in
    let answer = os.send tn.requests pending in
    let (w, log, split) =
      after_flush_lem os t answer (record { at_start = v.at_start; fits = v.fits }) in
    let t' = (after_flush os t answer).1 in
    (
      w,
      ap (λ l. stream os [] l ++ t'.write_buf) log
          ∙ ap (λ s. s ++ t'.write_buf) (stream_last os tn.requests pending)
          ∙ append_assoc (stream os [] tn.requests) (taken answer pending) t'.write_buf
          ∙ ap (λ s. stream os [] tn.requests ++ s)
              (ap (λ p. taken answer p ++ t'.write_buf) (sym e) ∙ split),
    )

-- A call on the write buffer.
pub data Call : Type 0 where
  queue_call : List ℕ → Call
  flush_call : Call

unfoldable pub call : Os → Call → Telnet → Status × Telnet
call os (queue_call payload) tn = queue_write tn payload
call os flush_call tn = flush_writes os tn

-- What a call adds to the bytes on their way: the payload that `telnet_queue_write` accepts.
abbrev pub accepted_of : Call → Status → List ℕ
accepted_of (queue_call payload) success = payload
accepted_of (queue_call payload) _ = []
accepted_of flush_call _ = []

-- A call keeps the buffer compact, and adds the bytes it accepts to those on their way.
abbrev Keeps : Os → Telnet → Telnet → List ℕ → Type 0
Keeps os tn t accepted = IsCompact t × (all_bytes os t ≡ all_bytes os tn ++ accepted)

stays : (os : Os) (tn : Telnet) → IsCompact tn → Keeps os tn tn []
stays os tn v = (v, sym (append-nil (all_bytes os tn)))

flush_writes-Keeps : (os : Os) (tn : Telnet) → IsCompact tn → Keeps os tn (flush_writes os tn).1 []
unfolding flush_writes
flush_writes-Keeps os tn v =
    let e : tn.write_buf ≡ drop tn.write_pos tn.write_buf =
      ap (λ n. drop n tn.write_buf) (sym v.at_start) in
    let (w, same) = sent_flush os tn (drop tn.write_pos tn.write_buf) v e in
    elim (Bool-cases (not (is_open tn.fd))) [
      | inl shut ↦ rw shut (stays os tn v)
      | inr opened ↦ rw opened (elim (Bool-cases (not tn.can_write || length tn.write_buf == 0)) [
        | inl idle ↦ rw idle (stays os tn v)
        | inr busy ↦ rw busy (w, same ∙ sym (append-nil (all_bytes os tn)))
      ])
    ]

is_nil : (xs : List ℕ) → (length xs == 0) ≡ true → xs ≡ []
is_nil [] h = refl
is_nil (x ∷ xs) h = absurd (ground arith)

queue_write-Keeps :
    (os : Os) (tn : Telnet) (payload : List ℕ)
    → IsCompact tn
    → let (status, t) = queue_write tn payload in
      Keeps os tn t (accepted_of (queue_call payload) status)
unfolding queue_write
queue_write-Keeps os tn payload v = elim (Bool-cases (not (is_open tn.fd))) [
  | inl shut ↦ rw shut (stays os tn v)
  | inr opened ↦ rw opened (elim (Bool-cases (not tn.is_connected)) [
    | inl off ↦ rw off (stays os tn v)
    | inr on ↦ rw on (elim (Bool-cases (length payload == 0)) [
      | inl nothing ↦ rw nothing (
        v,
        sym (append-nil (all_bytes os tn))
            ∙ ap (λ p. all_bytes os tn ++ p) (sym (is_nil payload nothing)),
      )
      | inr some_bytes ↦
          rw some_bytes
            (elim (Bool-cases (ltb (write_buf_size - length tn.write_buf) (length payload))) [
              | inl full ↦ rw full (stays os tn v)
              | inr room ↦ rw room (
                record {
                  at_start = v.at_start;
                  fits = ground (arith, length-append tn.write_buf payload, v.fits);
                },
                sym (append_assoc (stream os [] tn.requests) tn.write_buf payload),
              )
            ])
    ])
  ])
]

-- A history of calls: the bytes accepted, and the client.
unfoldable pub run : Os → List Call → Telnet → List ℕ × Telnet
run os [] tn = ([], tn)
run os (c ∷ cs) tn =
    let (status, t) = call os c tn in
    let (more, t') = run os cs t in (accepted_of c status ++ more, t')

call-Keeps :
    (os : Os) (c : Call) (tn : Telnet)
    → IsCompact tn
    → let (status, t) = call os c tn in Keeps os tn t (accepted_of c status)
unfolding call
call-Keeps os (queue_call payload) tn v = queue_write-Keeps os tn payload v
call-Keeps os flush_call tn v = flush_writes-Keeps os tn v

-- However the calls of `telnet_queue_write` and `telnet_flush_writes` follow one another and
-- however much `send` takes each time, the bytes that the system has taken, followed by those that
-- wait in the buffer, are the ones of before followed by every payload that was accepted, in order:
-- none is lost, doubled or moved. The buffer stays within its array and begins at its first byte.
pub stream-run :
    (os : Os) (calls : List Call) (tn : Telnet)
    → IsCompact tn
    → let (accepted, t) = run os calls tn in
      IsCompact t
      × (stream os [] t.requests ++ t.write_buf
          ≡ (stream os [] tn.requests ++ tn.write_buf) ++ accepted)
unfolding run
stream-run os [] tn v = stays os tn v
stream-run os (c ∷ cs) tn v =
    let (w, e) = call-Keeps os c tn v in
    let (status, t) = call os c tn in
    let (w', e') = stream-run os cs t w in
    (
      w',
      e'
          ∙ ap (λ s. s ++ (run os cs t).0) e
          ∙ append_assoc (all_bytes os tn) (accepted_of c status) (run os cs t).0,
    )
