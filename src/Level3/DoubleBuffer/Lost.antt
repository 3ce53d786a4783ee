-- ===== src/Level3/DoubleBuffer/Lost.antt =====
-- What the double buffer of src/level3.c hands out: nothing.
use modembridge.Prelude.{
  ℕ, ◌-◌, ◌≤◌, min, ◌≡◌, refl, sym, ap, ◌∙◌, List, [], ◌∷◌, ◌++◌, append-nil, arith, length,
  length-append, length-take, take,
}
use modembridge.Level3.DoubleBuffer.{
  DoubleBuffer, pipeline_buffer_size, init, at_most, write, available, free, read, switch_buffers,
}

-- The calls on a double buffer; each write and read has its time.
pub data Call : Type 0 where
  write_call : ℕ → List ℕ → Call
  read_call : ℕ → ℕ → Call
  switch_call : Call

-- The buffer after a call, and the bytes that the call hands out.
pub call : Call → DoubleBuffer → List ℕ × DoubleBuffer
call (write_call now cs) d = ([], (write d now cs).1)
call (read_call now len) d = read d now len
call switch_call d = ([], switch_buffers d)

-- All bytes that a history of calls hands out.
pub delivered : List Call → DoubleBuffer → List ℕ
delivered [] d = []
delivered (c ∷ cs) d = (call c d).0 ++ delivered cs (call c d).1

main_stays : (c : Call) (d : DoubleBuffer) → d.main_bytes ≡ [] → (call c d).1.main_bytes ≡ []
unfolding call write read switch_buffers
main_stays (write_call now []) d h = h
main_stays (write_call now (c ∷ cs)) d h = ground arith
main_stays (read_call now len) d h = ground arith
main_stays switch_call d h = h

hands_out_nothing : (c : Call) (d : DoubleBuffer) → d.main_bytes ≡ [] → (call c d).0 ≡ []
unfolding call read available
hands_out_nothing (write_call now cs) d h = refl
hands_out_nothing (read_call now len) d h = ground arith
hands_out_nothing switch_call d h = refl

delivered_from : (calls : List Call) (d : DoubleBuffer) → d.main_bytes ≡ [] → delivered calls d ≡ []
unfolding delivered
delivered_from [] d h = refl
delivered_from (c ∷ cs) d h =
    ap (λ o. o ++ delivered cs (call c d).1) (hands_out_nothing c d h)
    ∙ delivered_from cs (call c d).1 (main_stays c d h)

-- No history of writes, reads and buffer switches on a fresh double buffer ever hands out a byte:
-- a switch clears the bytes that were written, and nothing moves them to the side that is read.
pub delivered_nothing : (calls : List Call) → delivered calls init ≡ []
delivered_nothing calls = delivered_from calls init refl

-- Where the write side is within its array, a write takes as many bytes as there is room for,
-- behind those that are held, says how many, and leaves the write side within its array.
write_takes_room :
    (d : DoubleBuffer) (now : ℕ) (cs : List ℕ)
    → length d.sub_bytes ≤ pipeline_buffer_size
    → let (n, d') = write d now cs in
      (n ≡ min (length cs) (free d))
      × (d'.sub_bytes ≡ d.sub_bytes ++ take n cs)
      × (length d'.sub_bytes ≤ pipeline_buffer_size)
unfolding write free
write_takes_room d now [] h = (omega arith, sym (append-nil d.sub_bytes), h)
write_takes_room d now (c ∷ cs) h =
    let n = at_most (length (c ∷ cs)) (pipeline_buffer_size - length d.sub_bytes) in
    (
      ground arith,
      ground (arith, append-nil d.sub_bytes),
      ground (arith, length-append d.sub_bytes (take n (c ∷ cs)), length-take n (c ∷ cs)),
    )
