-- ===== src/Cbuf/Fifo.antt =====
-- The circular buffer of src/bridge.c against a queue of at most BUFFER_SIZE bytes.
use modembridge.Prelude.{
  ℕ, zero, suc, ◌+◌, ◌-◌, ◌<◌, min, ◌≡◌, inl, inr, refl, ap, ap₂, sym, ◌∙◌, List, [], ◌∷◌, ◌++◌,
  append-nil, append_assoc, arith, length, take, drop, take-nil, take_of_pos, get_or, ltb,
  Bool-cases,
}
use modembridge.Common.{buffer_size}
use modembridge.Cbuf.{
  CircularBuffer, put, write_from, write, take_one, read_from, read, available, free,
}
use modembridge.Cbuf.Invariant.{
  IsValid, stored, contents, length-stored, put-IsValid, contents-put, take_one-IsValid,
  contents-take_one,
}

pub length-contents : (b : CircularBuffer) → length (contents b) ≡ b.count
length-contents b = length-stored b.bytes b.read_pos b.count

-- What a loop of writes has done when it stops.
record Wrote (b : CircularBuffer) (cs : List ℕ) (done : ℕ) (r : ℕ × CircularBuffer) : Type 0 where
  valid : IsValid r.1
  number : r.0 ≡ done + min (length cs) (buffer_size - b.count)
  stores : contents r.1 ≡ contents b ++ take (buffer_size - b.count) cs

count-put : (b : CircularBuffer) (c : ℕ) → (put b c).count ≡ b.count + 1
unfolding put
count-put b c = refl

write_from-Wrote :
    (cs : List ℕ) (b : CircularBuffer) (done : ℕ)
    → IsValid b
    → Wrote b cs done (write_from b cs done)
unfolding write_from
write_from-Wrote [] b done v = record {
  valid = v;
  number = omega arith;
  stores = sym (ap (λ t. contents b ++ t) (take-nil ℕ (buffer_size - b.count)) ∙ append-nil _);
}
write_from-Wrote (c ∷ cs) b done v = elim (Bool-cases (ltb b.count buffer_size)) [
  | inl room ↦ rw room (
      let h : b.count < buffer_size = ground arith in
      let w = write_from-Wrote cs (put b c) (done + 1) (put-IsValid b c v h) in
      let space : buffer_size - (put b c).count ≡ buffer_size - b.count - 1 =
        omega (arith, count-put b c) in
      record {
        valid = w.valid;
        number = omega (arith, w.number, count-put b c);
        stores =
            w.stores
            ∙ ap₂ (λ s n. s ++ take n cs) (contents-put b c v h) space
            ∙ append_assoc (contents b) (c ∷ []) _
            ∙ ap (λ t. contents b ++ t)
                (sym (take_of_pos (buffer_size - b.count) c cs (omega arith)));
      })
  | inr full ↦ rw full (
      let h : buffer_size - b.count ≡ 0 = ground arith in
      record {
        valid = v;
        number = omega (arith, h);
        stores = sym (ap (λ n. contents b ++ take n (c ∷ cs)) h ∙ append-nil _);
      })
]

-- What a loop of reads has done when it stops.
record DidRead (b : CircularBuffer) (len done : ℕ) (out : List ℕ) (r : ℕ × List ℕ × CircularBuffer)
    : Type 0 where
  valid : IsValid r.2
  number : r.0 ≡ done + min len b.count
  bytes : r.1 ≡ out ++ take len (contents b)
  rest : contents r.2 ≡ drop len (contents b)

count-take_one : (b : CircularBuffer) → (take_one b).count ≡ b.count - 1
unfolding take_one
count-take_one b = refl

contents_of_empty : (b : CircularBuffer) → b.count ≡ 0 → contents b ≡ []
contents_of_empty b h = ap (stored b.bytes b.read_pos) h

read_from-DidRead :
    (len : ℕ) (b : CircularBuffer) (done : ℕ) (out : List ℕ)
    → IsValid b
    → DidRead b len done out (read_from b len done out)
unfolding read_from
read_from-DidRead zero b done out v = record {
  valid = v;
  number = omega arith;
  bytes = sym (append-nil out);
  rest = refl;
}
read_from-DidRead (suc len) b done out v = elim (Bool-cases (ltb 0 b.count)) [
  | inl some_left ↦ rw some_left (
      let h : 0 < b.count = ground arith in
      let c = get_or b.bytes b.read_pos 0 in
      let w =
        read_from-DidRead len (take_one b) (done + 1) (out ++ c ∷ []) (take_one-IsValid b v h) in
      let e = contents-take_one b h in
      record {
        valid = w.valid;
        number = omega (arith, w.number, count-take_one b);
        bytes = w.bytes ∙ append_assoc out (c ∷ []) _ ∙ ap (λ s. out ++ take (suc len) s) (sym e);
        rest = w.rest ∙ ap (drop (suc len)) (sym e);
      })
  | inr empty ↦ rw empty (
      let h : b.count ≡ 0 = ground arith in
      let e = contents_of_empty b h in
      record {
        valid = v;
        number = omega (arith, h);
        bytes = sym (ap (λ s. out ++ take (suc len) s) e ∙ append-nil out);
        rest = e ∙ ap (drop (suc len)) (sym e);
      })
]

-- From a valid buffer `cbuf_write` stores as many of the bytes as there is room for, behind those
-- that are stored, returns their number, and leaves the buffer valid.
pub contents-write :
    (b : CircularBuffer) (cs : List ℕ)
    → IsValid b
    → IsValid (write b cs).1
      × ((write b cs).0 ≡ min (length cs) (free b))
      × (contents (write b cs).1 ≡ contents b ++ take (free b) cs)
unfolding write free
contents-write b cs v =
    let w = write_from-Wrote cs b 0 v in (w.valid, omega (arith, w.number), w.stores)

-- From a valid buffer `cbuf_read` hands out the oldest bytes, `len` of them or all that are
-- stored, returns their number, keeps the others in order, and leaves the buffer valid.
pub contents-read :
    (b : CircularBuffer) (len : ℕ)
    → IsValid b
    → IsValid (read b len).2
      × ((read b len).0 ≡ min len (available b))
      × ((read b len).1 ≡ take len (contents b))
      × (contents (read b len).2 ≡ drop len (contents b))
unfolding read available
contents-read b len v =
    let w = read_from-DidRead len b 0 [] v in (w.valid, omega (arith, w.number), w.bytes, w.rest)
