-- ===== src/Cbuf/Invariant.antt =====
-- The representation invariant of the circular buffer (src/bridge.c), and what it stores.
use modembridge.Prelude.{
  ℕ, zero, suc, ◌+◌, ◌-◌, ◌%◌, ◌≤◌, ◌<◌, ◌≡◌, ◌≢◌, refl, ap, ap₂, sym, ◌∙◌, List, [], ◌∷◌, ◌++◌,
  arith, length, length-set, length-replicate, set, get_or, get_or-set_self, get_or-set_ne,
}
use modembridge.Common.{buffer_size}
use modembridge.Cbuf.{CircularBuffer, init, put, take_one, clear}

pub record IsValid (b : CircularBuffer) : Type 0 where
  pub whole : length b.bytes ≡ buffer_size
  pub read_in : b.read_pos < buffer_size
  pub count_in : b.count ≤ buffer_size
  pub write_at : b.write_pos ≡ (b.read_pos + b.count) % buffer_size

-- The `n` bytes that are read from `pos` on.
abbrev pub stored : List ℕ → ℕ → ℕ → List ℕ
stored bytes pos zero = []
stored bytes pos (suc n) = get_or bytes pos 0 ∷ stored bytes ((pos + 1) % buffer_size) n

-- The bytes in the buffer, the oldest first.
abbrev pub contents : CircularBuffer → List ℕ
contents b = stored b.bytes b.read_pos b.count

pub length-stored : (bytes : List ℕ) (pos n : ℕ) → length (stored bytes pos n) ≡ n
length-stored bytes pos zero = refl
length-stored bytes pos (suc n) = ap suc (length-stored bytes ((pos + 1) % buffer_size) n)

-- A write behind the stored bytes adds one, as long as it does not meet the oldest.
stored-set :
    (bytes : List ℕ) (c pos n w : ℕ)
    → length bytes ≡ buffer_size
    → pos < buffer_size
    → n < buffer_size
    → w ≡ (pos + n) % buffer_size
    → stored (set bytes w c) pos (suc n) ≡ stored bytes pos n ++ c ∷ []
stored-set bytes c pos zero w hl hp hn e =
    let e' : w ≡ pos = omega arith in
    ap (λ x. x ∷ [])
      (ap (λ i. get_or (set bytes w c) i 0) (sym e') ∙ get_or-set_self bytes w c 0 (omega arith))
stored-set bytes c pos (suc n) w hl hp hn e =
    let ne : w ≢ pos = omega arith in
    ap₂ ◌∷◌ (get_or-set_ne bytes w pos c 0 ne) (
      stored-set bytes c ((pos + 1) % buffer_size) n w hl (omega arith) (omega arith) (omega arith))

pub init-IsValid : IsValid init
init-IsValid = record {
  whole = length-replicate {A = ℕ} buffer_size 0;
  read_in = omega arith;
  count_in = omega arith;
  write_at = refl;
}

pub put-IsValid :
    (b : CircularBuffer) (c : ℕ) → IsValid b → b.count < buffer_size → IsValid (put b c)
unfolding put
put-IsValid b c v h = record {
  whole = length-set b.bytes b.write_pos c ∙ v.whole;
  read_in = v.read_in;
  count_in = omega arith;
  write_at = omega arith;
}

pub contents-put :
    (b : CircularBuffer) (c : ℕ)
    → IsValid b
    → b.count < buffer_size
    → contents (put b c) ≡ contents b ++ c ∷ []
unfolding put
contents-put b c v h =
    let e : b.count + 1 ≡ suc b.count = omega arith in
    ap (stored (set b.bytes b.write_pos c) b.read_pos) e
    ∙ stored-set b.bytes c b.read_pos b.count b.write_pos v.whole v.read_in h v.write_at

pub take_one-IsValid : (b : CircularBuffer) → IsValid b → 0 < b.count → IsValid (take_one b)
unfolding take_one
take_one-IsValid b v h = record {
  whole = v.whole;
  read_in = omega arith;
  count_in = omega arith;
  write_at = omega arith;
}

pub contents-take_one :
    (b : CircularBuffer)
    → 0 < b.count
    → contents b ≡ get_or b.bytes b.read_pos 0 ∷ contents (take_one b)
unfolding take_one
contents-take_one b h =
    let e : b.count ≡ suc (b.count - 1) = omega arith in ap (stored b.bytes b.read_pos) e

pub clear-IsValid : (b : CircularBuffer) → IsValid b → IsValid (clear b)
unfolding clear
clear-IsValid b v = record {
  whole = v.whole;
  read_in = omega arith;
  count_in = omega arith;
  write_at = refl;
}
