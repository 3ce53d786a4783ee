-- ===== src/Cbuf/Trace.antt =====
-- Whole histories of calls on the circular buffer of src/bridge.c.
use modembridge.Prelude.{
  ℕ, ◌-◌, min, ◌≡◌, refl, sym, ap, ap₂, ◌∙◌, Bool, List, [], ◌∷◌, ◌++◌, length, take, drop, leb,
  ◌==◌,
}
use modembridge.Common.{buffer_size}
use modembridge.Cbuf.{CircularBuffer, write, read, available, free, is_empty, is_full, clear}
use modembridge.Cbuf.Invariant.{IsValid, contents, clear-IsValid}
use modembridge.Cbuf.Fifo.{length-contents, contents-write, contents-read}

-- A call, and what its caller sees.
pub data Call : Type 0 where
  write_call : List ℕ → Call
  read_call : ℕ → Call
  available_call free_call is_empty_call is_full_call clear_call : Call

pub data Answer : Type 0 where
  wrote : ℕ → Answer
  got : ℕ → List ℕ → Answer
  number : ℕ → Answer
  truth : Bool → Answer
  done : Answer

pub run : CircularBuffer → List Call → List Answer
run b [] = []
run b (write_call cs ∷ calls) = wrote (write b cs).0 ∷ run (write b cs).1 calls
run b (read_call n ∷ calls) = got (read b n).0 (read b n).1 ∷ run (read b n).2 calls
run b (available_call ∷ calls) = number (available b) ∷ run b calls
run b (free_call ∷ calls) = number (free b) ∷ run b calls
run b (is_empty_call ∷ calls) = truth (is_empty b) ∷ run b calls
run b (is_full_call ∷ calls) = truth (is_full b) ∷ run b calls
run b (clear_call ∷ calls) = done ∷ run (clear b) calls

-- The same calls on a plain queue that takes at most `buffer_size` bytes.
pub run_queue : List ℕ → List Call → List Answer
run_queue q [] = []
run_queue q (write_call cs ∷ calls) =
    let room = buffer_size - length q in
    wrote (min (length cs) room) ∷ run_queue (q ++ take room cs) calls
run_queue q (read_call n ∷ calls) = got (min n (length q)) (take n q) ∷ run_queue (drop n q) calls
run_queue q (available_call ∷ calls) = number (length q) ∷ run_queue q calls
run_queue q (free_call ∷ calls) = number (buffer_size - length q) ∷ run_queue q calls
run_queue q (is_empty_call ∷ calls) = truth (length q == 0) ∷ run_queue q calls
run_queue q (is_full_call ∷ calls) = truth (leb buffer_size (length q)) ∷ run_queue q calls
run_queue q (clear_call ∷ calls) = done ∷ run_queue [] calls

available_lem : (b : CircularBuffer) → available b ≡ length (contents b)
unfolding available
available_lem b = sym (length-contents b)

free_lem : (b : CircularBuffer) → free b ≡ buffer_size - length (contents b)
unfolding free
free_lem b = ap (λ n. buffer_size - n) (sym (length-contents b))

is_empty_lem : (b : CircularBuffer) → is_empty b ≡ (length (contents b) == 0)
unfolding is_empty
is_empty_lem b = ap (λ n. n == 0) (sym (length-contents b))

is_full_lem : (b : CircularBuffer) → is_full b ≡ leb buffer_size (length (contents b))
unfolding is_full
is_full_lem b = ap (leb buffer_size) (sym (length-contents b))

contents-clear : (b : CircularBuffer) → contents (clear b) ≡ []
unfolding clear
contents-clear b = refl

-- From a valid buffer, every history of calls gets the answers that a plain queue of at most
-- BUFFER_SIZE bytes, holding the same bytes, gives.
pub run-run_queue :
    (calls : List Call) (b : CircularBuffer)
    → IsValid b
    → run b calls ≡ run_queue (contents b) calls
unfolding run run_queue
run-run_queue [] b v = refl
run-run_queue (write_call cs ∷ calls) b v =
    let w = contents-write b cs v in
    ap₂ (λ n r. wrote n ∷ r) (w.1 ∙ ap (min (length cs)) (free_lem b))
      (run-run_queue calls (write b cs).1 w.0
        ∙ ap (λ q. run_queue q calls) (w.2 ∙ ap (λ n. contents b ++ take n cs) (free_lem b)))
run-run_queue (read_call n ∷ calls) b v =
    let r = contents-read b n v in
    ap₂ ◌∷◌ (ap₂ got (r.1 ∙ ap (min n) (available_lem b)) r.2)
      (run-run_queue calls (read b n).2 r.0 ∙ ap (λ q. run_queue q calls) r.3)
run-run_queue (available_call ∷ calls) b v =
    ap₂ (λ n r. number n ∷ r) (available_lem b) (run-run_queue calls b v)
run-run_queue (free_call ∷ calls) b v =
    ap₂ (λ n r. number n ∷ r) (free_lem b) (run-run_queue calls b v)
run-run_queue (is_empty_call ∷ calls) b v =
    ap₂ (λ n r. truth n ∷ r) (is_empty_lem b) (run-run_queue calls b v)
run-run_queue (is_full_call ∷ calls) b v =
    ap₂ (λ n r. truth n ∷ r) (is_full_lem b) (run-run_queue calls b v)
run-run_queue (clear_call ∷ calls) b v =
    ap (λ r. done ∷ r)
      (run-run_queue calls (clear b) (clear-IsValid b v)
        ∙ ap (λ q. run_queue q calls) (contents-clear b))
