-- ===== src/Level3/Enhanced/Silent.antt =====
-- What the enhanced double buffer of src/level3.c ever hands out.
use modembridge.Prelude.{
  ℕ, zero, suc, ◌-◌, ◌≤◌, ◌≡◌, refl, ap, ◌∙◌, Bool, true, false, List, [], ◌∷◌, ◌++◌, arith, ltb,
  if◌then◌else◌, length, length-append, length-take, take, drop, take-nil, drop-nil,
}
use modembridge.Level3.Enhanced.{
  Watermark, normal, low, empty, Result, buffer_success, invalid_param, no_memory, thread_error,
  Enhanced, init, usage, above, get_watermark_level, applies, set_backpressure,
  should_apply_enhanced_backpressure, resized, resize_buffer, wanted_size, after_resize, adapt_size,
  update_buffer_metrics, at_most, put, note_level, write, read,
}

-- Nothing to be read, no more to be written than the buffer holds, and no backpressure.
record IsSilent (b : Enhanced) : Type 0 where
  unread : b.main_bytes ≡ []
  fits : length b.sub_bytes ≤ b.buffer_size
  released : b.backpressure_active ≡ false

if-IsSilent : (c : Bool) {x y : Enhanced} → IsSilent x → IsSilent y → IsSilent (if c then x else y)
if-IsSilent true h k = h
if-IsSilent false h k = k

-- A result and a buffer.
record IsSilentResult (r : Result × Enhanced) : Type 0 where
  silent : IsSilent r.1

if-IsSilentResult :
    (c : Bool) {x y : Result × Enhanced}
    → IsSilentResult x
    → IsSilentResult y
    → IsSilentResult (if c then x else y)
if-IsSilentResult true h k = h
if-IsSilentResult false h k = k

-- The fields that matter are the same.
like :
    (b b' : Enhanced)
    → b'.main_bytes ≡ b.main_bytes
    → b'.sub_bytes ≡ b.sub_bytes
    → b'.buffer_size ≡ b.buffer_size
    → b'.backpressure_active ≡ b.backpressure_active
    → IsSilent b
    → IsSilent b'
like b b' main sub size active h = record {
  unread = main ∙ h.unread;
  fits = omega (arith, ap (length {A = ℕ}) sub, size, h.fits);
  released = active ∙ h.released;
}

half_full : (b : Enhanced) → IsSilent b → usage b ≤ b.buffer_size
half_full b h = omega (arith, ap (length {A = ℕ}) h.unread, h.fits)

never_applies : (b : Enhanced) → IsSilent b → applies false (get_watermark_level b) ≡ false
unfolding get_watermark_level applies
never_applies b h =
    let full : above 95 b ≡ false = ground (arith, half_full b h) in
    let much : above 80 b ≡ false = ground (arith, half_full b h) in
    rw (full, much) (lower (above 20 b) (above 5 b))
  where
    lower : (c d : Bool) → applies false (if c then normal else (if d then low else empty)) ≡ false
    lower true d = refl
    lower false true = refl
    lower false false = refl

set_backpressure-IsSilent :
    (should : Bool) (now : ℕ) (b : Enhanced)
    → should ≡ false
    → IsSilent b
    → IsSilent (set_backpressure should now b)
unfolding set_backpressure
set_backpressure-IsSilent true now b on h = cc
set_backpressure-IsSilent false now b off h =
    let changed : IsSilent (record b { backpressure_active = false; watermark_change_time = now }) =
      record { unread = h.unread; fits = h.fits; released = refl } in
    if-IsSilent b.backpressure_active changed h

-- An answer that lets a write through.
record IsOpen (r : Bool × Enhanced) : Type 0 where
  through : r.0 ≡ false
  silent : IsSilent r.1

if-IsOpen : (c : Bool) {x y : Bool × Enhanced} → IsOpen x → IsOpen y → IsOpen (if c then x else y)
if-IsOpen true h k = h
if-IsOpen false h k = k

should_apply-IsOpen :
    (now : ℕ) (b : Enhanced) → IsSilent b → IsOpen (should_apply_enhanced_backpressure now b)
unfolding should_apply_enhanced_backpressure
should_apply-IsOpen now b h =
    let should = applies b.backpressure_active (get_watermark_level b) in
    let off : should ≡ false =
      ap (λ c. applies c (get_watermark_level b)) h.released ∙ never_applies b h in
    let yes_enabled : IsOpen (should, set_backpressure should now b) = record {
      through = off;
      silent = set_backpressure-IsSilent should now b off h;
    } in
    let disabled : IsOpen (false, b) = record { through = refl; silent = h } in
    if-IsOpen b.backpressure_enabled yes_enabled disabled

resized-IsSilent : (n : ℕ) (b : Enhanced) → IsSilent b → IsSilent (resized n b)
unfolding resized
resized-IsSilent n b h = record {
  unread = ap (take n) h.unread ∙ take-nil ℕ n;
  fits = omega (arith, length-take n b.sub_bytes);
  released = h.released;
}

after_resize-IsSilent :
    (now : ℕ) (r : Result × Enhanced) → IsSilent r.1 → IsSilent (after_resize now r)
unfolding after_resize
after_resize-IsSilent now (buffer_success, b) h = like b _ refl refl refl refl h
after_resize-IsSilent now (invalid_param, b) h = h
after_resize-IsSilent now (no_memory, b) h = h
after_resize-IsSilent now (thread_error, b) h = h

resize_buffer-IsSilent :
    (mallocs : Bool) (n : ℕ) (b : Enhanced)
    → IsSilent b
    → IsSilentResult (resize_buffer mallocs n b)
unfolding resize_buffer
resize_buffer-IsSilent mallocs n b h =
    let invalid : IsSilentResult (invalid_param, b) = record { silent = h } in
    let same : IsSilentResult (buffer_success, b) = record { silent = h } in
    let none_left : IsSilentResult (no_memory, b) = record { silent = h } in
    let done : IsSilentResult (buffer_success, resized n b) = record {
      silent = resized-IsSilent n b h;
    } in
    if-IsSilentResult _ invalid (if-IsSilentResult _ same (if-IsSilentResult _ none_left done))

adapt_size-IsSilent :
    (mallocs : Bool) (now : ℕ) (b : Enhanced) → IsSilent b → IsSilent (adapt_size mallocs now b)
unfolding adapt_size
adapt_size-IsSilent mallocs now b h =
    if-IsSilent _
      (if-IsSilent _ h (
        after_resize-IsSilent now (resize_buffer mallocs (wanted_size b) b)
          (resize_buffer-IsSilent mallocs (wanted_size b) b h).silent))
      h

update_buffer_metrics-IsSilent :
    (mallocs : Bool) (now : ℕ) (b : Enhanced)
    → IsSilent b
    → IsSilent (update_buffer_metrics mallocs now b)
unfolding update_buffer_metrics
update_buffer_metrics-IsSilent mallocs now b h =
    adapt_size-IsSilent mallocs now _ (like b _ refl refl refl refl h)

put-IsSilent :
    (now : ℕ) (payload : List ℕ) (b : Enhanced) → IsSilent b → IsSilent (put now payload b)
unfolding put
put-IsSilent now payload b h =
    let to_write = at_most (length payload) (b.buffer_size - length b.sub_bytes) in
    let room : to_write ≤ b.buffer_size - length b.sub_bytes = ground arith in
    let taken : IsSilent (record b {
      sub_bytes = b.sub_bytes ++ take to_write payload;
      last_activity = now;
      consecutive_overflows = 0;
    }) =
      record {
        unread = h.unread;
        fits = omega (
          arith,
          length-append b.sub_bytes (take to_write payload),
          length-take to_write payload,
          h.fits,
        );
        released = h.released;
      } in
    if-IsSilent (ltb 0 to_write) taken (like b _ refl refl refl refl h)

note_level-IsSilent :
    (now : ℕ) (before : Watermark) (b : Enhanced) → IsSilent b → IsSilent (note_level now before b)
unfolding note_level
note_level-IsSilent now before b h = if-IsSilent _ h (like b _ refl refl refl refl h)

write-IsSilent :
    (mallocs : Bool) (now : ℕ) (payload : List ℕ) (b : Enhanced)
    → IsSilent b
    → IsSilent (write mallocs now payload b).1
unfolding write
write-IsSilent mallocs now [] b h = h
write-IsSilent mallocs now (c ∷ cs) b h =
    let open_now = should_apply-IsOpen now b h in
    let b' = (should_apply_enhanced_backpressure now b).1 in
    let before = get_watermark_level b in
    rw open_now.through (
      update_buffer_metrics-IsSilent mallocs now (note_level now before (put now (c ∷ cs) b')) (
        note_level-IsSilent now before (put now (c ∷ cs) b')
          (put-IsSilent now (c ∷ cs) b' open_now.silent)))

read-IsSilent :
    (mallocs : Bool) (now n : ℕ) (b : Enhanced)
    → IsSilent b
    → ((read mallocs now n b).0 ≡ []) × IsSilent (read mallocs now n b).1
unfolding read
read-IsSilent mallocs now zero b h = (refl, h)
read-IsSilent mallocs now (suc n) b h =
    let to_read = at_most (suc n) (length b.main_bytes - b.main_pos) in
    (
      ap (λ bs. take to_read (drop b.main_pos bs)) h.unread
          ∙ ap (take to_read) (drop-nil ℕ b.main_pos)
          ∙ take-nil ℕ to_read,
      update_buffer_metrics-IsSilent mallocs now _ (
          if-IsSilent (ltb 0 to_read) (like b _ refl refl refl refl h)
            (like b _ refl refl refl refl h)),
    )

-- A call, with whether there is memory, and of a write or a read the time.
pub data Call : Type 0 where
  write_call : Bool → ℕ → List ℕ → Call
  read_call : Bool → ℕ → ℕ → Call
  resize_call : Bool → ℕ → Call

-- The bytes that all the reads hand out, and the buffer behind the calls.
unfoldable pub run : List Call → Enhanced → List ℕ × Enhanced
run [] b = ([], b)
run (write_call mallocs now payload ∷ calls) b = run calls (write mallocs now payload b).1
run (read_call mallocs now n ∷ calls) b =
    let (got, b') = read mallocs now n b in let (rest, b'') = run calls b' in (got ++ rest, b'')
run (resize_call mallocs size ∷ calls) b = run calls (resize_buffer mallocs size b).1

run-IsSilent :
    (calls : List Call) (b : Enhanced)
    → IsSilent b
    → ((run calls b).0 ≡ []) × IsSilent (run calls b).1
unfolding run
run-IsSilent [] b h = (refl, h)
run-IsSilent (write_call mallocs now payload ∷ calls) b h =
    run-IsSilent calls (write mallocs now payload b).1 (write-IsSilent mallocs now payload b h)
run-IsSilent (read_call mallocs now n ∷ calls) b h =
    let (none_got, h') = read-IsSilent mallocs now n b h in
    let (none_left, h'') = run-IsSilent calls (read mallocs now n b).1 h' in
    (ap (λ got. got ++ (run calls (read mallocs now n b).1).0) none_got ∙ none_left, h'')
run-IsSilent (resize_call mallocs size ∷ calls) b h =
    run-IsSilent calls (resize_buffer mallocs size b).1
      (resize_buffer-IsSilent mallocs size b h).silent

-- Whatever is written to an enhanced double buffer and whatever calls change its size, no read ever
-- hands out a byte, since no function moves the bytes that are written to the side that is read;
-- and the backpressure never begins, since one side alone fills the buffer by half at most.
pub run_delivers_nothing :
    (now initial_size min_size max_size : ℕ) (calls : List Call)
    → let (got, b) = run calls (init now initial_size min_size max_size) in
      (got ≡ []) × (b.backpressure_active ≡ false)
unfolding init
run_delivers_nothing now initial_size min_size max_size calls =
    let start : IsSilent (init now initial_size min_size max_size) = record {
      unread = refl;
      fits = omega arith;
      released = refl;
    } in
    let (nothing, h) = run-IsSilent calls (init now initial_size min_size max_size) start in
    (nothing, h.released)
