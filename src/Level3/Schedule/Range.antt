-- ===== src/Level3/Schedule/Range.antt =====
-- The quantum, the weights and the two notes of the direction in the scheduling of src/level3.c.
use modembridge.Prelude.{
  ℕ, ◌+◌, ◌-◌, ◌*◌, ◌/◌, ◌≤◌, ◌≡◌, refl, ◌∙◌, Bool, true, false, not, ◌&&◌, arith, ◌==◌,
  if◌then◌else◌,
}
use modembridge.Level3.Schedule.State.{
  Direction, serial_to_telnet, telnet_to_serial, other, same, Doubles, Schedule,
  get_direction_wait_time,
}
use modembridge.Level3.Schedule.Turn.{
  Result, clamp, update_direction_priorities, calculate_adaptive_quantum_with_latency,
  enforce_direction, enforce_latency_boundaries, update_latency_stats, calculate_optimal_quantum,
  start_quantum, is_expired, expire_quantum, correct_starvation, served, after_chunk, finish,
  process_pipeline_with_quantum,
}

clamp_bounds : (low high n : ℕ) → low ≤ high → (low ≤ clamp low high n) × (clamp low high n ≤ high)
clamp_bounds low high n h = ground arith

quotient-le : (a b : ℕ) → 1 ≤ a → a * 10 / (a + b) ≤ 10
quotient-le a b h = grind arith

at_least_one : (n : ℕ) → 1 ≤ (if n == 0 then 1 else n)
at_least_one n = ground arith

module _ (d : Doubles) (low high : ℕ) (ordered : low ≤ high) where
  -- The limits of the quantum, the quantum between them, weights that make ten, and one direction
  -- in both places that note it.
  pub record InRange (s : Schedule d) : Type 0 where
    pub lowest : s.min_quantum_ms ≡ low
    pub highest : s.max_quantum_ms ≡ high
    pub above : low ≤ s.current_quantum_ms
    pub below : s.current_quantum_ms ≤ high
    pub ten : s.serial_weight + s.telnet_weight ≡ 10
    pub agree : s.active_pipeline ≡ s.current_direction

  if-InRange : (b : Bool) {x y : Schedule d} → InRange x → InRange y → InRange (if b then x else y)
  if-InRange true h k = h
  if-InRange false h k = k

  -- A state that differs from the other in what the record is not about.
  same_range :
      (s s' : Schedule d)
      → s'.min_quantum_ms ≡ s.min_quantum_ms
      → s'.max_quantum_ms ≡ s.max_quantum_ms
      → s'.current_quantum_ms ≡ s.current_quantum_ms
      → s'.serial_weight ≡ s.serial_weight
      → s'.telnet_weight ≡ s.telnet_weight
      → s'.active_pipeline ≡ s'.current_direction
      → InRange s
      → InRange s'
  same_range s s' low' high' quantum serial telnet agree' h = record {
    lowest = low' ∙ h.lowest;
    highest = high' ∙ h.highest;
    above = omega (arith, quantum, h.above);
    below = omega (arith, quantum, h.below);
    ten = omega (arith, serial, telnet, h.ten);
    agree = agree';
  }

  weighed :
      (s : Schedule d) (a b : ℕ)
      → InRange s
      → a + b ≡ 10
      → InRange (record s { serial_weight = a; telnet_weight = b })
  weighed s a b h e = record {
    lowest = h.lowest;
    highest = h.highest;
    above = h.above;
    below = h.below;
    ten = e;
    agree = h.agree;
  }

  timed :
      (s : Schedule d) (n bytes : ℕ)
      → InRange s
      → InRange (record s {
        current_quantum_ms = clamp s.min_quantum_ms s.max_quantum_ms n;
        slice_bytes = bytes;
      })
  timed s n bytes h = record {
    lowest = h.lowest;
    highest = h.highest;
    above = omega (arith, h.lowest, h.highest, clamp_bounds s.min_quantum_ms s.max_quantum_ms n);
    below = omega (arith, h.lowest, h.highest, clamp_bounds s.min_quantum_ms s.max_quantum_ms n);
    ten = h.ten;
    agree = h.agree;
  }

  directed :
      (s : Schedule d) (direction : Direction) (bytes : ℕ)
      → InRange s
      → InRange (record s {
        current_direction = direction;
        active_pipeline = direction;
        slice_bytes = bytes;
      })
  directed s direction bytes h = same_range s _ refl refl refl refl refl refl h

  priorities_by_sum :
      (s : Schedule d) (a b : ℕ)
      → InRange s
      → 1 ≤ a
      → (sum_is_ten : Bool) → (a + b == 10) ≡ sum_is_ten
      → InRange (
          if sum_is_ten
          then record s { serial_weight = a; telnet_weight = b }
          else record s { serial_weight = a * 10 / (a + b); telnet_weight = 10 - a * 10 / (a + b) })
  priorities_by_sum s a b h positive true e = weighed s a b h (ground arith)
  priorities_by_sum s a b h positive false e =
      weighed s (a * 10 / (a + b)) (10 - a * 10 / (a + b)) h
        (omega (arith, quotient-le a b positive))

  priorities-InRange :
      (now : ℕ) (s : Schedule d) → InRange s → InRange (update_direction_priorities d now s)
  unfolding update_direction_priorities
  priorities-InRange now s h =
      let serial_wait = get_direction_wait_time d now serial_to_telnet s in
      let telnet_wait = get_direction_wait_time d now telnet_to_serial s in
      let share_s = d.share serial_wait (serial_wait + telnet_wait) in
      let share_t = d.share telnet_wait (serial_wait + telnet_wait) in
      let serial = if share_s == 0 then 1 else share_s in
      let telnet = if share_t == 0 then 1 else share_t in
      if-InRange (serial_wait + telnet_wait == 0) (weighed s 5 5 h refl)
        (priorities_by_sum s serial telnet h (at_least_one share_s) (serial + telnet == 10) refl)

  adaptive-InRange :
      (now : ℕ) (s : Schedule d)
      → InRange s
      → InRange (calculate_adaptive_quantum_with_latency d now s)
  unfolding calculate_adaptive_quantum_with_latency
  adaptive-InRange now s h = if-InRange _ (timed s _ 0 h) h

  enforce_direction-InRange :
      (now : ℕ) (direction : Direction) (s : Schedule d)
      → InRange s
      → InRange (enforce_direction d now direction s)
  unfolding enforce_direction
  enforce_direction-InRange now direction s h = if-InRange _ (directed s direction 0 h) h

  enforce-InRange :
      (now : ℕ) (s : Schedule d) → InRange s → InRange (enforce_latency_boundaries d now s)
  unfolding enforce_latency_boundaries
  enforce-InRange now s h =
      let s1 = enforce_direction d now serial_to_telnet s in
      let s2 = enforce_direction d now telnet_to_serial s1 in
      let h2 : InRange s2 =
        enforce_direction-InRange now telnet_to_serial s1
          (enforce_direction-InRange now serial_to_telnet s h) in
      if-InRange _
        (adaptive-InRange now (update_direction_priorities d now s2) (priorities-InRange now s2 h2))
        h2

  optimal-InRange : (s : Schedule d) → InRange s → InRange (calculate_optimal_quantum d s)
  unfolding calculate_optimal_quantum
  optimal-InRange s h = if-InRange _ (timed s _ s.slice_bytes h) h

  stats-InRange :
      (later latency : ℕ) (direction : Direction) (s : Schedule d)
      → InRange s
      → InRange (update_latency_stats d later direction latency s)
  unfolding update_latency_stats
  stats-InRange later latency serial_to_telnet s h =
      same_range s _ refl refl refl refl refl h.agree h
  stats-InRange later latency telnet_to_serial s h =
      same_range s _ refl refl refl refl refl h.agree h

  served-InRange :
      (later : ℕ) (direction : Direction) (s : Schedule d)
      → InRange s
      → InRange (served d later direction s)
  served-InRange later serial_to_telnet s h = same_range s _ refl refl refl refl refl h.agree h
  served-InRange later telnet_to_serial s h = same_range s _ refl refl refl refl refl h.agree h

  -- The places of the direction, with counters that no limit is about.
  turned :
      (s : Schedule d) (direction : Direction) (start bytes slices seconds : ℕ)
      → InRange s
      → InRange (record s {
        current_direction = direction;
        active_pipeline = direction;
        start_time = start;
        slice_bytes = bytes;
        consecutive_slices = slices;
        last_pipeline_switch = seconds;
      })
  turned s direction start bytes slices seconds h = same_range s _ refl refl refl refl refl refl h

  counted-InRange :
      (s : Schedule d) (bytes slices : ℕ)
      → InRange s
      → InRange (record s { slice_bytes = bytes; consecutive_slices = slices })
  counted-InRange s bytes slices h = same_range s _ refl refl refl refl refl h.agree h

  starved :
      (s : Schedule d) (direction : Direction) (serial telnet : ℕ)
      → InRange s
      → InRange (record s {
        current_direction = direction;
        active_pipeline = direction;
        serial_starvation_time = serial;
        telnet_starvation_time = telnet;
      })
  starved s direction serial telnet h = same_range s _ refl refl refl refl refl refl h

  begun :
      (s : Schedule d) (start switched : ℕ)
      → InRange s
      → InRange (record s { start_time = start; last_direction_switch_time = switched })
  begun s start switched h = same_range s _ refl refl refl refl refl h.agree h

  after_chunk-InRange :
      (now later seconds : ℕ) (direction : Direction) (s : Schedule d)
      → InRange s
      → InRange (after_chunk d now later seconds direction s)
  unfolding after_chunk
  after_chunk-InRange now later seconds direction s h =
      let measured =
        update_latency_stats d later direction (later - now) (served d later direction s) in
      let counted = record measured {
        slice_bytes = measured.slice_bytes + 1;
        consecutive_slices = measured.consecutive_slices + 1;
      } in
      let hc : InRange counted = counted-InRange measured _ _ (
        stats-InRange later (later - now) direction (served d later direction s)
          (served-InRange later direction s h)) in
      let adjusted =
        if counted.adaptive_quantum_enabled then calculate_optimal_quantum d counted else counted in
      let enforced = enforce_latency_boundaries d later adjusted in
      let he : InRange enforced =
        enforce-InRange later adjusted (if-InRange _ (optimal-InRange counted hc) hc) in
      if-InRange _
        (turned enforced (other direction) enforced.start_time 0 enforced.consecutive_slices seconds
          he)
        he

  finish-InRange :
      (b : Bool) (chunk : Direction → Result) (now later seconds : ℕ) (e c : Schedule d)
      → InRange e
      → InRange c
      → InRange (finish d b chunk now later seconds e c).2
  unfolding finish
  finish-InRange true chunk now later seconds e c he hc = he
  finish-InRange false chunk now later seconds e c he hc =
      after_chunk-InRange now later seconds c.current_direction c hc

  -- Whatever the clock shows and the processing of a chunk returns, a turn of the scheduling keeps
  -- the quantum within its limits, weights that make ten, and the active pipeline in agreement with
  -- the current direction.
  pub process_pipeline_with_quantum-InRange :
      (chunk : Direction → Result) (now later seconds : ℕ) (direction : Direction) (s : Schedule d)
      → InRange s
      → InRange (process_pipeline_with_quantum d chunk now later seconds direction s).2
  unfolding process_pipeline_with_quantum expire_quantum correct_starvation
  process_pipeline_with_quantum-InRange chunk now later seconds direction s h =
      let started = start_quantum d now s in
      let hs : InRange started = if-InRange (s.start_time == 0) (begun s now now h) h in
      let expired = expire_quantum d now seconds started in
      let hx : InRange expired =
        if-InRange (is_expired d now started)
          (turned started (other started.current_direction) now 0 0 seconds hs) hs in
      let enforced = enforce_latency_boundaries d now expired in
      let he : InRange enforced = enforce-InRange now expired hx in
      let corrected = correct_starvation d now enforced in
      let hr : InRange corrected =
        if-InRange _ (starved enforced serial_to_telnet now enforced.telnet_starvation_time he) (
          if-InRange _ (starved enforced telnet_to_serial enforced.serial_starvation_time now he)
            he) in
      finish-InRange
        (not (same enforced.current_direction direction) && not (is_expired d now started)) chunk
        now later seconds enforced corrected he hr
