-- ===== src/Level3/Schedule/Turn.antt =====
-- One turn of the scheduling of src/level3.c: `l3_process_pipeline_with_quantum` and the functions
-- that it calls. The clock shows `now` up to the processing of a chunk and `later` behind it.
use modembridge.Prelude.{
  ℕ, ◌+◌, ◌-◌, ◌*◌, ◌/◌, Bool, true, false, not, ◌&&◌, ◌||◌, Option, none, some, ltb, leb, ◌==◌,
  if◌then◌else◌,
}
use modembridge.Level3.Schedule.State.{
  Direction, serial_to_telnet, telnet_to_serial, other, same, Doubles, Schedule,
  get_direction_wait_time, is_direction_starving, detect_latency_violation,
  should_force_direction_switch,
}

-- The results that the function returns.
pub data Result : Type 0 where
  chunk_success chunk_failed quantum_expired : Result

abbrev distance : ℕ → ℕ → ℕ
distance a b = (a - b) + (b - a)

abbrev pub clamp : ℕ → ℕ → ℕ → ℕ
clamp low high n = if ltb n low then low else if ltb high n then high else n

module _ (d : Doubles) where
  -- `l3_update_direction_priorities`.
  unfoldable pub update_direction_priorities : ℕ → Schedule d → Schedule d
  update_direction_priorities now s =
      let serial_wait = get_direction_wait_time d now serial_to_telnet s in
      let telnet_wait = get_direction_wait_time d now telnet_to_serial s in
      let at_least_one = λ (n : ℕ). if n == 0 then 1 else n in
      let serial = at_least_one (d.share serial_wait (serial_wait + telnet_wait)) in
      let telnet = at_least_one (d.share telnet_wait (serial_wait + telnet_wait)) in
      let scaled = serial * 10 / (serial + telnet) in
      if serial_wait + telnet_wait == 0
      then record s { serial_weight = 5; telnet_weight = 5 }
      else if serial + telnet == 10
      then record s { serial_weight = serial; telnet_weight = telnet }
      else record s { serial_weight = scaled; telnet_weight = 10 - scaled }

  -- The quantum for the two waits, before the limits. A wait of 0 counts as balanced.
  unfoldable by_waits : ℕ → ℕ → Schedule d → ℕ
  by_waits longer shorter s =
      if shorter == 0
      then s.base_quantum_ms
      else if ltb (3 * shorter) longer
      then s.min_quantum_ms
      else if ltb (3 * shorter) (2 * longer)
      then d.tenths s.base_quantum_ms 7
      else s.base_quantum_ms

  abbrev at_low_speed : ℕ → Schedule d → ℕ
  at_low_speed n s =
      if leb s.serial_baudrate 2400 && ltb n (s.latency_bound_ms / 4)
      then s.latency_bound_ms / 4
      else n

  -- `l3_calculate_adaptive_quantum_with_latency`.
  unfoldable pub calculate_adaptive_quantum_with_latency : ℕ → Schedule d → Schedule d
  unfolding by_waits
  calculate_adaptive_quantum_with_latency now s =
      let serial_wait = get_direction_wait_time d now serial_to_telnet s in
      let telnet_wait = get_direction_wait_time d now telnet_to_serial s in
      let longer = if ltb telnet_wait serial_wait then serial_wait else telnet_wait in
      let shorter = if ltb serial_wait telnet_wait then serial_wait else telnet_wait in
      let adaptive =
        clamp s.min_quantum_ms s.max_quantum_ms (at_low_speed (by_waits longer shorter s) s) in
      if ltb (s.min_quantum_ms / 2) (distance adaptive s.current_quantum_ms)
      then record s { current_quantum_ms = adaptive; slice_bytes = 0 }
      else s

  -- The switch that a violated latency bound of a direction may force.
  unfoldable pub enforce_direction : ℕ → Direction → Schedule d → Schedule d
  enforce_direction now direction s =
      if detect_latency_violation d now direction s
        && should_force_direction_switch d now direction s
      then record s { current_direction = direction; active_pipeline = direction; slice_bytes = 0 }
      else s

  -- `l3_enforce_latency_boundaries`.
  unfoldable pub enforce_latency_boundaries : ℕ → Schedule d → Schedule d
  enforce_latency_boundaries now s =
      let s1 = enforce_direction now serial_to_telnet s in
      let s2 = enforce_direction now telnet_to_serial s1 in
      if detect_latency_violation d now serial_to_telnet s
        || detect_latency_violation d now telnet_to_serial s1
      then calculate_adaptive_quantum_with_latency now (update_direction_priorities now s2)
      else s2

  -- `l3_update_latency_stats`.
  unfoldable pub update_latency_stats : ℕ → Direction → ℕ → Schedule d → Schedule d
  update_latency_stats later serial_to_telnet latency s = record s {
    serial_to_telnet_avg_ms =
        if d.is_zero s.serial_to_telnet_avg_ms
        then d.of_ms latency
        else d.blend s.serial_to_telnet_avg_ms (d.of_ms latency);
    max_serial_to_telnet_ms =
        if ltb s.max_serial_to_telnet_ms latency then latency else s.max_serial_to_telnet_ms;
    total_samples = s.total_samples + 1;
    last_measurement_time = later;
  }
  update_latency_stats later telnet_to_serial latency s = record s {
    telnet_to_serial_avg_ms =
        if d.is_zero s.telnet_to_serial_avg_ms
        then d.of_ms latency
        else d.blend s.telnet_to_serial_avg_ms (d.of_ms latency);
    max_telnet_to_serial_ms =
        if ltb s.max_telnet_to_serial_ms latency then latency else s.max_telnet_to_serial_ms;
    total_samples = s.total_samples + 1;
    last_measurement_time = later;
  }

  -- `l3_calculate_optimal_quantum`.
  unfoldable pub calculate_optimal_quantum : Schedule d → Schedule d
  calculate_optimal_quantum s =
      let target =
        if d.mean_above s.serial_to_telnet_avg_ms s.telnet_to_serial_avg_ms 50
        then d.tenths s.base_quantum_ms 8
        else if d.mean_below s.serial_to_telnet_avg_ms s.telnet_to_serial_avg_ms 10
        then d.tenths s.base_quantum_ms 12
        else s.base_quantum_ms in
      let optimal = clamp s.min_quantum_ms s.max_quantum_ms target in
      if ltb 5 (distance optimal s.current_quantum_ms)
      then record s { current_quantum_ms = optimal }
      else s

  -- `l3_update_fair_queue_weights`.
  unfoldable update_fair_queue_weights : Schedule d → Schedule d
  update_fair_queue_weights s =
      let serial = s.serial_to_telnet_avg_ms in
      let telnet = s.telnet_to_serial_avg_ms in
      if d.is_positive serial && d.is_positive telnet
      then if d.ratio_above serial telnet 12
        then record s { serial_weight = 6; telnet_weight = 4 }
        else if d.ratio_below serial telnet 8
        then record s { serial_weight = 4; telnet_weight = 6 }
        else record s { serial_weight = 5; telnet_weight = 5 }
      else s

  -- The first turn starts the quantum.
  abbrev pub start_quantum : ℕ → Schedule d → Schedule d
  start_quantum now s =
      if s.start_time == 0
      then record s { start_time = now; last_direction_switch_time = now }
      else s

  abbrev pub is_expired : ℕ → Schedule d → Bool
  is_expired now s = leb (s.start_time + s.current_quantum_ms) now

  -- A quantum that has expired gives the turn to the other direction.
  unfoldable pub expire_quantum : ℕ → ℕ → Schedule d → Schedule d
  expire_quantum now seconds s =
      if is_expired now s
      then record s {
        current_direction = other s.current_direction;
        active_pipeline = other s.current_direction;
        start_time = now;
        slice_bytes = 0;
        consecutive_slices = 0;
        last_pipeline_switch = seconds;
      }
      else s

  -- A direction that starves is taken before the other.
  unfoldable pub correct_starvation : ℕ → Schedule d → Schedule d
  correct_starvation now s =
      if is_direction_starving d now serial_to_telnet s
      then record s {
        current_direction = serial_to_telnet;
        active_pipeline = serial_to_telnet;
        serial_starvation_time = now;
      }
      else if is_direction_starving d now telnet_to_serial s
      then record s {
        current_direction = telnet_to_serial;
        active_pipeline = telnet_to_serial;
        telnet_starvation_time = now;
      }
      else s

  abbrev pub served : ℕ → Direction → Schedule d → Schedule d
  served later serial_to_telnet s = record s { serial_starvation_time = later }
  served later telnet_to_serial s = record s { telnet_starvation_time = later }

  -- What follows the processing of a chunk of the direction.
  unfoldable pub after_chunk : ℕ → ℕ → ℕ → Direction → Schedule d → Schedule d
  after_chunk now later seconds direction s =
      let measured =
        update_latency_stats later direction (later - now) (served later direction s) in
      let counted = record measured {
        slice_bytes = measured.slice_bytes + 1;
        consecutive_slices = measured.consecutive_slices + 1;
      } in
      let adjusted =
        if counted.adaptive_quantum_enabled then calculate_optimal_quantum counted else counted in
      let enforced = enforce_latency_boundaries later adjusted in
      if should_force_direction_switch d later direction enforced
      then record enforced {
        current_direction = other direction;
        active_pipeline = other direction;
        slice_bytes = 0;
        last_pipeline_switch = seconds;
      }
      else enforced

  -- The end of the turn, by whether the enforcement of the bound has switched the direction within
  -- a quantum. `chunk` is what the processing of a chunk returns.
  unfoldable pub finish :
      Bool
      → (Direction → Result)
      → ℕ
      → ℕ
      → ℕ
      → Schedule d
      → Schedule d
      → Result × Option Direction × Schedule d
  finish true chunk now later seconds enforced corrected = (quantum_expired, none, enforced)
  finish false chunk now later seconds enforced corrected = (
    chunk corrected.current_direction,
    some corrected.current_direction,
    after_chunk now later seconds corrected.current_direction corrected,
  )

  -- `l3_process_pipeline_with_quantum`: the result, the direction a chunk of which is processed,
  -- and the state.
  unfoldable pub process_pipeline_with_quantum :
      (Direction → Result)
      → ℕ
      → ℕ
      → ℕ
      → Direction
      → Schedule d
      → Result × Option Direction × Schedule d
  process_pipeline_with_quantum chunk now later seconds direction s =
      let started = start_quantum now s in
      let enforced = enforce_latency_boundaries now (expire_quantum now seconds started) in
      finish (not (same enforced.current_direction direction) && not (is_expired now started)) chunk
        now later seconds enforced (correct_starvation now enforced)
